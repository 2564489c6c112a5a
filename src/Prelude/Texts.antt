-- ===== src/Prelude/Texts.antt =====
-- Text as the list of its code points, its equality test, and the order of `str`.
use Prim.Native.Nat.{ℕ, compare, Ordering}
use Prim.Native.Char.{code}
use Prim.Native.String.{String}
use mathlib.Core.Path.{◌≡◌, refl}
use mathlib.Core.Logic.{◌↔◌}
use mathlib.Core.Bool.{Bool, true, false, ◌&&◌}
use mathlib.Core.List.{List, [], ◌∷◌}
use native.Mathlib.Omega.{arith}
use rattler_build.Prelude.Tests.{◌==◌}

abbrev pub Text : Type 0
Text = List ℕ

-- The code points of a text literal.
abbrev pub codes : String → Text
codes String.[] = []
codes (String.◌∷◌ c s) = code c ∷ codes s

unfoldable pub text_eq : Text → Text → Bool
text_eq [] [] = true
text_eq [] (b ∷ t) = false
text_eq (a ∷ s) [] = false
text_eq (a ∷ s) (b ∷ t) = a == b && text_eq s t

text_eq→eq : (s t : Text) → text_eq s t ≡ true → s ≡ t
unfolding text_eq
text_eq→eq [] [] h = refl
text_eq→eq [] (b ∷ t) h = cc
text_eq→eq (a ∷ s) [] h = cc
text_eq→eq (a ∷ s) (b ∷ t) h = ground (arith, text_eq→eq s t)

pub text_eq_refl : (s : Text) → text_eq s s ≡ true
unfolding text_eq
text_eq_refl [] = refl
text_eq_refl (a ∷ s) = ground (arith, text_eq_refl s)

pub text_eq_iff : (s t : Text) → (text_eq s t ≡ true) ↔ (s ≡ t)
text_eq_iff s t = (text_eq→eq s t, λ e. rw (e) (text_eq_refl t))

-- The lexicographic order.
unfoldable pub text_compare : Text → Text → Ordering
text_compare [] [] = Ordering.eq
text_compare [] (b ∷ t) = Ordering.lt
text_compare (a ∷ s) [] = Ordering.gt
text_compare (a ∷ s) (b ∷ t) =
    let rest = text_compare s t in
    elim (compare a b) [
      | Ordering.lt ↦ Ordering.lt
      | Ordering.eq ↦ rest
      | Ordering.gt ↦ Ordering.gt
    ]

pub text_compare-eq : (s t : Text) → text_compare s t ≡ Ordering.eq → s ≡ t
unfolding text_compare
text_compare-eq [] [] h = refl
text_compare-eq [] (b ∷ t) h = cc
text_compare-eq (a ∷ s) [] h = cc
text_compare-eq (a ∷ s) (b ∷ t) h = ground (arith, text_compare-eq s t)

pub text_compare_refl : (s : Text) → text_compare s s ≡ Ordering.eq
unfolding text_compare
text_compare_refl [] = refl
text_compare_refl (a ∷ s) = ground (arith, text_compare_refl s)

pub text_compare_iff : (s t : Text) → (text_compare s t ≡ Ordering.eq) ↔ (s ≡ t)
text_compare_iff s t = (text_compare-eq s t, λ e. rw e (text_compare_refl t))

pub text_compare_trans :
    (s t u : Text)
    → text_compare s t ≡ Ordering.lt
    → text_compare t u ≡ Ordering.lt
    → text_compare s u ≡ Ordering.lt
unfolding text_compare
text_compare_trans [] [] u h k = cc
text_compare_trans [] (b ∷ t) [] h k = cc
text_compare_trans [] (b ∷ t) (c ∷ u) h k = refl
text_compare_trans (a ∷ s) [] u h k = cc
text_compare_trans (a ∷ s) (b ∷ t) [] h k = cc
text_compare_trans (a ∷ s) (b ∷ t) (c ∷ u) h k = ground (arith, text_compare_trans s t u)

pub text_compare_flip :
    (s t : Text) → text_compare s t ≡ Ordering.gt → text_compare t s ≡ Ordering.lt
unfolding text_compare
text_compare_flip [] [] h = cc
text_compare_flip [] (b ∷ t) h = cc
text_compare_flip (a ∷ s) [] h = refl
text_compare_flip (a ∷ s) (b ∷ t) h = ground (arith, text_compare_flip s t)
