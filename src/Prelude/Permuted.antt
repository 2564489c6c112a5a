-- ===== src/Prelude/Permuted.antt =====
-- Lists up to order.
use rattler_build.Prelude.Lists.{all, any, All, All-append}
use mathlib.Core.Path.{◌≡◌, refl, ap, ◌∙◌, subst}
use mathlib.Core.Bool.{Bool, Bool-set, ◌&&◌, ◌||◌}
use mathlib.Core.Logic.{∥∥₁_elim}
use mathlib.Core.List.{List, [], ◌∷◌, ◌++◌, append_assoc, Perm, Permᴰ, Perm-prop, perm_append_comm}
use mathlib.Core.List.Perm
use native.Mathlib.Omega.{arith}

module _ {A B : Type 0} (f : A → List B) where
  -- `iter().flat_map(f)`
  abbrev pub flat_map : List A → List B
  flat_map [] = []
  flat_map (x ∷ xs) = f x ++ flat_map xs

  swap_front : (u v w : List B) → Perm (u ++ (v ++ w)) (v ++ (u ++ w))
  swap_front u v w =
      subst (λ l. Perm l (v ++ (u ++ w))) (append_assoc u v w)
        (subst (λ l. Perm ((u ++ v) ++ w) l) (append_assoc v u w)
          (Perm.append_right w (perm_append_comm u v)))

  flat_map-Permᴰ : {xs ys : List A} → Permᴰ xs ys → Perm (flat_map xs) (flat_map ys)
  flat_map-Permᴰ Permᴰ.nil = Perm.refl []
  flat_map-Permᴰ (Permᴰ.cons {b = b} e d) = rw e (Perm.append_left (f b) (flat_map-Permᴰ d))
  flat_map-Permᴰ (Permᴰ.swap {a' = a'} {b' = b'} {l = l} e e') =
      rw (e, e') (swap_front (f b') (f a') (flat_map l))
  flat_map-Permᴰ (Permᴰ.trans d d') = Perm.trans (flat_map-Permᴰ d) (flat_map-Permᴰ d')

  pub flat_map-Perm : {xs ys : List A} → Perm xs ys → Perm (flat_map xs) (flat_map ys)
  flat_map-Perm p = ∥∥₁_elim p Perm-prop flat_map-Permᴰ

module _ {A : Type 0} (p : A → Bool) where
  all-Permᴰ : {xs ys : List A} → Permᴰ xs ys → all p xs ≡ all p ys
  all-Permᴰ Permᴰ.nil = refl
  all-Permᴰ (Permᴰ.cons {b = b} e d) = rw e (ap (λ t. p b && t) (all-Permᴰ d))
  all-Permᴰ (Permᴰ.swap {a' = a'} {b' = b'} {l = l} e e') = rw (e, e') (ground arith)
  all-Permᴰ (Permᴰ.trans d d') = all-Permᴰ d ∙ all-Permᴰ d'

  pub all-Perm : {xs ys : List A} → Perm xs ys → all p xs ≡ all p ys
  all-Perm h = ∥∥₁_elim h (Bool-set _ _) all-Permᴰ

module _ {A : Type 0} (p : A → Bool) where
  pub any-Permᴰ : {xs ys : List A} → Permᴰ xs ys → any p xs ≡ any p ys
  any-Permᴰ Permᴰ.nil = refl
  any-Permᴰ (Permᴰ.cons {b = b} e d) = rw e (ap (λ t. p b || t) (any-Permᴰ d))
  any-Permᴰ (Permᴰ.swap {a' = a'} {b' = b'} {l = l} e e') = rw (e, e') (ground arith)
  any-Permᴰ (Permᴰ.trans d d') = any-Permᴰ d ∙ any-Permᴰ d'

  pub any-Perm : {xs ys : List A} → Perm xs ys → any p xs ≡ any p ys
  any-Perm h = ∥∥₁_elim h (Bool-set _ _) any-Permᴰ

module _ {A : Type 0} (P : A → Type 0) where
  pub All-Permᴰ : {xs ys : List A} → Permᴰ xs ys → All P xs → All P ys
  All-Permᴰ Permᴰ.nil h = h
  All-Permᴰ (Permᴰ.cons e d) h = (subst P e h.0, All-Permᴰ d h.1)
  All-Permᴰ (Permᴰ.swap e e') h = (subst P e' h.1.0, (subst P e h.0, h.1.1))
  All-Permᴰ (Permᴰ.trans d d') h = All-Permᴰ d' (All-Permᴰ d h)

  pub All-flat_map :
      {B : Type 0} (f : B → List A) (xs : List B)
      → All (λ x. All P (f x)) xs
      → All P (flat_map f xs)
  All-flat_map f [] h = tt
  All-flat_map f (x ∷ xs) h = All-append P (f x) (flat_map f xs) h.0 (All-flat_map f xs h.1)

pub unmoved : {A : Type 0} (xs : List A) → Permᴰ xs xs
unmoved [] = Permᴰ.nil
unmoved (x ∷ xs) = Permᴰ.cons refl (unmoved xs)
