-- ===== src/Prelude/Lists.antt =====
-- Lists measured by native numbers, and the predicates and searches that the components share.
use Prim.Native.Nat.{ℕ, zero, suc, ◌+◌}
use mathlib.Core.Path.{◌≡◌, refl, ap}
use mathlib.Core.Bool.{Bool, true, false, ◌&&◌, ◌||◌}
use mathlib.Core.List.{List, [], ◌∷◌, ◌++◌, map}
use mathlib.Core.Option.{Option, none, some}
use mathlib.Core.Logic.{◌⊎◌}
use native.Mathlib.Omega.{arith}
use rattler_build.Prelude.Tests.{if◌then◌else◌}

module _ {ℓ} {A : Type ℓ} where
  abbrev pub length : List A → ℕ
  length [] = 0
  length (x ∷ xs) = suc (length xs)

  abbrev pub get_elem? : List A → ℕ → Option A
  get_elem? [] i = none
  get_elem? (x ∷ xs) zero = some x
  get_elem? (x ∷ xs) (suc i) = get_elem? xs i

  -- `iter().any` and `iter().all`
  abbrev pub any : (A → Bool) → List A → Bool
  any p [] = false
  any p (x ∷ xs) = p x || any p xs

  abbrev pub all : (A → Bool) → List A → Bool
  all p [] = true
  all p (x ∷ xs) = p x && all p xs

  -- `iter().filter`
  abbrev pub keep : (A → Bool) → List A → List A
  keep p [] = []
  keep p (x ∷ xs) = let rest = keep p xs in if p x then x ∷ rest else rest

  abbrev pub is_empty : List A → Bool
  is_empty [] = true
  is_empty (x ∷ xs) = false

  pub length-append : (xs ys : List A) → length (xs ++ ys) ≡ length xs + length ys
  length-append [] ys = omega arith
  length-append (x ∷ xs) ys = omega (arith, length-append xs ys)

module _ {ℓ κ} {A : Type ℓ} {B : Type κ} where
  pub length-map : (f : A → B) (xs : List A) → length (map f xs) ≡ length xs
  length-map f [] = refl
  length-map f (x ∷ xs) = ap suc (length-map f xs)

  -- `iter().filter_map`
  abbrev pub collect_some : (A → Option B) → List A → List B
  collect_some f [] = []
  collect_some f (x ∷ xs) =
      let rest = collect_some f xs in elim (f x) [ none ↦ rest | some y ↦ y ∷ rest ]

  pub collect_some_append :
      (f : A → Option B) (xs ys : List A)
      → collect_some f (xs ++ ys) ≡ collect_some f xs ++ collect_some f ys
  collect_some_append f [] ys = refl
  collect_some_append f (x ∷ xs) ys = ground (arith, collect_some_append f xs ys)

-- A predicate that holds of every element; it computes to tuples.
abbrev pub All {ℓ} : {A : Type ℓ} → (A → Type 0) → List A → Type 0
All P [] = Unit
All P (x ∷ xs) = P x × All P xs

-- A predicate on the value of an option, if there is one.
abbrev pub OnSome {ℓ} : {A : Type ℓ} → (A → Type 0) → Option A → Type 0
OnSome P none = Unit
OnSome P (some a) = P a

-- Some element satisfies the predicate, with the witness kept.
abbrev pub Any {ℓ} : {A : Type ℓ} → (A → Type 0) → List A → Type 0
Any P [] = ⊥
Any P (x ∷ xs) = P x ⊎ Any P xs

module _ {ℓ} {A : Type ℓ} (P : A → Type 0) where
  pub All-append : (xs ys : List A) → All P xs → All P ys → All P (xs ++ ys)
  All-append [] ys h k = k
  All-append (x ∷ xs) ys h k = (h.0, All-append xs ys h.1 k)

  pub All-always : ((x : A) → P x) → (xs : List A) → All P xs
  All-always f [] = tt
  All-always f (x ∷ xs) = (f x, All-always f xs)

  pub All-split : (xs ys : List A) → All P (xs ++ ys) → All P xs × All P ys
  All-split [] ys h = (tt, h)
  All-split (x ∷ xs) ys h = let (k, l) = All-split xs ys h.1 in ((h.0, k), l)

  pub OnSome-both :
      (Q : A → Type 0) (o : Option A) → OnSome P o → OnSome Q o → OnSome (λ x. P x × Q x) o
  OnSome-both Q none h k = tt
  OnSome-both Q (some x) h k = (h, k)

  pub All-get_elem? : (xs : List A) (i : ℕ) → All P xs → OnSome P (get_elem? xs i)
  All-get_elem? [] i h = tt
  All-get_elem? (x ∷ xs) zero h = h.0
  All-get_elem? (x ∷ xs) (suc i) h = All-get_elem? xs i h.1

  pub All-weaken : (Q : A → Type 0) (xs : List A) → ((x : A) → P x → Q x) → All P xs → All Q xs
  All-weaken Q [] f h = tt
  All-weaken Q (x ∷ xs) f h = (f x h.0, All-weaken Q xs f h.1)

pub any-append {ℓ} :
    {A : Type ℓ} (p : A → Bool) (xs ys : List A) → any p (xs ++ ys) ≡ any p xs || any p ys
any-append p [] ys = refl
any-append p (x ∷ xs) ys = ground (arith, any-append p xs ys)

module _ {ℓ κ} {A : Type ℓ} {B : Type κ} (P : B → Type 0) where
  pub All-of_map : (f : A → B) (xs : List A) → All P (map f xs) → All (λ x. P (f x)) xs
  All-of_map f [] h = tt
  All-of_map f (x ∷ xs) h = (h.0, All-of_map f xs h.1)

  pub All-collect_some :
      (f : A → Option B) (xs : List A) → All (λ x. OnSome P (f x)) xs → All P (collect_some f xs)
  All-collect_some f [] h = tt
  All-collect_some f (x ∷ xs) h =
      let rest = All-collect_some f xs h.1 in
      (elim (f x)
          as (λ o.
            (OnSome P o
              → All P (elim o [ none ↦ collect_some f xs | some y ↦ y ∷ collect_some f xs ]))) [
                | none ↦ λ _. rest
                | some y ↦ λ p. (p, rest)
              ])
        h.0

  pub All-map : (f : A → B) (xs : List A) → All (λ x. P (f x)) xs → All P (map f xs)
  All-map f [] h = tt
  All-map f (x ∷ xs) h = (h.0, All-map f xs h.1)
