-- ===== src/Recipe/Topology/Marks.antt =====
-- The marks of the sort: how `added` selects elements of a list, and how many it has.
use rattler_build.Prelude.{
  ℕ, zero, suc, ◌≤◌, ◌<◌, ◌≡◌, refl, ap, subst, ◌==◌, ◌||◌, Bool, true, false, Option, some, List,
  [], ◌∷◌, ◌++◌, length, get_elem?, collect_some, arith, inl, inr, ◌⊎◌, Perm,
}
use mathlib.Core.List.{perm_middle, append-nil}
use mathlib.Core.List.Perm
use rattler_build.Recipe.Topology.Loop.{is_added, mark}

unfoldable pub member : List ℕ → ℕ → Bool
member [] i = false
member (j ∷ js) i = j == i || member js i

-- The elements of the list that are marked.
unfoldable pub select {ℓ} : {A : Type ℓ} → List A → List Bool → List A
select [] bs = []
select (x ∷ xs) [] = []
select (x ∷ xs) (true ∷ bs) = x ∷ select xs bs
select (x ∷ xs) (false ∷ bs) = select xs bs

unfoldable pub trues : List Bool → ℕ
trues [] = 0
trues (true ∷ bs) = suc (trues bs)
trues (false ∷ bs) = trues bs

pub length-mark : (bs : List Bool) (i : ℕ) → length (mark bs i) ≡ length bs
unfolding mark
length-mark [] i = refl
length-mark (b ∷ bs) zero = refl
length-mark (b ∷ bs) (suc i) = ap suc (length-mark bs i)

pub is_added-mark :
    (bs : List Bool) (i j : ℕ) → is_added (mark bs i) j ≡ true → (i ≡ j) ⊎ (is_added bs j ≡ true)
unfolding mark is_added
is_added-mark [] i j h = inr h
is_added-mark (b ∷ bs) zero zero h = inl refl
is_added-mark (b ∷ bs) zero (suc j) h = inr h
is_added-mark (b ∷ bs) (suc i) zero h = inr h
is_added-mark (b ∷ bs) (suc i) (suc j) h = elim (is_added-mark bs i j h) [
  | inl e ↦ inl (ap suc e)
  | inr e ↦ inr e
]

pub trues-mark :
    (bs : List Bool) (i : ℕ)
    → is_added bs i ≡ false
    → i < length bs
    → trues (mark bs i) ≡ suc (trues bs)
unfolding mark is_added trues
trues-mark [] i h l = absurd (omega arith)
trues-mark (true ∷ bs) zero h l = cc
trues-mark (false ∷ bs) zero h l = refl
trues-mark (true ∷ bs) (suc i) h l = ap suc (trues-mark bs i h (omega arith))
trues-mark (false ∷ bs) (suc i) h l = trues-mark bs i h (omega arith)

pub trues-le : (bs : List Bool) → trues bs ≤ length bs
unfolding trues
trues-le [] = omega arith
trues-le (true ∷ bs) = omega (arith, trues-le bs)
trues-le (false ∷ bs) = omega (arith, trues-le bs)

-- If as many are marked as there are, all are.
pub trues-full :
    (bs : List Bool) (i : ℕ) → length bs ≤ trues bs → i < length bs → is_added bs i ≡ true
unfolding trues is_added
trues-full [] i h l = absurd (omega arith)
trues-full (false ∷ bs) i h l = absurd (omega (arith, trues-le bs))
trues-full (true ∷ bs) zero h l = refl
trues-full (true ∷ bs) (suc i) h l = trues-full bs i (omega arith) (omega arith)

module _ {A : Type 0} where
  -- Marking one more element adds it to the selection.
  pub select-mark :
      (xs : List A) (bs : List Bool) (i : ℕ) (x : A)
      → is_added bs i ≡ false
      → length bs ≡ length xs
      → get_elem? xs i ≡ some x
      → Perm (x ∷ select xs bs) (select xs (mark bs i))
  unfolding select mark is_added
  select-mark [] bs i x h l g = cc
  select-mark (y ∷ xs) [] i x h l g = absurd (omega arith)
  select-mark (y ∷ xs) (true ∷ bs) zero x h l g = cc
  select-mark (y ∷ xs) (false ∷ bs) zero x h l g = let e : y ≡ x = cc in rw e (Perm.refl _)
  select-mark (y ∷ xs) (true ∷ bs) (suc i) x h l g =
      Perm.trans (Perm.swap y x _) (Perm.cons y (select-mark xs bs i x h (omega arith) g))
  select-mark (y ∷ xs) (false ∷ bs) (suc i) x h l g = select-mark xs bs i x h (omega arith) g

  pub select-full :
      (xs : List A) (bs : List Bool)
      → length bs ≡ length xs
      → ((i : ℕ) → i < length bs → is_added bs i ≡ true)
      → select xs bs ≡ xs
  unfolding select is_added
  select-full [] bs l h = refl
  select-full (x ∷ xs) [] l h = absurd (omega arith)
  select-full (x ∷ xs) (true ∷ bs) l h =
      ap (λ t. x ∷ t) (select-full xs bs (omega arith) (λ i p. h (suc i) (omega arith)))
  select-full (x ∷ xs) (false ∷ bs) l h = cc (h 0 (omega arith))

  pub collect_some-append :
      {B : Type 0} (f : B → Option A) (xs : List B) (y : B) (a : A)
      → f y ≡ some a
      → collect_some f (xs ++ y ∷ []) ≡ collect_some f xs ++ a ∷ []
  collect_some-append f [] y a h = rw (h, collect_some) refl
  collect_some-append f (x ∷ xs) y a h = ground (arith, collect_some-append f xs y a h)

  pub perm-append_one : (x : A) (xs : List A) → Perm (xs ++ x ∷ []) (x ∷ xs)
  perm-append_one x xs =
      subst (λ t. Perm (xs ++ x ∷ []) (x ∷ t)) (append-nil xs) (perm_middle xs [])

  pub get_elem?-below : (xs : List A) (i : ℕ) → i < length xs → (x : A) × (get_elem? xs i ≡ some x)
  get_elem?-below [] i h = absurd (omega arith)
  get_elem?-below (x ∷ xs) zero h = (x, refl)
  get_elem?-below (x ∷ xs) (suc i) h = get_elem?-below xs i (omega arith)
