-- ===== src/Recipe/Topology/Match.antt =====
-- The name index, and the choice of the variant that satisfies a dependency.
use rattler_build.Prelude.{
  ℕ, suc, ◌≤◌, leb, Bool, true, false, Option, none, some, List, [], ◌∷◌, ◌++◌, Text, if◌then◌else◌,
  arith, All, OnSome, inl, inr, Bool-cases,
}
use rattler_build.Prelude.Maps.{lookup, insert, text_keyed}
use rattler_build.Keys.{NormalizedKey, normalized_keyed}

module _ {A : Type 0} (key : A → ℕ) where
  -- `max_by_key` returns the last of the greatest elements.
  unfoldable pub better : A → A → A
  better x y = if leb (key x) (key y) then y else x

  unfoldable pub max_from : A → List A → A
  unfolding better
  max_from best [] = best
  max_from best (x ∷ xs) = max_from (better best x) xs

  unfoldable pub max_by_key : List A → Option A
  unfolding max_from
  max_by_key [] = none
  max_by_key (x ∷ xs) = some (max_from x xs)

  -- The code takes the only candidate without a count.
  unfoldable pub best_match : List A → Option A
  unfolding max_by_key
  best_match [] = none
  best_match (x ∷ []) = some x
  best_match (x ∷ y ∷ xs) = max_by_key (x ∷ y ∷ xs)

  better-le : (x y : A) → (key x ≤ key (better x y)) × (key y ≤ key (better x y))
  unfolding better
  better-le x y = elim (Bool-cases (leb (key x) (key y))) [
    | inl h ↦ rw (h, better) (ground arith, omega arith)
    | inr h ↦ rw (h, better) (omega arith, ground arith)
  ]

  max_from-max :
      (best : A) (xs : List A)
      → (key best ≤ key (max_from best xs)) × All (λ x. key x ≤ key (max_from best xs)) xs
  unfolding max_from
  max_from-max best [] = (omega arith, tt)
  max_from-max best (x ∷ xs) =
      let ih = max_from-max (better best x) xs in
      let b = better-le best x in (omega arith, (omega arith, ih.1))

  -- The choice is among the candidates and has the greatest count.
  pub best_match-max :
      (xs : List A) → OnSome (λ best. All (λ x. key x ≤ key best) xs) (best_match xs)
  unfolding best_match max_by_key
  best_match-max [] = tt
  best_match-max (x ∷ []) = (omega arith, tt)
  best_match-max (x ∷ y ∷ xs) = let (h, hs) = max_from-max x (y ∷ xs) in (h, hs)

  better-P : (P : A → Type 0) (x y : A) → P x → P y → P (better x y)
  unfolding better
  better-P P x y p q = elim (leb (key x) (key y)) as (λ b. P (if b then y else x)) [
    | true ↦ q
    | false ↦ p
  ]

  max_from-P : (P : A → Type 0) (best : A) (xs : List A) → P best → All P xs → P (max_from best xs)
  unfolding max_from
  max_from-P P best [] p h = p
  max_from-P P best (x ∷ xs) p h = max_from-P P (better best x) xs (better-P P best x p h.0) h.1

  pub best_match-All : (P : A → Type 0) (xs : List A) → All P xs → OnSome P (best_match xs)
  unfolding best_match max_by_key
  best_match-All P [] h = tt
  best_match-All P (x ∷ []) h = h.0
  best_match-All P (x ∷ y ∷ xs) h = max_from-P P x (y ∷ xs) h.0 h.1

-- The map from a name to the indices of its variants.
abbrev pub NameIndex : Type 0
NameIndex = List (Text × List ℕ)

-- `entry(name).or_default().push(idx)`
unfoldable pub push_index : Text → ℕ → NameIndex → NameIndex
push_index n idx m = elim (lookup n m) [
  | none ↦ insert n (idx ∷ []) m
  | some indices ↦ insert n (indices ++ idx ∷ []) m
]

-- The loop of `build_name_index`, from `idx` on.
unfoldable pub index_names : List Text → ℕ → NameIndex → NameIndex
unfolding push_index
index_names [] idx m = m
index_names (n ∷ names) idx m = index_names names (suc idx) (push_index n idx m)

module _ {V : Type 0} (var_eq : V → V → Bool) where
  -- How many keys of `combination` have the same value in `other`.
  unfoldable pub count_matching : List (NormalizedKey × V) → List (NormalizedKey × V) → ℕ
  count_matching [] other = 0
  count_matching ((k, v) ∷ combination) other =
      let rest = count_matching combination other in
      elim (lookup k other) [ none ↦ rest | some w ↦ (if var_eq w v then suc rest else rest) ]
