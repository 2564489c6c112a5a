-- ===== src/Variants/Product.antt =====
-- The backtracking search against the cartesian product of the choices.
use rattler_build.Prelude.{
  ℕ, zero, suc, ◌≡◌, refl, ap, ap₂, inl, inr, Option-cases, none, some, List, [], ◌∷◌, ◌++◌, map,
  append-nil, append_assoc, map-append, length,
}
use rattler_build.Variants.Combination.{
  VariantKey, len, at, pop, pop_times, Assignment, Buffers, try_values, find_combinations,
}

module _ {A : Type 0} where
  pop-append : (xs : List A) (y : A) → pop (xs ++ y ∷ []) ≡ xs
  unfolding pop
  pop-append [] y = refl
  pop-append (x ∷ []) y = refl
  pop-append (x ∷ z ∷ xs) y = ap (λ t. x ∷ t) (pop-append (z ∷ xs) y)

  -- Popping as often as was pushed restores the buffer.
  pop_times-append : (xs ys : List A) → pop_times (length ys) (xs ++ ys) ≡ xs
  unfolding pop_times
  pop_times-append xs [] = append-nil xs
  pop_times-append xs (y ∷ ys) =
      rw (← append_assoc xs (y ∷ []) ys, pop_times-append (xs ++ y ∷ []) ys) (pop-append xs y)

module _ {V : Type 0} where
  -- The assignments that one key offers, from index `i` on, `left` of them at most.
  unfoldable pub choices_from : VariantKey V → ℕ → ℕ → List (Assignment V)
  choices_from k zero i = []
  choices_from k (suc left) i = elim (at k i) [
    | none ↦ choices_from k left (suc i)
    | some items ↦ items ∷ choices_from k left (suc i)
  ]

  unfoldable pub choices : VariantKey V → List (Assignment V)
  unfolding choices_from
  choices k = choices_from k (len k) 0

  unfoldable pub extend_each : List (Assignment V) → List (Assignment V) → List (Assignment V)
  extend_each [] tails = []
  extend_each (a ∷ as') tails = map (λ t. a ++ t) tails ++ extend_each as' tails

  -- Every way to take one choice of each key, the first key varying slowest.
  unfoldable pub product : List (VariantKey V) → List (Assignment V)
  unfolding extend_each
  product [] = [] ∷ []
  product (k ∷ ks) = extend_each (choices k) (product ks)

  map-append_prefix :
      (c items : Assignment V) (tails : List (Assignment V))
      → map (λ t. (c ++ items) ++ t) tails ≡ map (λ t. c ++ t) (map (λ t. items ++ t) tails)
  map-append_prefix c items [] = refl
  map-append_prefix c items (t ∷ tails) =
      ap₂ ◌∷◌ (append_assoc c items t) (map-append_prefix c items tails)

  -- What the loop over one key makes of the buffers, if the call for the next key only appends.
  try_values-eq :
      (next : Buffers V → Buffers V) (tails : List (Assignment V))
      → ((c : Assignment V) (r : List (Assignment V))
          → next (c, r) ≡ (c, r ++ map (λ t. c ++ t) tails))
      → (k : VariantKey V) (left i : ℕ) (c : Assignment V) (r : List (Assignment V))
      → try_values next k left i (c, r)
        ≡ (c, r ++ map (λ t. c ++ t) (extend_each (choices_from k left i) tails))
  unfolding try_values choices_from extend_each
  try_values-eq next tails h k zero i c r = rw append-nil
  try_values-eq next tails h k (suc left) i c r = elim (Option-cases (at k i)) [
    | inl e ↦ rw (e, try_values, choices_from) (try_values-eq next tails h k left (suc i) c r)
    | inr (items, e) ↦
        rw
          (
            e,
            try_values,
            choices_from,
            h,
            pop_times-append c items,
            try_values-eq next tails h k left (suc i),
          )
          (ap (λ (l : List (Assignment V)). (c, l))
            (rw (map-append, map-append_prefix c items tails, append_assoc) refl))
  ]

  -- Whatever stands in the buffers, the search leaves `current` as it was and appends to `result`
  -- the product of the choices of the keys, each behind `current`.
  pub find_combinations-eq-product :
      (ks : List (VariantKey V)) (c : Assignment V) (r : List (Assignment V))
      → find_combinations ks (c, r) ≡ (c, r ++ map (λ t. c ++ t) (product ks))
  unfolding find_combinations product choices
  find_combinations-eq-product [] c r = rw append-nil
  find_combinations-eq-product (k ∷ ks) c r =
      try_values-eq (find_combinations ks) (product ks) (find_combinations-eq-product ks) k (len k)
        0 c r
