-- ===== src/Variants/Count.antt =====
-- How many combinations there are: each key contributes its number of values, and a zip group the
-- length of its shortest list, in whatever order its map is walked.
use rattler_build.Prelude.{
  ℕ, zero, suc, ◌+◌, ◌-◌, ◌*◌, ◌≤◌, ◌<◌, min, ◌≡◌, refl, ap, inl, inr, ◌⊎◌, none, some, List, [],
  ◌∷◌, ◌++◌, map, length, length-append, length-map, arith, get_elem?, ok, >>=-eq-ok, Text,
  lt_or_le,
}
use rattler_build.Prelude.Maps.{extend}
use rattler_build.Prelude.Sort.{sort_by, length-sort_by}
use rattler_build.Keys.{NormalizedKey, normalized_keyed}
use rattler_build.Variants.Combination.{
  VariantKey, key, zip_key, len, at, zip_items, Assignment, Values, all_keys, compute_combinations,
  validate_zip_keys,
}
use rattler_build.Variants.Product.{
  choices, choices_from, extend_each, product, find_combinations-eq-product,
}

module _ {V : Type 0} where
  abbrev pub shortest : ℕ → List (Values V) → ℕ
  shortest n [] = n
  shortest n ((_, values) ∷ m) = shortest (min n (length values)) m

  abbrev pub capacity : VariantKey V → ℕ
  capacity (key _ values) = length values
  capacity (zip_key []) = 0
  capacity (zip_key ((_, values) ∷ m)) = shortest (length values) m

  abbrev pub count_all : List (VariantKey V) → ℕ
  count_all [] = 1
  count_all (k ∷ ks) = capacity k * count_all ks

  get_elem?-some :
      (values : List V) (i : ℕ)
      → ((i < length values) × ((v : V) × (get_elem? values i ≡ some v)))
        ⊎ ((length values ≤ i) × (get_elem? values i ≡ none))
  get_elem?-some [] i = inr (omega arith, refl)
  get_elem?-some (v ∷ values) zero = inl (omega arith, (v, refl))
  get_elem?-some (v ∷ values) (suc i) = elim (get_elem?-some values i) [
    | inl (h, w) ↦ inl (omega arith, w)
    | inr (h, e) ↦ inr (omega arith, e)
  ]

  shortest-le : (n : ℕ) (m : List (Values V)) → shortest n m ≤ n
  shortest-le n [] = omega arith
  shortest-le n ((_, values) ∷ m) = omega (arith, shortest-le (min n (length values)) m)

  pub length-zip_items : (m : List (Values V)) (i : ℕ) → length (zip_items m i) ≤ length m
  unfolding zip_items
  length-zip_items [] i = omega arith
  length-zip_items ((k, values) ∷ m) i = ground (arith, length-zip_items m i)

  -- An index is a row of the group exactly when it is below every length.
  zip_items-full :
      (n i : ℕ) (m : List (Values V)) → i < shortest n m → length (zip_items m i) ≡ length m
  unfolding zip_items
  zip_items-full n i [] h = refl
  zip_items-full n i ((k, values) ∷ m) h = elim (get_elem?-some values i) [
    | inl (lt, (v, e)) ↦ ground (arith, e, zip_items-full (min n (length values)) i m h)
    | inr (le, e) ↦ absurd (omega (arith, shortest-le (min n (length values)) m))
  ]

  zip_items-short :
      (n i : ℕ) (m : List (Values V)) → i < n → shortest n m ≤ i → length (zip_items m i) < length m
  unfolding zip_items
  zip_items-short n i [] h g = absurd (omega arith)
  zip_items-short n i ((k, values) ∷ m) h g = elim (get_elem?-some values i) [
    | inl (lt, (v, e)) ↦
        ground (arith, e, zip_items-short (min n (length values)) i m (omega arith) g)
    | inr (le, e) ↦ ground (arith, e, length-zip_items m i)
  ]

  at_below : (k : VariantKey V) (i : ℕ) → i < capacity k → (a : Assignment V) × (at k i ≡ some a)
  unfolding at
  at_below (key k values) i h = elim (get_elem?-some values i) [
    | inl (lt, (v, e)) ↦ ((k, v) ∷ [], rw (e, at) refl)
    | inr (le, e) ↦ absurd (omega arith)
  ]
  at_below (zip_key []) i h = absurd (omega arith)
  at_below (zip_key ((k, values) ∷ m)) i h = (
    zip_items ((k, values) ∷ m) i,
    ground (
      arith,
      get_elem?-some values i,
      zip_items-full (length values) i m h,
      shortest-le (length values) m,
    ),
  )

  at_above : (k : VariantKey V) (i : ℕ) → i < len k → capacity k ≤ i → at k i ≡ none
  unfolding at len
  at_above (key k values) i g h = absurd (omega arith)
  at_above (zip_key []) i g h = absurd (omega arith)
  at_above (zip_key ((k, values) ∷ m)) i g h =
      ground (arith, get_elem?-some values i, zip_items-short (length values) i m g h)

  length-choices_from :
      (k : VariantKey V) (left i : ℕ)
      → left + i ≤ len k
      → length (choices_from k left i) ≡ min left (capacity k - i)
  unfolding choices_from
  length-choices_from k zero i h = omega arith
  length-choices_from k (suc left) i h = elim (lt_or_le i (capacity k)) [
    | inl lt ↦
        let (a, e) = at_below k i lt in
        rw (e, choices_from) (omega (arith, length-choices_from k left (suc i) (omega arith)))
    | inr le ↦
        rw (at_above k i (omega arith) le, choices_from)
          (omega (arith, length-choices_from k left (suc i) (omega arith)))
  ]

  capacity-le-len : (k : VariantKey V) → capacity k ≤ len k
  unfolding len
  capacity-le-len (key k values) = omega arith
  capacity-le-len (zip_key []) = omega arith
  capacity-le-len (zip_key ((k, values) ∷ m)) = shortest-le (length values) m

  -- A single key offers its values, a zip group as many rows as its shortest list has.
  pub length-choices : (k : VariantKey V) → length (choices k) ≡ capacity k
  unfolding choices
  length-choices k = omega (arith, length-choices_from k (len k) 0 (omega arith), capacity-le-len k)

  length-extend_each :
      (as' tails : List (Assignment V)) → length (extend_each as' tails) ≡ length as' * length tails
  unfolding extend_each
  length-extend_each [] tails = omega arith
  length-extend_each (a ∷ as') tails = omega (
    arith,
    length-append (map (λ t. a ++ t) tails) (extend_each as' tails),
    length-map (λ t. a ++ t) tails,
    length-extend_each as' tails,
  )

  pub length-product : (ks : List (VariantKey V)) → length (product ks) ≡ count_all ks
  unfolding product
  length-product [] = refl
  length-product (k ∷ ks) = rw (length-extend_each, length-choices, length-product ks) refl

  map-nil_prefix : (l : List (Assignment V)) → map (λ t. [] ++ t) l ≡ l
  map-nil_prefix [] = refl
  map-nil_prefix (a ∷ l) = ap (λ t. a ∷ t) (map-nil_prefix l)

  -- A computed matrix is the sorted list of the maps that the product's assignments make.
  pub compute_combinations-eq-product :
      (debug : Assignment V → Text) (variants : List (Values V)) (zips : List (List NormalizedKey))
      (used : List NormalizedKey) (r : List (Assignment V))
      → compute_combinations debug variants zips used ≡ ok r
      → r ≡ sort_by debug (map (λ c. extend [] c) (product (all_keys variants zips used)))
  unfolding compute_combinations
  compute_combinations-eq-product debug variants zips used r h =
      let (_, _, e) = >>=-eq-ok (validate_zip_keys variants zips) _ h in
      let ks = all_keys variants zips used in
      let found = find_combinations-eq-product ks [] [] in
      cc (e, found, map-nil_prefix (product ks))

  -- If a matrix is computed, it has as many combinations as the product over its keys and zip
  -- groups of the number of values of the key, or of the shortest list of the group.
  pub length-compute_combinations :
      (debug : Assignment V → Text) (variants : List (Values V)) (zips : List (List NormalizedKey))
      (used : List NormalizedKey) (r : List (Assignment V))
      → compute_combinations debug variants zips used ≡ ok r
      → length r ≡ count_all (all_keys variants zips used)
  length-compute_combinations debug variants zips used r h =
      rw (compute_combinations-eq-product debug variants zips used r h, length-sort_by, length-map)
        (length-product (all_keys variants zips used))
