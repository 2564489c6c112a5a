-- ===== src/Variants/Choice.antt =====
-- What an entry of a combination comes from: a used key and one of its values.
use rattler_build.Prelude.{
  ℕ, zero, suc, ◌≡◌, refl, ◌∙◌, inl, inr, Option-cases, none, some, List, [], ◌∷◌, ◌++◌, map,
  get_elem?, Bool, true, false, not, Bool-cases, ok, Text, All, Any, OnSome, ◌==◌, if◌then◌else◌,
  length, All-append, All-weaken, any, keep, collect_some,
}
use rattler_build.Prelude.Maps.{
  lookup, contains, contains_self, lookup_key, contains_key_eq, key_eq, retain, extend, All-extend,
}
use rattler_build.Prelude.Sort.{All-sort_by}
use rattler_build.Keys.{NormalizedKey, normalize, normalized_keyed}
use rattler_build.Variants.Combination.{
  VariantKey, key, zip_key, len, at, zip_items, Assignment, Values, all_keys, zip_map, single_key,
  compute_combinations, add_values,
}
use rattler_build.Variants.Product.{choices, choices_from, extend_each, product}
use rattler_build.Variants.Count.{compute_combinations-eq-product}

module _ {V : Type 0} where
  -- `P` holds of all that a key offers.
  abbrev Offers : (NormalizedKey × V → Type 0) → VariantKey V → Type 0
  Offers P (key k values) = All (λ v. P (k, v)) values
  Offers P (zip_key m) = All (λ (e : Values V). All (λ v. P (e.0, v)) e.1) m

  module _ (P : NormalizedKey × V → Type 0) where
    get_elem?-All :
        (k : NormalizedKey) (values : List V) (i : ℕ)
        → All (λ v. P (k, v)) values
        → OnSome (λ v. P (k, v)) (get_elem? values i)
    get_elem?-All k [] i h = tt
    get_elem?-All k (w ∷ values) zero h = h.0
    get_elem?-All k (w ∷ values) (suc i) h = get_elem?-All k values i h.1

    zip_items-All :
        (m : List (Values V)) (i : ℕ)
        → All (λ (e : Values V). All (λ v. P (e.0, v)) e.1) m
        → All P (zip_items m i)
    unfolding zip_items
    zip_items-All [] i h = tt
    zip_items-All ((k, values) ∷ m) i h =
        let rest = zip_items-All m i h.1 in
        (elim (get_elem? values i)
            as (λ o.
              (OnSome (λ v. P (k, v)) o
                → All P (elim o [ none ↦ zip_items m i | some v ↦ (k, v) ∷ zip_items m i ]))) [
                  | none ↦ λ _. rest
                  | some v ↦ λ p. (p, rest)
                ])
          (get_elem?-All k values i h.0)

    at-All : (k : VariantKey V) (i : ℕ) → Offers P k → OnSome (All P) (at k i)
    unfolding at
    at-All (key k values) i h =
        (elim (get_elem? values i)
            as (λ o.
              (OnSome (λ v. P (k, v)) o
                → OnSome (All P) (elim o [ none ↦ none | some v ↦ some ((k, v) ∷ []) ]))) [
                  | none ↦ λ _. tt
                  | some v ↦ λ p. (p, tt)
                ])
          (get_elem?-All k values i h)
    at-All (zip_key m) i h =
        elim (length (zip_items m i) == length m)
          as (λ b. OnSome (All P) (if b then some (zip_items m i) else none)) [
            | true ↦ zip_items-All m i h
            | false ↦ tt
          ]

    choices_from-All :
        (k : VariantKey V) (left i : ℕ) → Offers P k → All (All P) (choices_from k left i)
    unfolding choices_from
    choices_from-All k zero i h = tt
    choices_from-All k (suc left) i h =
        let rest = choices_from-All k left (suc i) h in
        (elim (at k i)
            as (λ o.
              (OnSome (All P) o
                → All (All P) (elim o [
                  | none ↦ choices_from k left (suc i)
                  | some items ↦ items ∷ choices_from k left (suc i)
                ]))) [ none ↦ λ _. rest | some items ↦ λ p. (p, rest) ])
          (at-All k i h)

    map-prefix-All :
        (a : Assignment V) (tails : List (Assignment V))
        → All P a
        → All (All P) tails
        → All (All P) (map (λ t. a ++ t) tails)
    map-prefix-All a [] p h = tt
    map-prefix-All a (t ∷ tails) p h = (All-append P a t p h.0, map-prefix-All a tails p h.1)

    extend_each-All :
        (as' tails : List (Assignment V))
        → All (All P) as'
        → All (All P) tails
        → All (All P) (extend_each as' tails)
    unfolding extend_each
    extend_each-All [] tails p h = tt
    extend_each-All (a ∷ as') tails p h =
        All-append (All P) (map (λ t. a ++ t) tails) (extend_each as' tails)
          (map-prefix-All a tails p.0 h) (extend_each-All as' tails p.1 h)

    product-All : (ks : List (VariantKey V)) → All (Offers P) ks → All (All P) (product ks)
    unfolding product choices
    product-All [] h = (tt, tt)
    product-All (k ∷ ks) h =
        extend_each-All (choices k) (product ks) (choices_from-All k (len k) 0 h.0)
          (product-All ks h.1)

  -- `v` is one of the values that the configuration lists for `k`, and `k` is used.
  abbrev pub IsLegal : List (Values V) → List NormalizedKey → NormalizedKey × V → Type 0
  IsLegal variants used (k, v) =
      (contains used k ≡ true)
      × ((values : List V) × (lookup k variants ≡ some values) × Any (λ w. w ≡ v) values)

  IsLegal-respelled :
      (variants : List (Values V)) (used : List NormalizedKey) (k j : NormalizedKey) (v : V)
      → normalize j ≡ normalize k
      → IsLegal variants used (k, v)
      → IsLegal variants used (j, v)
  IsLegal-respelled variants used k j v e (u, (values, l, a)) =
      (contains_key_eq used j k e ∙ u, (values, lookup_key j k variants e ∙ l, a))

  Any-self : (values : List V) → All (λ v. Any (λ w. w ≡ v) values) values
  Any-self [] = tt
  Any-self (v ∷ values) = (
    inl refl,
    All-weaken (λ x. Any (λ w. w ≡ x) values) (λ x. Any (λ w. w ≡ x) (v ∷ values)) values
        (λ x h. inr h) (Any-self values),
  )

  looked_up-IsLegal :
      (variants : List (Values V)) (used : List NormalizedKey) (k : NormalizedKey) (values : List V)
      → contains used k ≡ true
      → lookup k variants ≡ some values
      → All (λ v. IsLegal variants used (k, v)) values
  looked_up-IsLegal variants used k values u l =
      All-weaken (λ v. Any (λ w. w ≡ v) values) (λ v. IsLegal variants used (k, v)) values
        (λ v a. (u, (values, l, a))) (Any-self values)

  All-retain :
      (P : Values V → Type 0) (keeps : NormalizedKey → List V → Bool) (m : List (Values V))
      → All P m
      → All P (retain keeps m)
  unfolding retain
  All-retain P keeps [] h = tt
  All-retain P keeps ((k, v) ∷ m) h =
      elim (keeps k v) as (λ b. All P (if b then (k, v) ∷ retain keeps m else retain keeps m)) [
        | true ↦ (h.0, All-retain P keeps m h.1)
        | false ↦ All-retain P keeps m h.1
      ]

  All-add_values :
      (P : Values V → Type 0) (k : NormalizedKey) (values : List V) (m : List (Values V))
      → P (k, values)
      → All P m
      → All P (add_values k values m)
  unfolding add_values
  All-add_values P k values m p h = (p, All-retain P (λ j w. not (key_eq k j)) m h)

  module _ (variants : List (Values V)) (used : List NormalizedKey) where
    zip_map-Offers :
        (zip : List NormalizedKey)
        → All
            (λ (e : Values V). All (λ v. IsLegal variants used (e.0, v)) e.1)
            (zip_map variants used zip)
    unfolding zip_map
    zip_map-Offers [] = tt
    zip_map-Offers (k ∷ zip) = elim (Bool-cases (contains used k)) [
      | inl u ↦ elim (Option-cases (lookup k variants)) [
        | inl e ↦ rw (u, e, zip_map) (zip_map-Offers zip)
        | inr (values, e) ↦
            rw (u, e, zip_map)
              (All-add_values _ k values (zip_map variants used zip)
                (looked_up-IsLegal variants used k values u e) (zip_map-Offers zip))
      ]
      | inr u ↦ rw (u, zip_map) (zip_map-Offers zip)
    ]

    map-zip_key-Offers :
        (zips : List (List NormalizedKey))
        → All
            (Offers (IsLegal variants used))
            (map (λ zip. zip_key (zip_map variants used zip)) zips)
    map-zip_key-Offers [] = tt
    map-zip_key-Offers (zip ∷ zips) = (zip_map-Offers zip, map-zip_key-Offers zips)

    single_key-Offers :
        (zips : List (List NormalizedKey)) (k : NormalizedKey)
        → contains used k ≡ true
        → OnSome (Offers (IsLegal variants used)) (single_key variants zips k)
    unfolding single_key
    single_key-Offers zips k u = elim (Option-cases (lookup k variants)) [
      | inl e ↦ rw (e, single_key) tt
      | inr (values, e) ↦ elim (Bool-cases (any (λ zip. contains zip k) zips)) [
        | inl z ↦ rw (e, z, single_key) tt
        | inr z ↦ rw (e, z, single_key) (looked_up-IsLegal variants used k values u e)
      ]
    ]

    single_keys-Offers :
        (zips : List (List NormalizedKey)) (ks : List NormalizedKey)
        → All (λ k. contains used k ≡ true) ks
        → All (Offers (IsLegal variants used)) (collect_some (single_key variants zips) ks)
    single_keys-Offers zips [] h = tt
    single_keys-Offers zips (k ∷ ks) h =
        let rest = single_keys-Offers zips ks h.1 in
        (elim (single_key variants zips k)
            as (λ o.
              (OnSome (Offers (IsLegal variants used)) o
                → All (Offers (IsLegal variants used)) (elim o [
                  | none ↦ collect_some (single_key variants zips) ks
                  | some y ↦ y ∷ collect_some (single_key variants zips) ks
                ]))) [ none ↦ λ _. rest | some y ↦ λ p. (p, rest) ])
          (single_key-Offers zips k h.0)

    all_keys-Offers :
        (zips : List (List NormalizedKey))
        → All (Offers (IsLegal variants used)) (all_keys variants zips used)
    unfolding all_keys
    all_keys-Offers zips =
        All-append (Offers (IsLegal variants used)) _ _ (map-zip_key-Offers (keep _ zips))
          (single_keys-Offers zips used (contains_self used))

    maps-IsLegal :
        (l : List (Assignment V))
        → All (All (IsLegal variants used)) l
        → All (All (IsLegal variants used)) (map (λ c. extend [] c) l)
    maps-IsLegal [] h = tt
    maps-IsLegal (c ∷ l) h = (
      All-extend (IsLegal variants used) [] c (λ k j v e. IsLegal-respelled variants used k j v e)
          tt h.0,
      maps-IsLegal l h.1,
    )

    -- If a matrix is computed, every entry of every combination in it has a used key and one of
    -- the values that the configuration has for this key.
    pub compute_combinations-IsLegal :
        (debug : Assignment V → Text) (zips : List (List NormalizedKey)) (r : List (Assignment V))
        → compute_combinations debug variants zips used ≡ ok r
        → All (All (IsLegal variants used)) r
    compute_combinations-IsLegal debug zips r h =
        rw (compute_combinations-eq-product debug variants zips used r h) (
          All-sort_by debug (All (IsLegal variants used)) _
            (maps-IsLegal _ (product-All (IsLegal variants used) _ (all_keys-Offers zips))))
