-- ===== src/Variants/Bound.antt =====
-- Every used key that has values is bound in every combination.
use rattler_build.Prelude.{
  ℕ, zero, suc, ◌≡◌, refl, ◌∙◌, inl, inr, ◌⊎◌, Option-cases, none, some, List, [], ◌∷◌, ◌++◌, map,
  arith, get_elem?, Bool, true, false, Bool-cases, not, ok, Text, All, OnSome, ◌==◌, length,
  All-append, any, any-append, collect_some, text_eq_iff,
}
use rattler_build.Prelude.Maps.{
  key_eq, lookup, contains, contains_key, lookup_key, contains_key_eq, retain, extend,
  contains_key-append, contains_key-extend,
}
use rattler_build.Prelude.Sort.{All-sort_by}
use rattler_build.Keys.{NormalizedKey, normalize, normalized_keyed}
use rattler_build.Variants.Combination.{
  VariantKey, key, zip_key, len, at, zip_items, Assignment, Values, all_keys, zip_map, add_values,
  used_zip_keys, single_key, compute_combinations,
}
use rattler_build.Variants.Product.{choices, choices_from, extend_each, product}
use rattler_build.Variants.Count.{compute_combinations-eq-product, length-zip_items}

module _ {V : Type 0} (k : NormalizedKey) where
  -- The key `k` is among those that a choice of `vk` binds.
  offers_key : VariantKey V → Bool
  offers_key (key j _) = key_eq j k
  offers_key (zip_key m) = contains_key m k

  abbrev Binds : Assignment V → Type 0
  Binds a = contains_key a k ≡ true

  zip_items-binds :
      (m : List (Values V)) (i : ℕ)
      → length (zip_items m i) ≡ length m
      → contains_key (zip_items m i) k ≡ contains_key m k
  unfolding zip_items lookup
  zip_items-binds [] i h = refl
  zip_items-binds ((j, values) ∷ m) i h = ground (arith, length-zip_items m i, zip_items-binds m i)

  at-Binds : (vk : VariantKey V) (i : ℕ) → offers_key vk ≡ true → OnSome Binds (at vk i)
  unfolding at offers_key lookup
  at-Binds (key j values) i h =
      elim (get_elem? values i)
        as (λ o. OnSome Binds (elim o [ none ↦ none | some v ↦ some ((j, v) ∷ []) ])) [
          | none ↦ tt
          | some v ↦ ground arith
        ]
  at-Binds (zip_key m) i h = elim (Bool-cases (length (zip_items m i) == length m)) [
    | inl e ↦ rw (e, at) (zip_items-binds m i (ground arith) ∙ h)
    | inr e ↦ rw (e, at) tt
  ]

  choices_from-Binds :
      (vk : VariantKey V) (left i : ℕ) → offers_key vk ≡ true → All Binds (choices_from vk left i)
  unfolding choices_from
  choices_from-Binds vk zero i h = tt
  choices_from-Binds vk (suc left) i h =
      let rest = choices_from-Binds vk left (suc i) h in
      (elim (at vk i)
          as (λ o.
            (OnSome Binds o
              → All Binds (elim o [
                | none ↦ choices_from vk left (suc i)
                | some items ↦ items ∷ choices_from vk left (suc i)
              ]))) [ none ↦ λ _. rest | some items ↦ λ p. (p, rest) ])
        (at-Binds vk i h)

  prefix-Binds :
      (a : Assignment V) (tails : List (Assignment V))
      → Binds a
      → All Binds (map (λ t. a ++ t) tails)
  prefix-Binds a [] h = tt
  prefix-Binds a (t ∷ tails) h = (rw (contains_key-append, h) refl, prefix-Binds a tails h)

  suffix-Binds :
      (a : Assignment V) (tails : List (Assignment V))
      → All Binds tails
      → All Binds (map (λ t. a ++ t) tails)
  suffix-Binds a [] h = tt
  suffix-Binds a (t ∷ tails) h =
      (ground (arith, contains_key-append k a t), suffix-Binds a tails h.1)

  extend_each-Binds :
      (as' tails : List (Assignment V))
      → All Binds as' ⊎ All Binds tails
      → All Binds (extend_each as' tails)
  unfolding extend_each
  extend_each-Binds [] tails h = tt
  extend_each-Binds (a ∷ as') tails (inl h) =
      All-append Binds _ _ (prefix-Binds a tails h.0) (extend_each-Binds as' tails (inl h.1))
  extend_each-Binds (a ∷ as') tails (inr h) =
      All-append Binds _ _ (suffix-Binds a tails h) (extend_each-Binds as' tails (inr h))

  product-Binds : (ks : List (VariantKey V)) → any offers_key ks ≡ true → All Binds (product ks)
  unfolding product choices
  product-Binds [] h = cc
  product-Binds (vk ∷ ks) h = elim (Bool-cases (offers_key vk)) [
    | inl e ↦ extend_each-Binds _ _ (inl (choices_from-Binds vk (len vk) 0 e))
    | inr e ↦ extend_each-Binds _ _ (inr (product-Binds ks (ground arith)))
  ]

  maps-Binds : (l : List (Assignment V)) → All Binds l → All Binds (map (λ c. extend [] c) l)
  maps-Binds [] h = tt
  maps-Binds (c ∷ l) h = (contains_key-extend k c ∙ h.0, maps-Binds l h.1)

  module _ (variants : List (Values V)) (used : List NormalizedKey) where
    add_values-binds :
        (j : NormalizedKey) (values : List V) (m : List (Values V))
        → key_eq j k ≡ true
        → contains_key (add_values j values m) k ≡ true
    unfolding add_values lookup
    add_values-binds j values m e = rw (e, add_values) refl

    contains_key-retain :
        (j : NormalizedKey) (m : List (Values V))
        → key_eq j k ≡ false
        → contains_key m k ≡ true
        → contains_key (retain (λ i w. not (key_eq j i)) m) k ≡ true
    unfolding retain lookup
    contains_key-retain j [] n h = h
    contains_key-retain j ((i, w) ∷ m) n h = elim (Bool-cases (key_eq i k)) [
      | inl e ↦
          let p : normalize i ≡ normalize k = (text_eq_iff (normalize i) (normalize k)).0 e in
          rw (retain, p, n, e) refl
      | inr e ↦
          let rest = contains_key-retain j m n (ground arith) in
          elim (Bool-cases (key_eq j i)) [
            | inl d ↦ rw (retain, d) rest
            | inr d ↦ rw (retain, d, e) rest
          ]
    ]

    add_values-keeps :
        (j : NormalizedKey) (values : List V) (m : List (Values V))
        → key_eq j k ≡ false
        → contains_key m k ≡ true
        → contains_key (add_values j values m) k ≡ true
    unfolding add_values lookup
    add_values-keeps j values m n h = rw (n, add_values, contains_key-retain j m n h) refl

    zip_map-offers :
        (values : List V) (zip : List NormalizedKey)
        → contains used k ≡ true
        → lookup k variants ≡ some values
        → contains zip k ≡ true
        → contains_key (zip_map variants used zip) k ≡ true
    unfolding zip_map contains lookup
    zip_map-offers values [] u l h = cc
    zip_map-offers values (j ∷ zip) u l h = elim (Bool-cases (key_eq j k)) [
      | inl e ↦
          let p : normalize j ≡ normalize k = (text_eq_iff (normalize j) (normalize k)).0 e in
          rw (contains_key_eq used j k p, u, lookup_key j k variants p, l)
            (add_values-binds j values (zip_map variants used zip) e)
      | inr e ↦
          let rest = zip_map-offers values zip u l (ground arith) in
          elim (Bool-cases (contains used j)) [
            | inl c ↦ elim (Option-cases (lookup j variants)) [
              | inl n ↦ rw (c, n, zip_map) rest
              | inr (w, n) ↦
                  rw (c, n, zip_map) (add_values-keeps j w (zip_map variants used zip) e rest)
            ]
            | inr c ↦ rw (c, zip_map) rest
          ]
    ]

    any-used :
        (zip : List NormalizedKey)
        → contains used k ≡ true
        → contains zip k ≡ true
        → any (contains used) zip ≡ true
    unfolding contains
    any-used [] u h = cc
    any-used (j ∷ zip) u h = elim (Bool-cases (key_eq j k)) [
      | inl e ↦
          let p : normalize j ≡ normalize k = (text_eq_iff (normalize j) (normalize k)).0 e in
          rw (contains_key_eq used j k p, u) refl
      | inr e ↦ ground (arith, any-used zip u (ground arith))
    ]

    used_zips-offer :
        (values : List V) (zips : List (List NormalizedKey))
        → contains used k ≡ true
        → lookup k variants ≡ some values
        → any (λ zip. contains zip k) zips ≡ true
        → any offers_key (used_zip_keys variants zips used) ≡ true
    unfolding used_zip_keys offers_key
    used_zips-offer values [] u l h = cc
    used_zips-offer values (zip ∷ zips) u l h = elim (Bool-cases (contains zip k)) [
      | inl c ↦ rw (any-used zip u c) (rw (zip_map-offers values zip u l c) refl)
      | inr c ↦ let rest = used_zips-offer values zips u l (ground arith) in ground (arith, rest)
    ]

    any_zip-respelled :
        (j : NormalizedKey) (zips : List (List NormalizedKey))
        → normalize j ≡ normalize k
        → any (λ zip. contains zip j) zips ≡ any (λ zip. contains zip k) zips
    any_zip-respelled j [] p = refl
    any_zip-respelled j (zip ∷ zips) p =
        rw (contains_key_eq zip j k p, any_zip-respelled j zips p) refl

    single_key-some :
        (values : List V) (zips : List (List NormalizedKey)) (j : NormalizedKey)
        → lookup j variants ≡ some values
        → any (λ zip. contains zip j) zips ≡ false
        → single_key variants zips j ≡ some (key j values)
    unfolding single_key
    single_key-some values zips j l z = rw (l, single_key, z) refl

    singles-offer :
        (values : List V) (zips : List (List NormalizedKey)) (ks : List NormalizedKey)
        → lookup k variants ≡ some values
        → any (λ zip. contains zip k) zips ≡ false
        → contains ks k ≡ true
        → any offers_key (collect_some (single_key variants zips) ks) ≡ true
    unfolding offers_key contains
    singles-offer values zips [] l z h = cc
    singles-offer values zips (j ∷ ks) l z h = elim (Bool-cases (key_eq j k)) [
      | inl e ↦
          let p : normalize j ≡ normalize k = (text_eq_iff (normalize j) (normalize k)).0 e in
          let s =
            single_key-some values zips j (lookup_key j k variants p ∙ l)
              (any_zip-respelled j zips p ∙ z) in
          rw (s, collect_some, e) refl
      | inr e ↦ let rest = singles-offer values zips ks l z (ground arith) in ground (arith, rest)
    ]

    all_keys-offer :
        (values : List V) (zips : List (List NormalizedKey))
        → contains used k ≡ true
        → lookup k variants ≡ some values
        → any offers_key (all_keys variants zips used) ≡ true
    unfolding all_keys
    all_keys-offer values zips u l =
        rw any-append (elim (Bool-cases (any (λ zip. contains zip k) zips)) [
          | inl z ↦ rw (used_zips-offer values zips u l z) refl
          | inr z ↦ ground (arith, singles-offer values zips used l z u)
        ])

    -- If a matrix is computed, every combination in it has a value for each used key that has
    -- values in the configuration.
    pub compute_combinations-binds :
        (debug : Assignment V → Text) (zips : List (List NormalizedKey)) (r : List (Assignment V))
        (values : List V)
        → compute_combinations debug variants zips used ≡ ok r
        → contains used k ≡ true
        → lookup k variants ≡ some values
        → All (λ c. contains_key c k ≡ true) r
    compute_combinations-binds debug zips r values h u l =
        rw (compute_combinations-eq-product debug variants zips used r h) (
          All-sort_by debug Binds _
            (maps-Binds _ (product-Binds _ (all_keys-offer values zips u l))))
