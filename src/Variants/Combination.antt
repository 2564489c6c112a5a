-- ===== src/Variants/Combination.antt =====
-- crates/rattler_build_variant_config/src/combination.rs, and the errors of error.rs that it
-- raises. `Variable` wraps a value of the template engine and is a type parameter. A `HashMap` or
-- `HashSet` is a list in the order in which it happens to be walked.
use rattler_build.Prelude.{
  ℕ, zero, suc, ◌==◌, ltb, not, Option, none, some, List, [], ◌∷◌, ◌++◌, map, Text, Result, ok, err,
  ◌>>◌, if◌then◌else◌, length, get_elem?, any, keep, collect_some,
}
use rattler_build.Prelude.Maps.{key_eq, lookup, contains, contains_key, retain, extend}
use rattler_build.Prelude.Sort.{sort_by}
use rattler_build.Keys.{NormalizedKey, normalize, normalized_keyed}

pub data VariantExpandError : Type 0 where
  invalid_zip_key_length : Text → VariantExpandError
  invalid_zip_key_structure : VariantExpandError
  missing_variant_key : Text → VariantExpandError
  missing_output : Text → VariantExpandError
  cycle_in_recipe_outputs : Text → VariantExpandError

-- A key of the configuration with its values.
abbrev pub Values : Type 0 → Type 0
Values V = NormalizedKey × List V

abbrev pub Assignment : Type 0 → Type 0
Assignment V = List (NormalizedKey × V)

-- The two buffers of the search, `current` and `result`.
abbrev pub Buffers : Type 0 → Type 0
Buffers V = Assignment V × List (Assignment V)

pub data VariantKey (V : Type 0) : Type 0 where
  key : NormalizedKey → List V → VariantKey V
  zip_key : List (NormalizedKey × List V) → VariantKey V

module _ {V : Type 0} where
  unfoldable pub len : VariantKey V → ℕ
  len (key _ values) = length values
  len (zip_key []) = 0
  len (zip_key ((_, values) ∷ _)) = length values

  -- The pairs that the loop over a zip group pushes.
  unfoldable pub zip_items : List (NormalizedKey × List V) → ℕ → Assignment V
  zip_items [] i = []
  zip_items ((k, values) ∷ m) i =
      let rest = zip_items m i in
      elim (get_elem? values i) [ none ↦ rest | some value ↦ (k, value) ∷ rest ]

  unfoldable pub at : VariantKey V → ℕ → Option (Assignment V)
  unfolding zip_items
  at (key k values) i = elim (get_elem? values i) [ none ↦ none | some v ↦ some ((k, v) ∷ []) ]
  at (zip_key m) i =
      let result = zip_items m i in if length result == length m then some result else none

module _ {A : Type 0} where
  -- `Vec::pop`
  unfoldable pub pop : List A → List A
  pop [] = []
  pop (x ∷ []) = []
  pop (x ∷ y ∷ xs) = x ∷ pop (y ∷ xs)

  unfoldable pub pop_times : ℕ → List A → List A
  pop_times zero xs = xs
  pop_times (suc n) xs = pop (pop_times n xs)

module _ {V : Type 0} where
  -- `for i in 0..len`: `left` rounds remain, from `i` on. `next` is the call for the next index.
  unfoldable pub try_values : (Buffers V → Buffers V) → VariantKey V → ℕ → ℕ → Buffers V → Buffers V
  try_values next k zero i b = b
  try_values next k (suc left) i (current, result) = elim (at k i) [
    | none ↦ try_values next k left (suc i) (current, result)
    | some items ↦
        let (current', result') = next (current ++ items, result) in
        try_values next k left (suc i) (pop_times (length items) current', result')
  ]

  -- The list is `variant_keys[index..]`.
  unfoldable pub find_combinations : List (VariantKey V) → Buffers V → Buffers V
  unfolding try_values at len pop_times pop
  find_combinations [] (current, result) = (current, result ++ current ∷ [])
  find_combinations (k ∷ ks) b = try_values (find_combinations ks) k (len k) 0 b

  -- The `for key in zip` loop of the validation, with `prev_len`.
  unfoldable pub check_lengths :
      List (Values V) → List NormalizedKey → Option ℕ → Result VariantExpandError (Unit {0})
  check_lengths variants [] prev = ok tt
  check_lengths variants (k ∷ zip) prev = elim (lookup k variants) [
    | none ↦ check_lengths variants zip prev
    | some values ↦
        let rest = check_lengths variants zip (some (length values)) in
        elim prev [
          | none ↦ rest
          | some l ↦ if l == length values then rest else err (invalid_zip_key_length (normalize k))
        ]
  ]

  unfoldable pub validate_zip_keys :
      List (Values V) → List (List NormalizedKey) → Result VariantExpandError (Unit {0})
  unfolding check_lengths
  validate_zip_keys variants [] = ok tt
  validate_zip_keys variants (zip ∷ zips) =
      let rest = validate_zip_keys variants zips in
      if ltb (length zip) 2
      then err invalid_zip_key_structure
      else if any (λ k. not (contains_key variants k)) zip
      then rest
      else (check_lengths variants zip none >> rest)

  -- The entry of a key before those of the rest of its group: as for `HashMap::insert`, a key that is
  -- there keeps its spelling, and a later one that is equal is dropped.
  unfoldable pub add_values : NormalizedKey → List V → List (Values V) → List (Values V)
  unfolding retain
  add_values k values m = (k, values) ∷ retain (λ j w. not (key_eq k j)) m

  -- The map of one zip group: its used keys that have values.
  unfoldable pub zip_map :
      List (Values V) → List NormalizedKey → List NormalizedKey → List (Values V)
  unfolding add_values
  zip_map variants used [] = []
  zip_map variants used (k ∷ zip) =
      let rest = zip_map variants used zip in
      if contains used k
      then elim (lookup k variants) [ none ↦ rest | some values ↦ add_values k values rest ]
      else rest

  unfoldable pub used_zip_keys :
      List (Values V) → List (List NormalizedKey) → List NormalizedKey → List (VariantKey V)
  unfolding zip_map
  used_zip_keys variants zip_keys used =
      map (λ zip. zip_key (zip_map variants used zip))
        (keep (λ zip. any (contains used) zip) zip_keys)

  unfoldable pub single_key :
      List (Values V) → List (List NormalizedKey) → NormalizedKey → Option (VariantKey V)
  single_key variants zip_keys k = elim (lookup k variants) [
    | none ↦ none
    | some values ↦ if any (λ zip. contains zip k) zip_keys then none else some (key k values)
  ]

  unfoldable pub all_keys :
      List (Values V) → List (List NormalizedKey) → List NormalizedKey → List (VariantKey V)
  unfolding used_zip_keys single_key
  all_keys variants zip_keys used =
      used_zip_keys variants zip_keys used ++ collect_some (single_key variants zip_keys) used

  -- `debug` is the `Debug` text of a combination, by which the result is sorted.
  unfoldable pub compute_combinations :
      (Assignment V → Text)
      → List (Values V)
      → List (List NormalizedKey)
      → List NormalizedKey
      → Result VariantExpandError (List (Assignment V))
  unfolding validate_zip_keys find_combinations all_keys
  compute_combinations debug variants zip_keys used =
      validate_zip_keys variants zip_keys
      >> (let (_, combinations) = find_combinations (all_keys variants zip_keys used) ([], []) in
          ok (sort_by debug (map (λ c. extend [] c) combinations)))
