-- ===== src/Variants/Zip.antt =====
-- What the validation of the zip groups accepts, and what the merge of configurations holds.
use rattler_build.Prelude.{
  ℕ, ◌≤◌, ◌≡◌, refl, sym, ap, ◌∙◌, inl, inr, ◌⊎◌, ◌↔◌, Option, Option-cases, none, some, List, [],
  ◌∷◌, arith, Bool, true, false, not, Bool-cases, Result-cases, ok, All, length, any,
}
use rattler_build.Prelude.Maps.{lookup, contains_key, last_value, lookup-extend}
use rattler_build.Keys.{NormalizedKey, normalized_keyed}
use rattler_build.Variants.Combination.{Values, check_lengths, validate_zip_keys}
use rattler_build.Variants.Config.{VariantConfig, merge, merge_files, get}

abbrev pub value_count : {V : Type 0} → Option (List V) → Option ℕ
value_count none = none
value_count (some values) = some (length values)

module _ {V : Type 0} (variants : List (Values V)) where
  -- Every listed key has `n` values.
  abbrev pub SameLength : ℕ → List NormalizedKey → Type 0
  SameLength n zip = All (λ k. value_count (lookup k variants) ≡ some n) zip

  abbrev pub has_missing : List NormalizedKey → Bool
  has_missing zip = any (λ k. not (contains_key variants k)) zip

  -- A group needs two keys at least; where all of them have values, the lists have one length.
  abbrev pub IsValidZip : List NormalizedKey → Type 0
  IsValidZip zip = (2 ≤ length zip) × ((has_missing zip ≡ true) ⊎ ((n : ℕ) × SameLength n zip))

  check_lengths→SameLength :
      (zip : List NormalizedKey) (n : ℕ)
      → has_missing zip ≡ false
      → check_lengths variants zip (some n) ≡ ok tt
      → SameLength n zip
  unfolding check_lengths
  check_lengths→SameLength [] n h e = tt
  check_lengths→SameLength (k ∷ zip) n h e =
      (ground arith, check_lengths→SameLength zip n (ground arith) (ground arith))

  SameLength→check_lengths :
      (zip : List NormalizedKey) (n : ℕ)
      → SameLength n zip
      → check_lengths variants zip (some n) ≡ ok tt
  unfolding check_lengths
  SameLength→check_lengths [] n s = refl
  SameLength→check_lengths (k ∷ zip) n s = ground (arith, SameLength→check_lengths zip n s.1)

  check_lengths→same :
      (zip : List NormalizedKey)
      → has_missing zip ≡ false
      → check_lengths variants zip none ≡ ok tt
      → (n : ℕ) × SameLength n zip
  unfolding check_lengths
  check_lengths→same [] h e = (0, tt)
  check_lengths→same (k ∷ zip) h e = elim (Option-cases (lookup k variants)) [
    | inl l ↦ absurd (ground arith)
    | inr (values, l) ↦ (
      length values,
      (rw l refl, check_lengths→SameLength zip (length values) (ground arith) (ground arith)),
    )
  ]

  same→check_lengths :
      (zip : List NormalizedKey) (n : ℕ)
      → SameLength n zip
      → check_lengths variants zip none ≡ ok tt
  unfolding check_lengths
  same→check_lengths [] n s = refl
  same→check_lengths (k ∷ zip) n s = ground (arith, SameLength→check_lengths zip n s.1)

  validate→IsValidZip :
      (zips : List (List NormalizedKey))
      → validate_zip_keys variants zips ≡ ok tt
      → All IsValidZip zips
  unfolding validate_zip_keys
  validate→IsValidZip [] h = tt
  validate→IsValidZip (zip ∷ zips) h = elim (Bool-cases (has_missing zip)) [
    | inl m ↦ ((ground arith, inl m), validate→IsValidZip zips (ground arith))
    | inr m ↦ elim (Result-cases (check_lengths variants zip none)) [
      | inl (_, c) ↦ (
        (ground arith, inr (check_lengths→same zip m c)),
        validate→IsValidZip zips (ground arith),
      )
      | inr (x, c) ↦ absurd (ground arith)
    ]
  ]

  IsValidZip→validate :
      (zips : List (List NormalizedKey))
      → All IsValidZip zips
      → validate_zip_keys variants zips ≡ ok tt
  unfolding validate_zip_keys
  IsValidZip→validate [] h = refl
  IsValidZip→validate (zip ∷ zips) (h, hs) = elim (Bool-cases (has_missing zip)) [
    | inl m ↦ ground (arith, IsValidZip→validate zips hs)
    | inr m ↦ elim h.1 [
      | inl c ↦ absurd (ground arith)
      | inr (n, s) ↦ ground (arith, IsValidZip→validate zips hs, same→check_lengths zip n s)
    ]
  ]

  -- The validation accepts the zip groups exactly if each has two keys or more, and has a key
  -- without values or lists of one length for all its keys.
  pub validate_zip_keys_iff :
      (zips : List (List NormalizedKey))
      → (validate_zip_keys variants zips ≡ ok tt) ↔ All IsValidZip zips
  validate_zip_keys_iff zips = (validate→IsValidZip zips, IsValidZip→validate zips)

module _ {V : Type 0} (config other : VariantConfig V) where
  merge_lem :
      (k : NormalizedKey)
      → (get (merge config other) k
          ≡ elim (last_value k other.variants) [ none ↦ get config k | some v ↦ some v ])
        × ((merge config other).zip_keys
            ≡ elim other.zip_keys [ none ↦ config.zip_keys | some z ↦ some z ])
  unfolding merge get
  merge_lem k = (lookup-extend k config.variants other.variants, refl)

module _ {A : Type 0} where
  abbrev pub or_former : Option A → Option A → Option A
  or_former none former = former
  or_former (some x) former = some x

  or_former_assoc : (x y z : Option A) → or_former x (or_former y z) ≡ or_former (or_former x y) z
  or_former_assoc none y z = refl
  or_former_assoc (some x) y z = refl

  elim-or_former :
      (o former : Option A) → (elim o [ none ↦ former | some x ↦ some x ]) ≡ or_former o former
  elim-or_former none former = refl
  elim-or_former (some x) former = refl

module _ {V : Type 0} where
  -- The last of the configurations that gives something.
  abbrev pub last_given :
      {A : Type 0} → (VariantConfig V → Option A) → List (VariantConfig V) → Option A
  last_given f [] = none
  last_given f (c ∷ cs) = elim (last_given f cs) [ none ↦ f c | some x ↦ some x ]

  last_given-cons :
      {A : Type 0} (f : VariantConfig V → Option A) (c : VariantConfig V)
      (cs : List (VariantConfig V))
      → last_given f (c ∷ cs) ≡ or_former (last_given f cs) (f c)
  last_given-cons f c cs =
      elim (last_given f cs) as (λ o. elim o [ none ↦ f c | some x ↦ some x ] ≡ or_former o (f c)) [
        | none ↦ refl
        | some x ↦ refl
      ]

  merge-or_former :
      (config c : VariantConfig V) (k : NormalizedKey)
      → (get (merge config c) k ≡ or_former (last_value k c.variants) (get config k))
        × ((merge config c).zip_keys ≡ or_former c.zip_keys config.zip_keys)
  merge-or_former config c k =
      let (p, q) = merge_lem config c k in
      (
        p ∙ elim-or_former (last_value k c.variants) (get config k),
        q ∙ elim-or_former c.zip_keys config.zip_keys,
      )

  -- After the configurations of files are merged in turn, a key has the values of the last file
  -- that gives it some, or its former ones if none does, and the zip groups are those of the last
  -- file that gives any, or the former ones.
  pub merge_files_lem :
      (config : VariantConfig V) (configs : List (VariantConfig V)) (k : NormalizedKey)
      → (get (merge_files config configs) k
          ≡ or_former (last_given (λ c. last_value k c.variants) configs) (get config k))
        × ((merge_files config configs).zip_keys
            ≡ or_former (last_given (λ c. c.zip_keys) configs) config.zip_keys)
  unfolding merge_files
  merge_files_lem config [] k = (refl, refl)
  merge_files_lem config (c ∷ cs) k =
      let (p, q) = merge_files_lem (merge config c) cs k in
      let (g, z) = merge-or_former config c k in
      (
        p
            ∙ (ap (or_former (last_given (λ d. last_value k d.variants) cs)) g
                ∙ (or_former_assoc (last_given (λ d. last_value k d.variants) cs)
                      (last_value k c.variants) (get config k)
                    ∙ ap (λ o. or_former o (get config k))
                        (sym (last_given-cons (λ d. last_value k d.variants) c cs)))),
        q
            ∙ (ap (or_former (last_given (λ d. d.zip_keys) cs)) z
                ∙ (or_former_assoc (last_given (λ d. d.zip_keys) cs) c.zip_keys config.zip_keys
                    ∙ ap (λ o. or_former o config.zip_keys)
                        (sym (last_given-cons (λ d. d.zip_keys) c cs)))),
      )
