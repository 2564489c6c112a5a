-- ===== src/Variants/Evaluated.antt =====
-- What the evaluation of a configuration gives for each key.
use rattler_build.Prelude.{
  ◌≡◌, refl, sym, ap, ◌∙◌, subst, Option, none, some, List, [], ◌∷◌, ok, >>=-eq-ok, ok-injective,
  All, true, false, Bool-cases, inl, inr, is_empty, if◌then◌else◌, text_eq_iff,
}
use rattler_build.Prelude.Maps.{lookup, insert, lookup-insert, lookup_key, All-insert, key_eq}
use rattler_build.Keys.{NormalizedKey, normalized_keyed, normalize}
use rattler_build.Conditionals.{Items}
use rattler_build.Variants.Config.{VariantConfig, get}
use rattler_build.Variants.Evaluate.{
  Jinja, Stage0VariantConfig, evaluate_conditional_list, evaluate_variants, evaluate_variant_config,
}

-- A map has each key once.
abbrev pub IsDistinct : {V : Type 0} → List (NormalizedKey × V) → Type 0
IsDistinct [] = Unit
IsDistinct ((k, v) ∷ m) = (lookup k m ≡ none) × IsDistinct m

module _ {T : Type 0} (jinja : Jinja T) where
  -- A key that the first map has not, has `before` as its values; another has the values that
  -- its list evaluates to, if these are any.
  abbrev pub Gives : Option (Items T) → Option (List T) → Option (List T) → Type 0
  Gives none before values = values ≡ before
  Gives (some list) before values =
      (key : NormalizedKey) × (vs : List T) × (evaluate_conditional_list jinja key list ≡ ok vs)
      × (values ≡ (if is_empty vs then before else some vs))

  abbrev added :
      NormalizedKey → List T → List (NormalizedKey × List T) → List (NormalizedKey × List T)
  added key vs m = if is_empty vs then m else insert key vs m

  lookup-added_same :
      (k j : NormalizedKey) (vs : List T) (m : List (NormalizedKey × List T))
      → key_eq j k ≡ true
      → lookup k (added j vs m) ≡ (if is_empty vs then lookup k m else some vs)
  lookup-added_same k j vs m e = elim (Bool-cases (is_empty vs)) [
    | inl n ↦ rw n refl
    | inr n ↦ rw n (lookup-insert j k vs m ∙ rw e refl)
  ]

  lookup-added_other :
      (k j : NormalizedKey) (vs : List T) (m : List (NormalizedKey × List T))
      → key_eq j k ≡ false
      → lookup k (added j vs m) ≡ lookup k m
  lookup-added_other k j vs m e = elim (Bool-cases (is_empty vs)) [
    | inl n ↦ rw n refl
    | inr n ↦ rw n (lookup-insert j k vs m ∙ rw e refl)
  ]

  evaluate_variants-Gives :
      (k : NormalizedKey) (entries : List (NormalizedKey × Items T))
      (m r : List (NormalizedKey × List T))
      → IsDistinct entries
      → evaluate_variants jinja entries m ≡ ok r
      → Gives (lookup k entries) (lookup k m) (lookup k r)
  unfolding evaluate_variants lookup
  evaluate_variants-Gives k [] m r d h = sym (ap (lookup k) (ok-injective h))
  evaluate_variants-Gives k ((j, list) ∷ entries) m r d h =
      let (vs, p, h') = >>=-eq-ok (evaluate_conditional_list jinja j list) _ h in
      let q = evaluate_variants-Gives k entries (added j vs m) r d.1 h' in
      elim (Bool-cases (key_eq j k)) [
        | inl e ↦
            let n : lookup k entries ≡ none =
              sym (lookup_key j k entries ((text_eq_iff (normalize j) (normalize k)).0 e)) ∙ d.0 in
            let g : lookup k r ≡ lookup k (added j vs m) =
              subst (λ o. Gives o (lookup k (added j vs m)) (lookup k r)) n q in
            rw e (j, vs, p, g ∙ lookup-added_same k j vs m e)
        | inr e ↦
            rw e (
              subst (λ b. Gives (lookup k entries) b (lookup k r)) (lookup-added_other k j vs m e)
                q)
      ]

  IsUseful : NormalizedKey × List T → Type 0
  IsUseful entry = is_empty entry.1 ≡ false

  evaluate_variants-All :
      (entries : List (NormalizedKey × Items T)) (m r : List (NormalizedKey × List T))
      → All IsUseful m
      → evaluate_variants jinja entries m ≡ ok r
      → All IsUseful r
  unfolding evaluate_variants IsUseful
  evaluate_variants-All [] m r a h = subst (All IsUseful) (ok-injective h) a
  evaluate_variants-All ((j, list) ∷ entries) m r a h =
      let (vs, p, h') = >>=-eq-ok (evaluate_conditional_list jinja j list) _ h in
      elim (Bool-cases (is_empty vs)) [
        | inl n ↦ evaluate_variants-All entries m r a (rw n at h')
        | inr n ↦
            evaluate_variants-All entries (insert j vs m) r
              (All-insert IsUseful j vs m (λ i e. n) a) (rw n at h')
      ]

  -- If a configuration that has each key once is evaluated, the result has its zip groups, no key
  -- without values, and under a key the values that its list evaluates to, or nothing if there is
  -- no list or it has no values.
  pub evaluate_variant_config_lem :
      (stage0 : Stage0VariantConfig T) (config : VariantConfig T) (k : NormalizedKey)
      → IsDistinct stage0.variants
      → evaluate_variant_config jinja stage0 ≡ ok config
      → (config.zip_keys ≡ stage0.zip_keys)
        × All (λ entry. is_empty entry.1 ≡ false) config.variants
        × Gives (lookup k stage0.variants) none (get config k)
  unfolding evaluate_variant_config get IsUseful lookup
  evaluate_variant_config_lem stage0 config k d h =
      let (r, p, h') = >>=-eq-ok (evaluate_variants jinja stage0.variants []) _ h in
      let e = ok-injective h' in
      (
        sym (ap (λ c. c.zip_keys) e),
        subst (λ c. All (λ entry. is_empty entry.1 ≡ false) c.variants) e
            (evaluate_variants-All stage0.variants [] r tt p),
        subst (λ c. Gives (lookup k stage0.variants) none (get c k)) e
            (evaluate_variants-Gives k stage0.variants [] r d p),
      )
