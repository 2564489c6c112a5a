-- ===== src/Recipe/Expand.antt =====
-- The discovery of further variant keys, of crates/rattler_build_recipe/src/variant_render.rs:
-- `collect_used_variables`, `discover_new_variant_keys_from_evaluation`,
-- `expand_combination_with_keys` and `expand_variants_tree`. What the skip conditions and
-- the requirements evaluate to is an argument. `Extension` and `Distinct` have the
-- proofs.
pub mod Extension
pub mod Distinct
use rattler_build.Prelude.{
  ℕ, zero, suc, ◌&&◌, ◌||◌, not, Bool, true, false, Option, none, some, is_some, List, [], ◌∷◌,
  ◌++◌, map, Text, Result, ok, err, ◌>>=◌, if◌then◌else◌, keep, collect_some, any, codes, text_eq,
}
use rattler_build.Prelude.Maps.{lookup, insert, contains, contains_key}
use rattler_build.Keys.{NormalizedKey, normalize, normalized_keyed}
use rattler_build.Variants.Combination.{Assignment, Values}
use rattler_build.Variants.Config.{VariantConfig, get}

-- `HashSet::insert`, on the keys in the order of their insertion.
unfoldable pub insert_key : NormalizedKey → List NormalizedKey → List NormalizedKey
insert_key k ks = if contains ks k then ks else ks ++ k ∷ []

unfoldable pub insert_texts : List Text → List NormalizedKey → List NormalizedKey
unfolding insert_key
insert_texts [] ks = ks
insert_texts (t ∷ ts) ks = insert_texts ts (insert_key (record { text = t }) ks)

-- `ALWAYS_INCLUDED_VARS` of stage0/evaluate.rs
abbrev pub always_included_vars : List Text
always_included_vars =
    codes "target_platform" ∷ codes "channel_targets" ∷ codes "channel_sources" ∷ []

abbrev pub max_iterations : ℕ
max_iterations = 10

-- An output of a recipe at a combination: whether it is staging, what its skip conditions and
-- its requirements evaluate to.
pub record OutputSpecs (E : Type 0) : Type 0 where
  pub is_staging : Bool
  pub skip : Result E Bool
  pub evaluated : Result E (List Text)

-- A recipe at a combination. The first field of a recipe with several outputs tells whether its
-- context could be merged, the second is its own skip condition.
pub data StageSpecs (E : Type 0) : Type 0 where
  single_output : Result E (List Text) → StageSpecs E
  multi_output : Result E (Unit {0}) → Result E Bool → List (OutputSpecs E) → StageSpecs E

module _ {E : Type 0} where
  abbrev unwrap_or_default : Result E Bool → Bool
  unwrap_or_default (ok b) = b
  unwrap_or_default (err e) = false

  -- The loop over the outputs; an output that fails to evaluate is left out.
  unfoldable pub output_free_specs : Bool → List (OutputSpecs E) → List Text
  output_free_specs toplevel_skipped [] = []
  output_free_specs toplevel_skipped (o ∷ outputs) =
      let rest = output_free_specs toplevel_skipped outputs in
      if toplevel_skipped || (not o.is_staging && unwrap_or_default o.skip)
      then rest
      else elim o.evaluated [ ok specs ↦ specs ++ rest | err e ↦ rest ]

  unfoldable pub stage_free_specs : StageSpecs E → Result E (List Text)
  unfolding output_free_specs
  stage_free_specs (single_output specs) = specs
  stage_free_specs (multi_output context skip outputs) =
      context >>= λ _. ok (output_free_specs (unwrap_or_default skip) outputs)

module _ {V : Type 0} where
  -- The recipe gives its template variables, free specs and `use_keys`.
  unfoldable pub collect_used_variables :
      List Text → List Text → List Text → VariantConfig V → List Text → List NormalizedKey
  unfolding insert_texts
  collect_used_variables template_vars free_specs use_keys config os_env_var_keys =
      keep (λ k. is_some (get config k))
        (insert_texts use_keys (
          insert_texts os_env_var_keys (
            insert_texts always_included_vars
              (insert_texts free_specs (insert_texts template_vars [])))))

  -- The last loop of the discovery.
  unfoldable pub new_keys :
      VariantConfig V → Assignment V → List Text → List NormalizedKey → List NormalizedKey
  unfolding insert_key
  new_keys config combination [] ks = ks
  new_keys config combination (spec ∷ specs) ks =
      let k : NormalizedKey = record { text = spec } in
      new_keys config combination specs
        (if is_some (get config k) && not (contains_key combination k) then insert_key k ks else ks)

  module _ {E : Type 0} (free_specs : Assignment V → Result E (List Text)) where
    unfoldable pub discover : VariantConfig V → Assignment V → Result E (List NormalizedKey)
    unfolding new_keys
    discover config combination = do
      specs ← free_specs combination
      ok (new_keys config combination specs [])

  unfoldable pub key_values : VariantConfig V → NormalizedKey → Option (Values V)
  key_values config k = elim (get config k) [ none ↦ none | some values ↦ some (k, values) ]

  -- The two inner loops: each combination with each value.
  unfoldable pub with_values : NormalizedKey → List V → Assignment V → List (Assignment V)
  with_values k [] combo = []
  with_values k (v ∷ values) combo = insert k v combo ∷ with_values k values combo

  unfoldable pub with_each : NormalizedKey → List V → List (Assignment V) → List (Assignment V)
  unfolding with_values
  with_each k values [] = []
  with_each k values (combo ∷ combos) = with_values k values combo ++ with_each k values combos

  unfoldable pub cross : List (Values V) → List (Assignment V) → List (Assignment V)
  unfolding with_each
  cross [] results = results
  cross ((k, values) ∷ kvs) results = cross kvs (with_each k values results)

  unfoldable pub expand_combination_with_keys :
      Assignment V → List NormalizedKey → VariantConfig V → List (Assignment V)
  unfolding cross key_values
  expand_combination_with_keys base [] config = base ∷ []
  expand_combination_with_keys base (k ∷ ks) config =
      elim (collect_some (key_values config) (k ∷ ks)) [
        | [] ↦ base ∷ []
        | kv ∷ kvs ↦ cross (kv ∷ kvs) (base ∷ [])
      ]

  module _ {E : Type 0} (free_specs : Assignment V → Result E (List Text)) where
    -- `final_combinations` and `next_round`
    abbrev pub Rounds : Type 0
    Rounds = List (Assignment V) × List (Assignment V)

    abbrev pub place : VariantConfig V → Assignment V → List NormalizedKey → Rounds → Rounds
    place config c [] (final, next) = (final ++ c ∷ [], next)
    place config c (k ∷ ks) (final, next) =
        (final, next ++ expand_combination_with_keys c (k ∷ ks) config)

    -- `for combination in to_process`
    unfoldable pub process : VariantConfig V → List (Assignment V) → Rounds → Result E Rounds
    unfolding discover expand_combination_with_keys
    process config [] r = ok r
    process config (c ∷ to_process) r = do
      keys ← discover free_specs config c
      process config to_process (place config c keys r)

    -- The `while` loop, with the iterations that are left.
    unfoldable pub iterate :
        ℕ → VariantConfig V → List (Assignment V) → List (Assignment V) → Result E Rounds
    unfolding process
    iterate n config [] final = ok (final, [])
    iterate zero config (c ∷ cs) final = ok (final, c ∷ cs)
    iterate (suc n) config (c ∷ cs) final =
        process config (c ∷ cs) (final, []) >>= λ (final', next). iterate n config next final'

  module _ (to_text : V → Text) where
    -- What the deduplication compares: the keys, and the texts of the values.
    unfoldable pub same_entries : Assignment V → Assignment V → Bool
    same_entries [] [] = true
    same_entries [] (_ ∷ _) = false
    same_entries (_ ∷ _) [] = false
    same_entries ((j, v) ∷ a) ((k, w) ∷ b) =
        text_eq (normalize j) (normalize k) && text_eq (to_text v) (to_text w) && same_entries a b

    -- `retain` with the set of what was seen
    unfoldable pub deduplicate : List (Assignment V) → List (Assignment V) → List (Assignment V)
    unfolding same_entries
    deduplicate seen [] = []
    deduplicate seen (c ∷ cs) =
        let is_seen = any (same_entries c) seen in
        let rest = deduplicate (if is_seen then seen else c ∷ seen) cs in
        if is_seen then rest else c ∷ rest

    unfoldable pub expand_variants_tree :
        {E : Type 0}
        → (Assignment V → Result E (List Text))
        → List (Assignment V)
        → VariantConfig V
        → Result E (List (Assignment V))
    unfolding iterate deduplicate
    expand_variants_tree free_specs initial config = do
      (final, left) ← iterate free_specs max_iterations config initial []
      ok (deduplicate [] (final ++ left))
