-- ===== src/Recipe/Rendering.antt =====
-- The rendering of crates/rattler_build_recipe/src/variant_render.rs: `render_with_variants`,
-- `render_with_empty_combinations`, `finalize_build_string_single`, the guard of
-- `render_multi_output_with_variants`, and `BuildString::resolve` of stage1/build.rs. The evaluation
-- of the recipe at a combination and the template engine are parameters. `Finished` has the proofs.
pub mod Finished
use rattler_build.Prelude.{
  ℕ, zero, suc, not, ◌&&◌, Bool, true, false, Option, none, some, is_some, List, [], ◌∷◌, ◌++◌, map,
  Text, Result, ok, err, ◌>>=◌, if◌then◌else◌, codes, any,
}
use rattler_build.Prelude.Strings.{decimal}
use rattler_build.Prelude.Maps.{lookup, insert, extend, retain, contains, text_keyed}
use rattler_build.Keys.{NormalizedKey, normalized_keyed}
use rattler_build.Pins.{Versions}
use rattler_build.Variants.Combination.{VariantExpandError, Assignment}
use rattler_build.Variants.Config.{VariantConfig, combinations}
use rattler_build.Recipe.Requirements.{Specs}
use rattler_build.Recipe.Hash.{HashInfo}
use rattler_build.Recipe.Rendered.{
  BuildString, default, unresolved, resolved, Recipe, PinSubpackageInfo, RenderedVariant,
}
use rattler_build.Recipe.Expand.{insert_texts, expand_variants_tree}
use rattler_build.Recipe.Topology.Graph.{TopologicalSortError, topological_sort_variants}
use rattler_build.Recipe.Pinning.{
  PinMap, PinningError, missing_output, unreachable, extract_pin_subpackages, add_pins_to_variant,
}

-- `ParseError` is the error of the template engine and of the evaluation. `out_of_fuel` is the end
-- of the sort's fuel, which the code does not have.
pub data RenderError (ParseError : Type 0) : Type 0 where
  parse : ParseError → RenderError ParseError
  topological_sort : TopologicalSortError → RenderError ParseError
  variant_expand : VariantExpandError → RenderError ParseError
  pinning : PinningError → RenderError ParseError
  experimental_required : RenderError ParseError
  out_of_fuel : RenderError ParseError

-- `map_err`, as `?` does it
abbrev pub or_error : {E F A : Type 0} → (E → F) → Result E A → Result F A
or_error f (ok a) = ok a
or_error f (err e) = err (f e)

-- What the rendering asks of the template engine, of the hash and of a value.
pub record Engine (lib : Versions) (specs : Specs lib) (V ParseError : Type 0) : Type 0 where
  pub var_eq : V → V → Bool
  pub of_text : Text → V
  pub to_text : V → Text
  pub debug : Assignment V → Text
  pub hash_of : Assignment V → Bool → HashInfo
  pub render_str : List (Text × V) → Text → ℕ → Text → Result ParseError Text
  pub toposort : ℕ → List (ℕ × ℕ) → Result ℕ (List ℕ)
  pub free_specs : Assignment V → Result ParseError (List Text)
  pub evaluate : Assignment V → Result ParseError (List (Recipe lib specs V))
  pub evaluate_empty : Result ParseError (List (Recipe lib specs V))

module _ {lib : Versions} {specs : Specs lib} {V E : Type 0} (engine : Engine lib specs V E) where
  open engine use {
    var_eq, of_text, to_text, debug, hash_of, render_str, toposort, free_specs, evaluate,
    evaluate_empty,
  }

  abbrev pub Fallible : Type 0 → Type 0
  Fallible = Result (RenderError E)

  abbrev pub Item : Type 0
  Item = RenderedVariant lib specs V

  -- `render_str` gets the variables, the `hash`, the `build_number` and the template.
  unfoldable pub resolve : BuildString → HashInfo → ℕ → List (Text × V) → Fallible BuildString
  resolve default info build_number variables =
      ok (
        resolved (info.prefix ++ (codes "h" ++ (info.hash ++ (codes "_" ++ decimal build_number)))))
  resolve (unresolved template) info build_number variables = do
    rendered ← or_error parse (render_str variables info.hash build_number template)
    ok (resolved rendered)
  resolve (resolved s) info build_number variables = ok (resolved s)

  -- The variables of the template: the variant's, then the context's.
  unfoldable pub template_variables : Item → List (Text × V)
  template_variables r = extend (extend [] (map (λ (k, v). (k.text, v)) r.variant)) r.recipe.context

  abbrev is_resolved : BuildString → Bool
  is_resolved default = false
  is_resolved (unresolved _) = false
  is_resolved (resolved _) = true

  abbrev or_zero : Option ℕ → ℕ
  or_zero none = 0
  or_zero (some n) = n

  -- `noarch.unwrap_or(NoArchType::none()).is_python()`
  abbrev is_python : Option Bool → Bool
  is_python none = false
  is_python (some b) = b

  unfoldable pub finalize_build_string_single : Item → Fallible Item
  unfolding resolve template_variables
  finalize_build_string_single r =
      let info = hash_of r.variant (is_python r.recipe.noarch) in
      if is_resolved r.recipe.build_string
      then ok r
      else resolve r.recipe.build_string info (or_zero r.recipe.build_number) (template_variables r)
        >>= λ s.
            ok (record r { recipe = record (r.recipe) { build_string = s }; hash_info = some info })

  unfoldable pub apply_pins : Item → PinMap lib specs V → List Item → Fallible Item
  apply_pins r [] all_rendered = ok (record r { pin_subpackages = [] })
  apply_pins r (p ∷ ps) all_rendered = do
    (variant, pins) ← or_error pinning (
        add_pins_to_variant lib specs V var_eq of_text r.recipe.name r.variant r.full_combination
          (p ∷ ps) all_rendered)
    ok (record r { variant = variant; pin_subpackages = pins })

  -- The pins of one variant, if it has any.
  unfoldable pub pin_variant : Item → List Item → Fallible Item
  unfolding apply_pins
  pin_variant r all_rendered =
      apply_pins r (extract_pin_subpackages lib specs V r.recipe) all_rendered

  -- The loop `for i in 0..results.len()`: `done` are the results before `i`.
  unfoldable pub resolve_outputs : List Item → List Item → Fallible (List Item)
  unfolding pin_variant finalize_build_string_single
  resolve_outputs done [] = ok done
  resolve_outputs done (r ∷ todo) = do
    pinned ← pin_variant r (done ++ r ∷ todo)
    final ← finalize_build_string_single pinned
    resolve_outputs (done ++ final ∷ []) todo

  -- The values of the combination for the `use_keys`.
  unfoldable pub insert_use_keys : List NormalizedKey → Assignment V → Assignment V → Assignment V
  insert_use_keys [] combination variant = variant
  insert_use_keys (k ∷ ks) combination variant = elim (lookup k combination) [
    | none ↦ insert_use_keys ks combination variant
    | some value ↦ insert_use_keys ks combination (insert k value variant)
  ]

  unfoldable pub without_ignored : List Text → Assignment V → Assignment V
  without_ignored ignore_keys variant =
      retain (λ k _. not (contains (insert_texts ignore_keys []) k)) variant

  -- The conversion of one output.
  unfoldable pub convert_output : Assignment V → Recipe lib specs V → Item
  unfolding insert_use_keys without_ignored
  convert_output combination recipe = record {
    variant =
        without_ignored recipe.ignore_keys
          (insert_use_keys (insert_texts recipe.use_keys []) combination recipe.used_variant);
    full_combination = combination;
    recipe = recipe;
    pin_subpackages = [];
    hash_info = none;
  }

  -- The conversion without a combination.
  unfoldable pub convert_empty : Recipe lib specs V → Item
  unfolding without_ignored
  convert_empty recipe =
      let kept = without_ignored recipe.ignore_keys recipe.used_variant in
      record {
        variant =
            if is_some recipe.noarch
            then insert (record { text = codes "target_platform" }) (of_text (codes "noarch")) kept
            else kept;
        full_combination = [];
        recipe = recipe;
        pin_subpackages = [];
        hash_info = none;
      }

  unfoldable pub render_combinations : List (Assignment V) → List Item → Fallible (List Item)
  unfolding convert_output
  render_combinations [] results = ok results
  render_combinations (c ∷ cs) results = do
    outputs ← or_error parse (evaluate c)
    render_combinations cs (results ++ map (convert_output c) outputs)

  unfoldable pub resolve_sorted : Option (List Item) → Fallible (List Item)
  unfolding resolve_outputs
  resolve_sorted none = err out_of_fuel
  resolve_sorted (some sorted) = resolve_outputs [] sorted

  -- The sort and the loop behind it, which both ways of rendering end with.
  unfoldable pub sort_and_resolve : List Item → Fallible (List Item)
  unfolding resolve_sorted
  sort_and_resolve results = do
    sorted ←
        or_error topological_sort (topological_sort_variants lib specs V var_eq toposort results)
    resolve_sorted sorted

  unfoldable pub render_with_empty_combinations : Fallible (List Item)
  unfolding sort_and_resolve convert_empty
  render_with_empty_combinations = do
    outputs ← or_error parse evaluate_empty
    sort_and_resolve (map convert_empty outputs)

  -- The rendering from the initial combinations on.
  unfoldable pub render_initial : VariantConfig V → List (Assignment V) → Fallible (List Item)
  unfolding render_with_empty_combinations render_combinations sort_and_resolve
  render_initial config [] = render_with_empty_combinations
  render_initial config (c ∷ cs) = do
    expanded ← or_error parse (expand_variants_tree to_text free_specs (c ∷ cs) config)
    results ← render_combinations expanded []
    sort_and_resolve results

  -- `used` are the variables that `collect_used_variables` finds.
  unfoldable pub render_with_variants : VariantConfig V → List NormalizedKey → Fallible (List Item)
  unfolding render_initial
  render_with_variants config used = do
    initial ← or_error variant_expand (combinations debug config used)
    render_initial config initial

  unfoldable pub render_multi_output_with_variants :
      Bool → Bool → VariantConfig V → List NormalizedKey → Fallible (List Item)
  unfolding render_with_variants
  render_multi_output_with_variants has_staging experimental config used =
      if has_staging && not experimental
      then err experimental_required
      else render_with_variants config used
