-- ===== src/Samples/Renders.antt =====
-- A recipe with two outputs is rendered for one python; one output pins the other one exactly.
use rattler_build.Prelude.{
  map, ℕ, ◌≡◌, refl, ◌⊎◌, none, some, List, [], ◌∷◌, ◌++◌, Text, ok, codes, true, All, text_eq,
  text_compare,
}
use rattler_build.Prelude.Maps.{contains, extend, insert, lookup, text_keyed, retain}
use rattler_build.Prelude.Sort.{sort_by}
use rattler_build.Prelude.Strings.{decimal, join}
use rattler_build.Keys.{NormalizedKey, normalize, normalized_keyed}
use rattler_build.Variants.Combination.{Assignment}
use rattler_build.Variants.Config.{VariantConfig, get, combinations}
use rattler_build.Recipe.Rendered.{default, resolved, Recipe, RenderedVariant, PinSubpackageInfo}
use rattler_build.Recipe.Requirements.{exact_pin_subpackages}
use rattler_build.Recipe.Topology.Match.{count_matching, best_match, index_names, push_index}
use rattler_build.Recipe.Topology.Graph.{
  topological_sort_variants, build_dependency_graph, all_edges, edges_of, edges_from,
  build_name_index, stable_topological_sort, matching_deps,
}
use rattler_build.Recipe.Topology.Loop.{stable_order}
use rattler_build.Recipe.Requirements.{extract_dependency_names, name}
use rattler_build.Recipe.Expand.{insert_texts, expand_variants_tree}
use rattler_build.Recipe.Pinning.{as_resolved, PinMap, extract_pin_subpackages, add_pins_to_variant}
use rattler_build.Recipe.Pinning.Chosen.{IsChosen, add_pins_to_variant-IsChosen}
use rattler_build.Recipe.Rendering.{
  Item, convert_output, Engine, render_with_variants, sort_and_resolve,
}
use rattler_build.Recipe.Rendering.Finished.{
  identity, sort_and_resolve-identity, IsFinished, render_with_variants-IsFinished,
}
use rattler_build.Samples.Requests.{numbered, v1_23, front, bumped}
use rattler_build.Samples.Matrix.{python, values_text}
use rattler_build.Samples.Outputs.{named, tool, lib310, lib39, eq_value, toposort, downward}

abbrev unfinished : RenderedVariant numbered named ℕ → Recipe numbered named ℕ
unfinished v = record (v.recipe) { build_string = default }

abbrev engine : Engine numbered named ℕ Text
engine = record {
  var_eq = eq_value;
  of_text = λ t. 0;
  to_text = λ n. n ∷ [];
  debug = values_text;
  hash_of = λ variant is_python. record { hash = codes "abc"; prefix = codes "py" };
  render_str = λ variables hash n template. ok (template ++ hash);
  toposort = toposort;
  free_specs = λ c. ok [];
  evaluate = λ c. ok (unfinished tool ∷ unfinished lib310 ∷ []);
  evaluate_empty = ok [];
}

abbrev config : VariantConfig ℕ
config = record { zip_keys = none; variants = (python, 310 ∷ []) ∷ [] }

abbrev pythons : List NormalizedKey
pythons = python ∷ []

abbrev pins : PinMap numbered named ℕ
pins =
    (
      record { text = codes "lib" },
      record {
        name = codes "lib";
        version = tool.recipe.version;
        build_string = none;
        exact = true;
      },
    )
    ∷ []

abbrev pinned : PinMap numbered named ℕ
pinned =
    (
      record { text = codes "lib" },
      record {
        name = codes "lib";
        version = tool.recipe.version;
        build_string = some (codes "py310");
        exact = true;
      },
    )
    ∷ []

added :
    add_pins_to_variant numbered named ℕ eq_value
      (λ t. 0)
      (codes "tool")
      []
      ((python, 310) ∷ [])
      pins
      (lib310 ∷ lib39 ∷ tool ∷ [])
    ≡ ok ((record { text = codes "lib" }, 0) ∷ [], pinned)
unfolding add_pins_to_variant text_eq count_matching lookup normalize best_match insert
added = refl

add_pins_to_variant-IsChosen_example :
    All
      (λ (p : NormalizedKey × PinSubpackageInfo numbered).
        (text_eq (codes "tool") p.1.name ≡ true)
        ⊎ IsChosen numbered named ℕ eq_value
            (λ t. 0)
            ((python, 310) ∷ [])
            (lib310 ∷ lib39 ∷ tool ∷ [])
            p.1)
      pinned
add_pins_to_variant-IsChosen_example =
    add_pins_to_variant-IsChosen numbered named ℕ eq_value (λ t. 0) (codes "tool") []
      ((python, 310) ∷ []) pins (lib310 ∷ lib39 ∷ tool ∷ [])
      ((record { text = codes "lib" }, 0) ∷ []) pinned added

abbrev finished :
    RenderedVariant numbered named ℕ
    → List (NormalizedKey × PinSubpackageInfo numbered)
    → Assignment ℕ
    → RenderedVariant numbered named ℕ
finished v pin_subpackages variant = record v {
  variant = variant;
  recipe = record (v.recipe) { build_string = resolved (codes "pyhabc_0") };
  pin_subpackages = pin_subpackages;
  hash_info = some (record { hash = codes "abc"; prefix = codes "py" });
}

-- The pinned output stands first; its build string is in the pin of the other one.
abbrev rendered : List (RenderedVariant numbered named ℕ)
rendered =
    finished lib310 [] ((python, 310) ∷ [])
    ∷ finished tool
        ((
          record { text = codes "lib" },
          record {
            name = codes "lib";
            version = v1_23;
            build_string = some (codes "pyhabc_0");
            exact = true;
          },
        )
          ∷ [])
        ((record { text = codes "lib" }, 0) ∷ (python, 310) ∷ [])
    ∷ []

rendered_computed : render_with_variants engine config pythons ≡ ok rendered
unfolding render_with_variants combinations expand_variants_tree sort_and_resolve lookup text_eq
    normalize contains insert extend text_compare sort_by retain decimal topological_sort_variants
    build_dependency_graph all_edges edges_of edges_from extract_dependency_names name
    build_name_index index_names push_index stable_topological_sort stable_order matching_deps
    count_matching best_match downward add_pins_to_variant extract_pin_subpackages as_resolved
    insert_texts exact_pin_subpackages get front bumped join
rendered_computed = refl

render_with_variants-IsFinished_example : All (IsFinished engine) rendered
render_with_variants-IsFinished_example =
    render_with_variants-IsFinished engine config pythons rendered rendered_computed

abbrev converted : List (Item engine)
converted =
    map (convert_output engine ((python, 310) ∷ [])) (unfinished tool ∷ unfinished lib310 ∷ [])

converted_resolved : sort_and_resolve engine converted ≡ ok rendered
unfolding convert_output expand_variants_tree sort_and_resolve lookup text_eq normalize contains
    insert extend text_compare sort_by retain decimal topological_sort_variants
    build_dependency_graph all_edges edges_of edges_from extract_dependency_names name
    build_name_index index_names push_index stable_topological_sort stable_order matching_deps
    count_matching best_match downward add_pins_to_variant extract_pin_subpackages as_resolved
    insert_texts exact_pin_subpackages get front bumped join
converted_resolved = refl

sort_and_resolve-identity_example :
    (sorted : List (Item engine)) × (topological_sort_variants numbered named ℕ eq_value toposort
        converted
      ≡ ok (some sorted))
    × (map (identity engine) rendered ≡ map (identity engine) sorted)
sort_and_resolve-identity_example =
    sort_and_resolve-identity engine converted rendered converted_resolved
