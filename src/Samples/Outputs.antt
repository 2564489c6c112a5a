-- ===== src/Samples/Outputs.antt =====
-- Three rendered outputs: `tool` needs the exact `lib` of its own variant, which is built in two.
use rattler_build.Prelude.{
  ℕ, zero, suc, ◌<◌, subst, ◌≡◌, refl, Option, none, some, List, [], ◌∷◌, Text, Result, ok, err,
  codes, All, ltb, ◌==◌, Bool, true, if◌then◌else◌, all, inl, inr, Bool-cases, arith, text_eq,
  text_compare,
}
use rattler_build.Prelude.Maps.{contains, insert, lookup, text_keyed}
use rattler_build.Keys.{normalize, normalized_keyed}
use rattler_build.Pins.{Pin, default_args}
use rattler_build.Variants.Combination.{Assignment}
use rattler_build.Recipe.Requirements.{
  Specs, Dependency, spec, pin_subpackage, Requirements, RunExports, exact_pin_subpackages,
  extract_dependency_names, name,
}
use rattler_build.Recipe.PinNames.{exact_pin_subpackages-contained}
use rattler_build.Recipe.Rendered.{resolved, RenderedVariant}
use rattler_build.Recipe.Topology.Graph.{
  topological_sort_variants, build_dependency_graph, all_edges, edges_of, edges_from,
  build_name_index, stable_topological_sort, matching_deps,
}
use rattler_build.Recipe.Topology.Match.{index_names, push_index, count_matching, best_match}
use rattler_build.Recipe.Topology.Loop.{stable_order}
use rattler_build.Recipe.Topology.Order.{
  position, IsToposort, IsSorted, topological_sort_variants-IsSorted,
}
use rattler_build.Samples.Requests.{numbered, v1_23}
use rattler_build.Samples.Matrix.{python}

abbrev pub named : Specs numbered
named = record { exact_name = λ s. some s; is_free = λ s. true }

abbrev no_exports : RunExports numbered named
no_exports = record {
  noarch = [];
  strong = [];
  strong_constraints = [];
  weak = [];
  weak_constraints = [];
}

abbrev lib_pin : Pin numbered
lib_pin = record { name = codes "lib"; args = record (default_args numbered) { exact = true } }

abbrev pub needs : List (Dependency numbered named) → Requirements numbered named
needs run = record {
  build = spec (codes "cmake") ∷ [];
  host = [];
  run = run;
  run_constraints = [];
  run_exports = no_exports;
  ignore_run_exports = record { by_name = []; from_package = [] };
}

abbrev pub output :
    Text → List (Dependency numbered named) → Assignment ℕ → Text → RenderedVariant numbered named ℕ
output name run combination build = record {
  variant = combination;
  full_combination = combination;
  recipe = record {
    name = name;
    version = v1_23;
    requirements = needs run;
    build_string = resolved build;
    build_number = some 0;
    noarch = none;
    use_keys = [];
    ignore_keys = [];
    used_variant = combination;
    context = [];
  };
  pin_subpackages = [];
  hash_info = none;
}

abbrev pub tool : RenderedVariant numbered named ℕ
tool = output (codes "tool") (pin_subpackage lib_pin ∷ []) ((python, 310) ∷ []) (codes "t")

abbrev pub lib39 : RenderedVariant numbered named ℕ
lib39 = output (codes "lib") [] ((python, 39) ∷ []) (codes "py39")

abbrev pub lib310 : RenderedVariant numbered named ℕ
lib310 = output (codes "lib") [] ((python, 310) ∷ []) (codes "py310")

exact_pin_subpackages-contained_example :
    All
      (λ (pin : Pin numbered).
        contains (extract_dependency_names numbered named tool.recipe.requirements) pin.name ≡ true)
      (exact_pin_subpackages numbered named tool.recipe.requirements)
exact_pin_subpackages-contained_example =
    exact_pin_subpackages-contained numbered named tool.recipe.requirements

-- Tries the nodes from the last to the first.
abbrev pub respects : List ℕ → List (ℕ × ℕ) → Bool
respects order edges = all (λ e. ltb (position e.0 order) (position e.1 order)) edges

unfoldable pub downward : ℕ → List ℕ
downward zero = []
downward (suc n) = n ∷ downward n

abbrev pub toposort : ℕ → List (ℕ × ℕ) → Result ℕ (List ℕ)
toposort n edges = if respects (downward n) edges then ok (downward n) else err 0

respects-All :
    (order : List ℕ) (edges : List (ℕ × ℕ))
    → respects order edges ≡ true
    → All (λ (e : ℕ × ℕ). position e.0 order < position e.1 order) edges
respects-All order [] h = tt
respects-All order (e ∷ edges) h = (ground arith, respects-All order edges (ground arith))

pub toposort-IsToposort : IsToposort toposort
toposort-IsToposort k edges order h = elim (Bool-cases (respects (downward k) edges)) [
  | inl r ↦
      let p : downward k ≡ order = (let q = rw r at h in cc) in
      subst (λ o. All (λ (e : ℕ × ℕ). position e.0 o < position e.1 o) edges) p
        (respects-All (downward k) edges r)
  | inr r ↦ absurd (let q = rw r at h in cc)
]

abbrev pub eq_value : ℕ → ℕ → Bool
eq_value a b = a == b

abbrev sorted : Option (List (RenderedVariant numbered named ℕ))
sorted = some (lib39 ∷ lib310 ∷ tool ∷ [])

-- `tool` waits for the `lib` with its own python, which comes after it.
tool_last :
    topological_sort_variants numbered named ℕ eq_value toposort (tool ∷ lib39 ∷ lib310 ∷ [])
    ≡ ok sorted
unfolding topological_sort_variants build_dependency_graph all_edges edges_of edges_from
    extract_dependency_names text_eq lookup build_name_index index_names push_index insert
    text_compare downward stable_topological_sort stable_order matching_deps count_matching
    normalize best_match name
tool_last = refl

topological_sort_variants-IsSorted_example :
    IsSorted numbered named ℕ eq_value toposort toposort-IsToposort
      (tool ∷ lib39 ∷ lib310 ∷ [])
      sorted
topological_sort_variants-IsSorted_example =
    topological_sort_variants-IsSorted numbered named ℕ eq_value toposort toposort-IsToposort
      (tool ∷ lib39 ∷ lib310 ∷ []) sorted tool_last
