-- ===== src/Recipe/Topology/Graph.antt =====
-- The dependency graph and the whole sort.
use rattler_build.Prelude.{
  ℕ, suc, Bool, Option, none, some, List, [], ◌∷◌, ◌++◌, map, Text, Result, ok, err, ◌>>=◌,
  if◌then◌else◌, length, get_elem?, collect_some, text_eq,
}
use rattler_build.Prelude.Maps.{lookup, text_keyed}
use rattler_build.Keys.{NormalizedKey}
use rattler_build.Pins.{Versions}
use rattler_build.Recipe.Requirements.{Specs, extract_dependency_names}
use rattler_build.Recipe.Rendered.{RenderedVariant}
use rattler_build.Recipe.Topology.Match.{NameIndex, best_match, index_names, count_matching}
use rattler_build.Recipe.Topology.Loop.{stable_order}

pub data TopologicalSortError : Type 0 where
  cycle_detected : Text → TopologicalSortError

module _ (lib : Versions) (specs : Specs lib) (V : Type 0) (var_eq : V → V → Bool) where
  abbrev pub Variant : Type 0
  Variant = RenderedVariant lib specs V

  unfoldable pub build_name_index : List Variant → NameIndex
  unfolding index_names
  build_name_index variants = index_names (map (λ v. v.recipe.name) variants) 0 []

  -- The edges to `idx` from every variant of the name; none for the variant's own name.
  unfoldable pub edges_from : NameIndex → Variant → ℕ → Text → List (ℕ × ℕ)
  edges_from index v idx dep_name =
      if text_eq dep_name v.recipe.name then [] else elim (lookup dep_name index) [
        | none ↦ []
        | some indices ↦ map (λ dep_idx. (dep_idx, idx)) indices
      ]

  unfoldable pub edges_of : NameIndex → Variant → ℕ → List Text → List (ℕ × ℕ)
  unfolding edges_from
  edges_of index v idx [] = []
  edges_of index v idx (n ∷ names) = edges_from index v idx n ++ edges_of index v idx names

  -- The second loop of `build_dependency_graph`, from `idx` on.
  unfoldable pub all_edges : NameIndex → List Variant → ℕ → List (ℕ × ℕ)
  unfolding edges_of
  all_edges index [] idx = []
  all_edges index (v ∷ variants) idx =
      edges_of index v idx (extract_dependency_names lib specs v.recipe.requirements)
      ++ all_edges index variants (suc idx)

  -- `variants[dep_idx].full_combination`
  unfoldable pub combination_at : List Variant → ℕ → List (NormalizedKey × V)
  combination_at variants i = elim (get_elem? variants i) [
    | none ↦ []
    | some v ↦ v.full_combination
  ]

  -- The variant that has to stand before `v` for one of its dependencies.
  unfoldable pub matching_dep : NameIndex → List Variant → Variant → Text → Option ℕ
  unfolding combination_at
  matching_dep index variants v dep_name =
      if text_eq dep_name v.recipe.name then none else elim (lookup dep_name index) [
        | none ↦ none
        | some indices ↦
            best_match (λ d. count_matching var_eq v.full_combination (combination_at variants d))
              indices
      ]

  unfoldable pub matching_deps : NameIndex → List Variant → ℕ → List ℕ
  unfolding matching_dep
  matching_deps index variants i = elim (get_elem? variants i) [
    | none ↦ []
    | some v ↦
        collect_some (matching_dep index variants v)
          (extract_dependency_names lib specs v.recipe.requirements)
  ]

  -- `toposort` of petgraph, on the number of nodes and the edges: an order of the nodes, or a
  -- node of a cycle.
  module _ (toposort : ℕ → List (ℕ × ℕ) → Result ℕ (List ℕ)) where
    abbrev name_at : List Variant → ℕ → Text
    name_at variants i = elim (get_elem? variants i) [ none ↦ [] | some v ↦ v.recipe.name ]

    unfoldable pub build_dependency_graph :
        List Variant → NameIndex → Result TopologicalSortError (List (ℕ × ℕ))
    build_dependency_graph variants index =
        let edges = all_edges index variants 0 in
        elim (toposort (length variants) edges) [
          | ok _ ↦ ok edges
          | err node ↦ err (cycle_detected (name_at variants node))
        ]

    -- `sorted_variants` by their indices; the clones are taken at the end.
    unfoldable pub stable_topological_sort : List Variant → NameIndex → Option (List Variant)
    stable_topological_sort variants index =
        elim (stable_order (matching_deps index variants) (length variants)) [
          | none ↦ none
          | some order ↦ some (collect_some (get_elem? variants) order)
        ]

    -- `none` inside the result is the end of the model's fuel.
    unfoldable pub topological_sort_variants :
        List Variant → Result TopologicalSortError (Option (List Variant))
    topological_sort_variants [] = ok (some [])
    topological_sort_variants (v ∷ vs) =
        let index = build_name_index (v ∷ vs) in
        build_dependency_graph (v ∷ vs) index >>= λ graph.
        ok (stable_topological_sort (v ∷ vs) index)
