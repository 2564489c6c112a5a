-- ===== src/Recipe/Topology/Order.antt =====
-- The sort as a whole: the result is the variants in another order, and what satisfies a
-- dependency stands before what has it.
use rattler_build.Prelude.{
  ℕ, zero, suc, ◌+◌, ◌≤◌, ◌<◌, ◌≡◌, refl, subst, ◌==◌, Bool, false, Option, none, some, List, [],
  ◌∷◌, ◌++◌, map, Text, Result, Result-cases, >>=-eq-ok, ok, if◌then◌else◌, length, length-map,
  get_elem?, collect_some, arith, All, All-append, All-split, All-of_map, All-collect_some, OnSome,
  OnSome-both, text_eq, inl, inr, Bool-cases, Option-cases, Perm,
}
use mathlib.Core.List.Perm
use rattler_build.Prelude.Maps.{lookup, lookup-All, insert, All-insert, text_keyed}
use rattler_build.Pins.{Versions}
use rattler_build.Recipe.Requirements.{Specs, extract_dependency_names}
use rattler_build.Recipe.Topology.Match.{NameIndex, best_match-All, push_index, index_names}
use rattler_build.Recipe.Topology.Marks.{select-full}
use rattler_build.Recipe.Topology.Passes.{Ordered}
use rattler_build.Recipe.Topology.Finish.{stable_order-Finishes}
use rattler_build.Recipe.Topology.Graph.{
  Variant, build_name_index, edges_from, edges_of, all_edges, matching_dep, matching_deps,
  build_dependency_graph, stable_topological_sort, topological_sort_variants,
}

-- Every index of the map is below `n`.
abbrev IsBounded : ℕ → NameIndex → Type 0
IsBounded n index = All (λ (e : Text × List ℕ). All (λ i. i < n) e.1) index

push_index-IsBounded :
    (n : ℕ) (name : Text) (i : ℕ) (index : NameIndex)
    → i < n
    → IsBounded n index
    → IsBounded n (push_index name i index)
unfolding push_index
push_index-IsBounded n name i index l b =
    (elim (lookup name index)
        as (λ o.
          (OnSome (λ is. (j : Text) × All (λ i. i < n) is) o
            → IsBounded n (elim o [
              | none ↦ insert name (i ∷ []) index
              | some indices ↦ insert name (indices ++ i ∷ []) index
            ]))) [
              | none ↦ λ _. All-insert _ name (i ∷ []) index (λ j e. (l, tt)) b
              | some indices ↦ λ p.
                  All-insert _ name (indices ++ i ∷ []) index
                    (λ j e. All-append (λ i. i < n) indices (i ∷ []) p.1 (l, tt)) b
            ])
      (lookup-All (λ (e : Text × List ℕ). All (λ i. i < n) e.1) name index b)

index_names-IsBounded :
    (n : ℕ) (names : List Text) (i : ℕ) (index : NameIndex)
    → length names + i ≤ n
    → IsBounded n index
    → IsBounded n (index_names names i index)
unfolding index_names
index_names-IsBounded n [] i index h b = b
index_names-IsBounded n (name ∷ names) i index h b =
    index_names-IsBounded n names (suc i) (push_index name i index) (omega arith)
      (push_index-IsBounded n name i index (omega arith) b)

-- Where a node stands in an order.
abbrev pub position : ℕ → List ℕ → ℕ
position a [] = 0
position a (b ∷ order) = if b == a then 0 else suc (position a order)

-- What petgraph documents of `toposort`: in the order that it returns, the source of every edge
-- stands before its target.
abbrev pub IsToposort : (ℕ → List (ℕ × ℕ) → Result ℕ (List ℕ)) → Type 0
IsToposort toposort =
    (k : ℕ) (edges : List (ℕ × ℕ)) (order : List ℕ)
    → toposort k edges ≡ ok order
    → All (λ (e : ℕ × ℕ). position e.0 order < position e.1 order) edges

module _ (lib : Versions) (specs : Specs lib) (V : Type 0) (var_eq : V → V → Bool) where
  abbrev pub Item : Type 0
  Item = Variant lib specs V var_eq

  abbrev pub index_of : List Item → NameIndex
  index_of variants = build_name_index lib specs V var_eq variants

  build_name_index-IsBounded :
      (variants : List Item) → IsBounded (length variants) (index_of variants)
  unfolding build_name_index
  build_name_index-IsBounded variants =
      index_names-IsBounded (length variants) (map (λ v. v.recipe.name) variants) 0 []
        (omega (arith, length-map (λ (v : Item). v.recipe.name) variants)) tt

  -- What holds of the indices of a name holds of the one that is chosen.
  matching_dep-P :
      (P : ℕ → Type 0) (index : NameIndex) (variants : List Item) (v : Item) (name : Text)
      → (text_eq name v.recipe.name ≡ false → OnSome (All P) (lookup name index))
      → OnSome P (matching_dep lib specs V var_eq index variants v name)
  unfolding matching_dep
  matching_dep-P P index variants v name h = elim (Bool-cases (text_eq name v.recipe.name)) [
    | inl e ↦ rw (e, matching_dep) tt
    | inr e ↦ elim (Option-cases (lookup name index)) [
      | inl l ↦ rw (e, l, matching_dep) tt
      | inr (indices, l) ↦ rw (e, l, matching_dep) (best_match-All _ P indices (rw l at (h e)))
    ]
  ]

  edges_from-P :
      (Q : ℕ × ℕ → Type 0) (index : NameIndex) (v : Item) (idx : ℕ) (name : Text)
      → All Q (edges_from lib specs V var_eq index v idx name)
      → text_eq name v.recipe.name ≡ false
      → OnSome (All (λ d. Q (d, idx))) (lookup name index)
  unfolding edges_from
  edges_from-P Q index v idx name h e = elim (Option-cases (lookup name index)) [
    | inl l ↦ rw l tt
    | inr (indices, l) ↦ rw l (All-of_map Q (λ d. (d, idx)) indices (rw (e, l, edges_from) at h))
  ]

  -- The chosen dependencies of a variant are sources of its edges.
  matching-Q :
      (Q : ℕ × ℕ → Type 0) (index : NameIndex) (variants : List Item) (v : Item) (idx : ℕ)
      (names : List Text)
      → All Q (edges_of lib specs V var_eq index v idx names)
      → All
          (λ name. OnSome (λ d. Q (d, idx)) (matching_dep lib specs V var_eq index variants v name))
          names
  unfolding edges_of
  matching-Q Q index variants v idx [] h = tt
  matching-Q Q index variants v idx (name ∷ names) h =
      let (l, r) = All-split Q (edges_from lib specs V var_eq index v idx name) _ h in
      (
        matching_dep-P (λ d. Q (d, idx)) index variants v name (edges_from-P Q index v idx name l),
        matching-Q Q index variants v idx names r,
      )

  all_edges-Q :
      (Q : ℕ × ℕ → Type 0) (index : NameIndex) (variants : List Item) (from i : ℕ) (v : Item)
      → All Q (all_edges lib specs V var_eq index variants from)
      → get_elem? variants i ≡ some v
      → All Q (
          edges_of lib specs V var_eq index v
            (i + from)
            (extract_dependency_names lib specs v.recipe.requirements))
  unfolding all_edges
  all_edges-Q Q index [] from i v h e = cc
  all_edges-Q Q index (w ∷ variants) from zero v h e =
      let p : w ≡ v = cc in
      let q : 0 + from ≡ from = omega arith in
      rw (← p, q) (All-split Q _ (all_edges lib specs V var_eq index variants (suc from)) h).0
  all_edges-Q Q index (w ∷ variants) from (suc i) v h e =
      let q : suc i + from ≡ i + suc from = omega arith in
      let here =
        edges_of lib specs V var_eq index w from
          (extract_dependency_names lib specs w.recipe.requirements) in
      rw q (all_edges-Q Q index variants (suc from) i v (All-split Q here _ h).1 e)

  lookup-bounded :
      (variants : List Item) (name : Text)
      → OnSome (All (λ d. d < length variants)) (lookup name (index_of variants))
  lookup-bounded variants name = elim (Option-cases (lookup name (index_of variants))) [
    | inl e ↦ rw e tt
    | inr (is, e) ↦
        rw e
          (rw e at (
            lookup-All (λ (e : Text × List ℕ). All (λ i. i < length variants) e.1) name
              (index_of variants) (build_name_index-IsBounded variants))).1
  ]

  -- Every chosen dependency of a variant is a source of one of its edges, and an index.
  matching_deps-Q :
      (Q : ℕ × ℕ → Type 0) (variants : List Item) (i : ℕ)
      → All Q (all_edges lib specs V var_eq (index_of variants) variants 0)
      → All
          (λ d. (d < length variants) × Q (d, i))
          (matching_deps lib specs V var_eq (index_of variants) variants i)
  unfolding matching_deps
  matching_deps-Q Q variants i h = elim (Option-cases (get_elem? variants i)) [
    | inl e ↦ rw (e, matching_deps) tt
    | inr (v, e) ↦
        let names = extract_dependency_names lib specs v.recipe.requirements in
        let q : i + 0 ≡ i = omega arith in
        let edges = rw q at (all_edges-Q Q (index_of variants) variants 0 i v h e) in
        rw (e, matching_deps)
          (All-collect_some _ (matching_dep lib specs V var_eq (index_of variants) variants v) names
            (both v names (matching-Q Q (index_of variants) variants v i names edges)))
  ]
    where
      both :
          (v : Item) (names : List Text)
          → All
              (λ name.
                OnSome
                  (λ d. Q (d, i))
                  (matching_dep lib specs V var_eq (index_of variants) variants v name))
              names
          → All
              (λ name.
                OnSome
                  (λ d. (d < length variants) × Q (d, i))
                  (matching_dep lib specs V var_eq (index_of variants) variants v name))
              names
      both v [] h = tt
      both v (name ∷ names) h = (
        OnSome-both _ _ _
            (matching_dep-P (λ d. d < length variants) (index_of variants) variants v name
              (λ _. lookup-bounded variants name))
            h.0,
        both v names h.1,
      )

  module _ (toposort : ℕ → List (ℕ × ℕ) → Result ℕ (List ℕ)) (law : IsToposort toposort) where
    abbrev pub IsSorted : List Item → Option (List Item) → Type 0
    IsSorted variants r =
        (order : List ℕ) × (r ≡ some (collect_some (get_elem? variants) order))
        × Ordered (matching_deps lib specs V var_eq (index_of variants) variants) [] order
        × Perm (collect_some (get_elem? variants) order) variants

    stable-IsSorted :
        (variants : List Item) (o : List ℕ)
        → toposort (length variants) (all_edges lib specs V var_eq (index_of variants) variants 0)
          ≡ ok o
        → IsSorted variants
            (stable_topological_sort lib specs V var_eq toposort variants (index_of variants))
    unfolding stable_topological_sort
    stable-IsSorted variants o e =
        let deps = matching_deps lib specs V var_eq (index_of variants) variants in
        let edges = law (length variants) _ o e in
        let (s, r, v, added) =
          stable_order-Finishes variants deps (λ d. position d o)
            (λ i l. matching_deps-Q (λ e. position e.0 o < position e.1 o) variants i edges) in
        (
          s.sorted,
          rw (r, stable_topological_sort) refl,
          v.ordered,
          subst (λ t. Perm (collect_some (get_elem? variants) s.sorted) t)
              (select-full variants s.added v.size (λ i l. added i (omega (arith, v.size)))) v.perm,
        )

    build_dependency_graph-ok :
        (variants : List Item) (edges : List (ℕ × ℕ))
        → build_dependency_graph lib specs V var_eq toposort variants (index_of variants) ≡ ok edges
        → (o : List ℕ) × (toposort
              (length variants)
              (all_edges lib specs V var_eq (index_of variants) variants 0)
            ≡ ok o)
    unfolding build_dependency_graph
    build_dependency_graph-ok variants edges h =
        elim (Result-cases (
          toposort (length variants)
            (all_edges lib specs V var_eq (index_of variants) variants 0))) [
              | inl w ↦ w
              | inr (x, e) ↦ absurd (let k = rw (e, build_dependency_graph) at h in cc)
            ]

    -- If `toposort` keeps its promise and the sort succeeds on the variants, its fuel was enough,
    -- the result is a permutation of the variants, and in it the variant that the code chooses
    -- for each dependency of a variant stands before that variant.
    pub topological_sort_variants-IsSorted :
        (variants : List Item) (r : Option (List Item))
        → topological_sort_variants lib specs V var_eq toposort variants ≡ ok r
        → IsSorted variants r
    unfolding topological_sort_variants
    topological_sort_variants-IsSorted [] r h = ([], cc, tt, Perm.refl [])
    topological_sort_variants-IsSorted (v ∷ vs) r h =
        let (edges, g, e) =
          >>=-eq-ok
            (build_dependency_graph lib specs V var_eq toposort (v ∷ vs) (index_of (v ∷ vs))) _ h in
        let (o, t) = build_dependency_graph-ok (v ∷ vs) edges g in
        let p : stable_topological_sort lib specs V var_eq toposort (v ∷ vs) (index_of (v ∷ vs))
            ≡ r =
          cc in
        subst (IsSorted (v ∷ vs)) p (stable-IsSorted (v ∷ vs) o t)
