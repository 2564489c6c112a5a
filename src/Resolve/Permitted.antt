-- ===== src/Resolve/Permitted.antt =====
-- Which run exports become dependencies of a package.
use rattler_build.Prelude.{
  ◌≡◌, refl, inl, inr, true, false, Bool-cases, Option-cases, List, [], ◌∷◌, Text, Result-cases,
  All, All-always, All-map, All-weaken, All-collect_some, OnSome,
}
use rattler_build.Prelude.Permuted.{All-flat_map}
use rattler_build.Prelude.Maps.{contains, insert, All-insert, text_keyed}
use rattler_build.Pins.{Versions}
use rattler_build.Recipe.Requirements.{Specs, IgnoreRunExports}
use rattler_build.Resolve.{
  Matching, RunExportsJson, PackageRecord, DependencyInfo, ResolvedDependencies, as_run_export,
}
use rattler_build.Resolve.Exports.{
  run_exports, collect_run_exports, is_direct, should_include, as_dependency,
}
use rattler_build.Resolve.Filtered.{included, entry_exports}
use rattler_build.Resolve.Exported.{given}

module _ (lib : Versions) (specs : Specs lib) (matching : Matching lib) where
  -- Entries of direct dependencies.
  abbrev pub IsDirect : List (DependencyInfo lib) → Text × RunExportsJson → Type 0
  IsDirect specs' entry = is_direct lib matching specs' entry.0 ≡ true

  collect-IsDirect :
      (specs' : List (DependencyInfo lib)) (resolved : List (PackageRecord lib))
      (result : List (Text × RunExportsJson))
      → All (IsDirect specs') result
      → All (IsDirect specs') (collect_run_exports lib matching true specs' resolved result)
  unfolding collect_run_exports
  collect-IsDirect specs' [] result h = h
  collect-IsDirect specs' (r ∷ resolved) result h = elim (Option-cases r.run_exports) [
    | inl n ↦ rw (n, collect_run_exports) (collect-IsDirect specs' resolved result h)
    | inr (e, n) ↦ elim (Bool-cases (is_direct lib matching specs' r.name)) [
      | inl d ↦
          rw (n, d, collect_run_exports)
            (collect-IsDirect specs' resolved (insert r.name e result)
              (All-insert (IsDirect specs') r.name e result (λ j p. rw p d) h))
      | inr d ↦ rw (n, d, collect_run_exports) (collect-IsDirect specs' resolved result h)
    ]
  ]

  pub run_exports-IsDirect :
      (deps : ResolvedDependencies lib)
      → All (IsDirect deps.specs) (run_exports lib matching true deps)
  unfolding run_exports
  run_exports-IsDirect deps = collect-IsDirect deps.specs deps.resolved [] tt

  module _ (ignore : IgnoreRunExports lib specs) (from_env : Text) where
    -- What is known of a run export from an environment whose entries have a property.
    abbrev pub IsAllowed : (Text → Type 0) → DependencyInfo lib → Type 0
    IsAllowed P d =
        OnSome
          (λ re.
            (contains ignore.from_package re.source_package ≡ false)
            × (should_include lib matching specs ignore from_env re.spec ≡ true)
            × (re.from ≡ from_env)
            × P re.source_package)
          (as_run_export lib d)

    included-allowed :
        (s : Text)
        → OnSome
            (λ m. should_include lib matching specs ignore from_env m ≡ true)
            (included lib matching specs ignore from_env s)
    included-allowed s = elim (Result-cases (matching.parse_lenient s)) [
      | inr (e, p) ↦ rw (p, included) tt
      | inl (m, p) ↦ elim (Bool-cases (should_include lib matching specs ignore from_env m)) [
        | inl i ↦ rw (p, i, included) i
        | inr i ↦ rw (p, i, included) tt
      ]
    ]

    entry-IsAllowed :
        (P : Text → Type 0) (select : RunExportsJson → List Text) (e : Text × RunExportsJson)
        → P e.0
        → All (IsAllowed P) (entry_exports lib matching specs ignore from_env select e)
    unfolding as_run_export
    entry-IsAllowed P select (pkg, e) p = elim (Bool-cases (contains ignore.from_package pkg)) [
      | inl i ↦ rw i tt
      | inr i ↦ rw i (
          All-map (IsAllowed P) (as_dependency lib matching specs ignore from_env pkg) _ (
            All-weaken (λ m. should_include lib matching specs ignore from_env m ≡ true)
              (λ m. IsAllowed P (as_dependency lib matching specs ignore from_env pkg m)) _
              (λ m q. (i, q, refl, p))
              (All-collect_some (λ m. should_include lib matching specs ignore from_env m ≡ true)
                (included lib matching specs ignore from_env) (select e)
                (All-always _ included-allowed (select e)))))
    ]

    pub given-IsAllowed :
        (P : Text → Type 0) (select : RunExportsJson → List Text)
        (entries : List (Text × RunExportsJson))
        → All (λ e. P e.0) entries
        → All (IsAllowed P) (given lib matching specs ignore from_env select entries)
    given-IsAllowed P select entries h =
        All-flat_map (IsAllowed P) _ entries
          (All-weaken (λ e. P e.0) _ entries (entry-IsAllowed P select) h)
