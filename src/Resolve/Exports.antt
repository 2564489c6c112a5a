-- ===== src/Resolve/Exports.antt =====
-- `ResolvedDependencies::run_exports` of src/render/resolved_dependencies.rs, and
-- src/render/run_exports.rs. The run exports of an environment are a list of entries in the order in
-- which the hash map is walked.
use rattler_build.Prelude.{
  Bool, true, false, not, ◌&&◌, Option, none, some, List, [], ◌∷◌, ◌++◌, map, Text, Result, ok, err,
  ◌>>=◌, collect, collect_some, any, text_eq, if◌then◌else◌, is_some,
}
use rattler_build.Prelude.Maps.{contains, insert, retain, text_keyed}
use rattler_build.Pins.{Versions}
use rattler_build.Recipe.Requirements.{Specs, IgnoreRunExports}
use rattler_build.Resolve.{
  Matching, PackageRecord, RunExportsJson, DependencyInfo, ResolvedDependencies, as_run_export,
  spec, run_export,
}

-- `FilteredRunExports`
pub record FilteredRunExports (lib : Versions) : Type 0 where
  pub noarch : List (DependencyInfo lib)
  pub strong : List (DependencyInfo lib)
  pub strong_constraints : List (DependencyInfo lib)
  pub weak : List (DependencyInfo lib)
  pub weak_constraints : List (DependencyInfo lib)

module _ (lib : Versions) (matching : Matching lib) where
  open matching use {SpecError, exact, name, parse_lenient}

  -- Whether a spec names a package exactly: `name.as_ref() == Some(&Exact(package))`.
  unfoldable pub names : Text → lib.MatchSpec → Bool
  names pkg m = elim (name m) [
    | none ↦ false
    | some matcher ↦ elim (exact matcher) [ none ↦ false | some n ↦ text_eq n pkg ]
  ]

  -- Whether a package is a dependency of its own, not through a run export.
  unfoldable pub is_direct : List (DependencyInfo lib) → Text → Bool
  unfolding names as_run_export spec
  is_direct infos pkg =
      any (λ d. not (is_some (as_run_export lib d)) && names pkg (spec lib d)) infos

  unfoldable pub collect_run_exports :
      Bool
      → List (DependencyInfo lib)
      → List (PackageRecord lib)
      → List (Text × RunExportsJson)
      → List (Text × RunExportsJson)
  unfolding is_direct insert
  collect_run_exports direct_only infos [] result = result
  collect_run_exports direct_only infos (r ∷ resolved) result = elim r.run_exports [
    | none ↦ collect_run_exports direct_only infos resolved result
    | some run_exports ↦ elim (direct_only && not (is_direct infos r.name)) [
      | true ↦ collect_run_exports direct_only infos resolved result
      | false ↦ collect_run_exports direct_only infos resolved (insert r.name run_exports result)
    ]
  ]

  -- `ResolvedDependencies::run_exports`
  unfoldable pub run_exports : Bool → ResolvedDependencies lib → List (Text × RunExportsJson)
  unfolding collect_run_exports
  run_exports direct_only deps = collect_run_exports direct_only deps.specs deps.resolved []

  module _ (specs : Specs lib) (ignore_run_exports : IgnoreRunExports lib specs)
      (from_env : Text) where
    -- `should_include`
    unfoldable pub should_include : lib.MatchSpec → Bool
    unfolding contains
    should_include m = elim (name m) [
      | none ↦ false
      | some matcher ↦ elim (exact matcher) [
        | some n ↦ not (contains ignore_run_exports.by_name n)
        | none ↦ true
      ]
    ]

    -- The `map` and the `filter_map` of `to_specs`.
    unfoldable pub to_spec : Text → Option (Result SpecError lib.MatchSpec)
    unfolding should_include
    to_spec s = elim (parse_lenient s) [
      | ok m ↦ if should_include m then some (ok m) else none
      | err e ↦ some (err e)
    ]

    unfoldable pub to_specs : List Text → Result SpecError (List lib.MatchSpec)
    unfolding to_spec collect
    to_specs strings = collect (λ r. r) (collect_some to_spec strings)

    abbrev pub as_dependency : Text → lib.MatchSpec → DependencyInfo lib
    as_dependency pkg m = run_export (record { spec = m; from = from_env; source_package = pkg })

    -- `to_specs(...)?.into_iter().map(|d| as_dependency(d, name))`
    unfoldable pub dependencies : Text → List Text → Result SpecError (List (DependencyInfo lib))
    unfolding to_specs
    dependencies pkg strings = to_specs strings >>= λ ms. ok (map (as_dependency pkg) ms)

    -- One round of the loop.
    unfoldable pub extend_filtered :
        FilteredRunExports lib → Text → RunExportsJson → Result SpecError (FilteredRunExports lib)
    unfolding dependencies
    extend_filtered f pkg e = do
      noarch ← dependencies pkg e.noarch
      strong ← dependencies pkg e.strong
      strong_constraints ← dependencies pkg e.strong_constrains
      weak ← dependencies pkg e.weak
      weak_constraints ← dependencies pkg e.weak_constrains
      ok (record {
        noarch = f.noarch ++ noarch;
        strong = f.strong ++ strong;
        strong_constraints = f.strong_constraints ++ strong_constraints;
        weak = f.weak ++ weak;
        weak_constraints = f.weak_constraints ++ weak_constraints;
      })

    unfoldable pub filter_loop :
        FilteredRunExports lib
        → List (Text × RunExportsJson)
        → Result SpecError (FilteredRunExports lib)
    unfolding extend_filtered contains
    filter_loop f [] = ok f
    filter_loop f ((pkg, e) ∷ entries) = elim (contains ignore_run_exports.from_package pkg) [
      | true ↦ filter_loop f entries
      | false ↦ extend_filtered f pkg e >>= λ f'. filter_loop f' entries
    ]

    abbrev pub no_exports : FilteredRunExports lib
    no_exports = record {
      noarch = [];
      strong = [];
      strong_constraints = [];
      weak = [];
      weak_constraints = [];
    }

    unfoldable pub filter_run_exports :
        List (Text × RunExportsJson) → Result SpecError (FilteredRunExports lib)
    unfolding filter_loop retain contains
    filter_run_exports run_export_map =
        filter_loop no_exports
          (retain (λ pkg e. not (contains ignore_run_exports.from_package pkg)) run_export_map)
