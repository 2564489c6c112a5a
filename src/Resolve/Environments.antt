-- ===== src/Resolve/Environments.antt =====
-- `resolve_dependencies` of src/render/resolved_dependencies.rs, from the requirements of an output
-- to its finalized dependencies.
use rattler_build.Prelude.{
  Bool, true, false, not, ◌&&◌, Option, none, some, List, [], ◌∷◌, ◌++◌, map, Text, Result, ok, err,
  ◌>>=◌, codes, is_empty, keep, if◌then◌else◌, is_some,
}
use rattler_build.Prelude.Maps.{insert, text_keyed}
use rattler_build.Pins.{Versions}
use rattler_build.Recipe.Requirements.{
  Specs, Dependency, IgnoreRunExports, Requirements, RunExports, exports_empty,
}
use rattler_build.Resolve.{
  Matching, PackageRecord, RunExportsJson, DependencyInfo, ResolvedDependencies,
  FinalizedRunDependencies, FinalizedDependencies, dependency_resolution,
  could_not_collect_run_exports, match_spec_parse, as_run_export, spec,
}
use rattler_build.Resolve.Apply.{BuildConfiguration, Fallible, apply_variant}
use rattler_build.Resolve.Exports.{FilteredRunExports, run_exports, filter_run_exports}

-- What the code reads of an output, apart from its requirements. `inherit_run_exports` is
-- `inherits_from`'s, where the output inherits.
pub record Output (lib : Versions) (specs : Specs lib) (Variable Platform : Type 0) : Type 0 where
  pub build_configuration : BuildConfiguration lib Variable Platform
  pub merge_build_and_host_envs : Bool
  pub version_independent : Bool
  pub finalized_cache_dependencies : Option (FinalizedDependencies lib)
  pub inherit_run_exports : Option Bool
  pub run_exports : RunExports lib specs

-- The solver, the download of missing run exports, if asked for, and the order in which a hash map is
-- walked.
pub record Services (lib : Versions) (Platform : Type 0) : Type 0 where
  pub solve_environment :
      Text → List lib.MatchSpec → Platform → Result Text (List (PackageRecord lib))
  pub ensure_run_exports : List (PackageRecord lib) → Result Text (List (PackageRecord lib))
  pub download_missing : Bool
  pub walk : List (Text × RunExportsJson) → List (Text × RunExportsJson)
  pub is_noarch : Platform → Bool

module _ (lib : Versions) (specs : Specs lib) (matching : Matching lib) {Variable Platform : Type 0}
    (show_variable : Variable → Text) (services : Services lib Platform) where
  open services use {solve_environment, ensure_run_exports, download_missing, walk, is_noarch}

  abbrev pub Compatibility : Type 0
  Compatibility = List (Text × PackageRecord lib)

  -- `IgnoreRunExports` with `python` for an output that is independent of the python version.
  unfoldable pub effective_ignore : Bool → IgnoreRunExports lib specs → IgnoreRunExports lib specs
  effective_ignore version_independent ignore =
      if version_independent
      then record {
        from_package = ignore.from_package ++ codes "python" ∷ [];
        by_name = ignore.by_name ++ codes "python" ∷ [];
      }
      else ignore

  -- The solve of one environment, with run exports for the records that have none.
  unfoldable pub resolve :
      Text → List lib.MatchSpec → Platform → Fallible lib specs matching (List (PackageRecord lib))
  resolve env_name match_specs platform = elim (solve_environment env_name match_specs platform) [
    | err e ↦ err (dependency_resolution e)
    | ok resolved ↦
        if download_missing
        then elim (ensure_run_exports resolved) [
          | err e ↦ err (could_not_collect_run_exports e)
          | ok resolved ↦ ok resolved
        ]
        else ok resolved
  ]

  -- `compatibility_specs.insert` for each record.
  unfoldable pub insert_records : List (PackageRecord lib) → Compatibility → Compatibility
  unfolding insert
  insert_records [] compat = compat
  insert_records (r ∷ records) compat = insert_records records (insert r.name r compat)

  -- The run exports of the direct dependencies of an environment, in the order in which they are
  -- walked.
  abbrev pub entries_of : Option (ResolvedDependencies lib) → List (Text × RunExportsJson)
  entries_of none = []
  entries_of (some deps) = walk (run_exports lib matching true deps)

  -- These run exports, filtered.
  unfoldable pub exports_of :
      IgnoreRunExports lib specs
      → Text
      → Option (ResolvedDependencies lib)
      → Fallible lib specs matching (FilteredRunExports lib)
  unfolding run_exports filter_run_exports
  exports_of ignore from_env env =
      elim (filter_run_exports lib matching specs ignore from_env (entries_of env)) [
        | ok filtered ↦ ok filtered
        | err e ↦ err (match_spec_parse e)
      ]

  module _ (requirements : Requirements lib specs)
      (output : Output lib specs Variable Platform) where
    open output use {build_configuration}

    abbrev pub apply_all :
        Compatibility
        → Bool
        → List (Dependency lib specs)
        → Fallible lib specs matching (List (DependencyInfo lib))
    apply_all compat build_time =
        apply_variant lib specs matching show_variable build_configuration compat build_time

    unfoldable pub build_environment :
        Fallible lib specs matching (Option (ResolvedDependencies lib) × Compatibility)
    unfolding apply_variant resolve insert_records spec
    build_environment =
        if not (is_empty requirements.build) && not output.merge_build_and_host_envs
        then (do
          build_env_specs ← apply_all [] true requirements.build
          resolved ←
              resolve (codes "build") (map (spec lib) build_env_specs)
                build_configuration.build_platform
          ok (
            some (record { specs = build_env_specs; resolved = resolved }),
            insert_records resolved [],
          ))
        else ok (none, [])

    -- The specs that are solved for the host environment besides its own.
    unfoldable pub merged_specs : Compatibility → Fallible lib specs matching (List lib.MatchSpec)
    unfolding apply_variant spec
    merged_specs compat =
        if output.merge_build_and_host_envs
        then (apply_all compat true requirements.build >>= λ infos. ok (map (spec lib) infos))
        else ok []

    unfoldable pub host_environment :
        Compatibility
        → List (DependencyInfo lib)
        → Fallible lib specs matching (Option (ResolvedDependencies lib) × Compatibility)
    unfolding resolve insert_records spec merged_specs
    host_environment compat host_env_specs = do
      merged ← merged_specs compat
      let match_specs : List lib.MatchSpec = map (spec lib) host_env_specs ++ merged
      if is_empty match_specs then ok (none, compat) else do
        resolved ← resolve (codes "host") match_specs build_configuration.host_platform
        ok (
          some (record { specs = host_env_specs; resolved = resolved }),
          insert_records resolved compat,
        )

    unfoldable pub render_exports :
        Compatibility → List (Dependency lib specs) → Fallible lib specs matching (List Text)
    unfolding apply_variant spec
    render_exports compat run_export = apply_all compat false run_export >>= λ rendered.
        ok (map (λ dep. matching.show (spec lib dep)) rendered)

    abbrev no_run_exports : RunExportsJson
    no_run_exports = record {
      weak = [];
      strong = [];
      noarch = [];
      weak_constrains = [];
      strong_constrains = [];
    }

    unfoldable pub render_run_exports : Compatibility → Fallible lib specs matching RunExportsJson
    unfolding render_exports exports_empty
    render_run_exports compat =
        if exports_empty lib specs output.run_exports then ok no_run_exports else do
          strong ← render_exports compat output.run_exports.strong
          weak ← render_exports compat output.run_exports.weak
          noarch ← render_exports compat output.run_exports.noarch
          strong_constrains ← render_exports compat output.run_exports.strong_constraints
          weak_constrains ← render_exports compat output.run_exports.weak_constraints
          ok (record {
            strong = strong;
            weak = weak;
            noarch = noarch;
            strong_constrains = strong_constrains;
            weak_constrains = weak_constrains;
          })

    abbrev is_run_export : DependencyInfo lib → Bool
    is_run_export d = is_some (as_run_export lib d)

    abbrev inherits : Option Bool → Bool
    inherits none = true
    inherits (some inherit_run_exports) = inherit_run_exports

    -- The dependencies that the staging cache adds.
    unfoldable pub add_cached_depends : List (DependencyInfo lib) → List (DependencyInfo lib)
    unfolding as_run_export
    add_cached_depends depends = elim output.finalized_cache_dependencies [
      | none ↦ depends
      | some cache ↦
          depends
          ++ keep (λ d. if is_run_export d then inherits output.inherit_run_exports else true)
              cache.run.depends
    ]

    unfoldable pub add_cached_constraints : List (DependencyInfo lib) → List (DependencyInfo lib)
    unfolding as_run_export
    add_cached_constraints constraints = elim output.finalized_cache_dependencies [
      | none ↦ constraints
      | some cache ↦ keep (λ d. not (is_run_export d)) (constraints ++ cache.run.constraints)
    ]

    -- The run exports that become dependencies of the package.
    unfoldable pub exported_depends :
        FilteredRunExports lib → FilteredRunExports lib → List (DependencyInfo lib)
    exported_depends build host =
        if is_noarch build_configuration.target_platform
        then host.noarch
        else build.strong ++ (host.strong ++ host.weak)

    unfoldable pub exported_constraints :
        FilteredRunExports lib → FilteredRunExports lib → List (DependencyInfo lib)
    exported_constraints build host =
        if is_noarch build_configuration.target_platform
        then []
        else build.strong_constraints ++ (host.strong_constraints ++ host.weak_constraints)

    -- From the host environment on.
    unfoldable pub run_dependencies :
        IgnoreRunExports lib specs
        → Compatibility
        → FilteredRunExports lib
        → Option (ResolvedDependencies lib)
        → Fallible lib specs matching (FinalizedRunDependencies lib)
    unfolding apply_variant render_run_exports exports_of add_cached_depends add_cached_constraints
        exported_depends exported_constraints
    run_dependencies ignore compat build_run_exports host_env = do
      depends ← apply_all compat false requirements.run
      constraints ← apply_all compat false requirements.run_constraints
      rendered_run_exports ← render_run_exports compat
      host_run_exports ← exports_of ignore (codes "host") host_env
      ok (record {
        depends = add_cached_depends depends ++ exported_depends build_run_exports host_run_exports;
        constraints =
            add_cached_constraints constraints
            ++ exported_constraints build_run_exports host_run_exports;
        run_exports = rendered_run_exports;
      })

    unfoldable pub resolve_dependencies : Fallible lib specs matching (FinalizedDependencies lib)
    unfolding effective_ignore build_environment apply_variant host_environment exports_of
        run_dependencies
    resolve_dependencies =
        let ignore : IgnoreRunExports lib specs =
          effective_ignore output.version_independent requirements.ignore_run_exports in
        do
          (build_env, compat) ← build_environment
          host_specs ← apply_all compat true requirements.host
          build_run_exports ← exports_of ignore (codes "build") build_env
          (host_env, compat') ← host_environment compat (host_specs ++ build_run_exports.strong)
          run ← run_dependencies ignore compat' build_run_exports host_env
          ok (record { build = build_env; host = host_env; run = run })
