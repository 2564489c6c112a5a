-- ===== src/Resolve/Stages.antt =====
-- What a resolution that succeeds went through.
use rattler_build.Prelude.{
  ◌≡◌, sym, ap, ◌∙◌, subst, inl, inr, Bool, true, false, not, ◌&&◌, Bool-cases, Option, none, some,
  List, [], ◌++◌, map, Text, ok, >>=-eq-ok, ok-injective, is_empty, codes,
}
use rattler_build.Pins.{Versions}
use rattler_build.Recipe.Requirements.{Specs, Dependency, IgnoreRunExports, Requirements}
use rattler_build.Resolve.{
  Matching, RunExportsJson, PackageRecord, DependencyInfo, ResolvedDependencies,
  FinalizedRunDependencies, FinalizedDependencies, spec,
}
use rattler_build.Resolve.Apply.{Fallible}
use rattler_build.Resolve.Exports.{FilteredRunExports}
use rattler_build.Resolve.Exported.{IsExported, filter_run_exports-IsExported}
use rattler_build.Resolve.Environments.{
  Output, Services, Compatibility, effective_ignore, entries_of, resolve, insert_records,
  exports_of, apply_all, build_environment, merged_specs, host_environment, render_run_exports,
  add_cached_depends, add_cached_constraints, exported_depends, exported_constraints,
  run_dependencies, resolve_dependencies,
}

module _ (lib : Versions) (specs : Specs lib) (matching : Matching lib) {Variable Platform : Type 0}
    (show_variable : Variable → Text) (services : Services lib Platform)
    (requirements : Requirements lib specs) (output : Output lib specs Variable Platform) where
  abbrev pub entries : Option (ResolvedDependencies lib) → List (Text × RunExportsJson)
  entries = entries_of lib specs matching show_variable services

  abbrev pub records_of : Option (ResolvedDependencies lib) → List (PackageRecord lib)
  records_of none = []
  records_of (some deps) = deps.resolved

  abbrev records_in :
      List (PackageRecord lib)
      → Compatibility lib specs matching show_variable services
      → Compatibility lib specs matching show_variable services
  records_in = insert_records lib specs matching show_variable services

  abbrev pub ignore : IgnoreRunExports lib specs
  ignore =
      effective_ignore lib specs matching show_variable services output.version_independent
        requirements.ignore_run_exports

  exports_of_ok :
      (from_env : Text) (env : Option (ResolvedDependencies lib)) (r : FilteredRunExports lib)
      → exports_of lib specs matching show_variable services ignore from_env env ≡ ok r
      → IsExported lib matching specs ignore from_env r (entries env)
  unfolding exports_of
  exports_of_ok from_env env r h =
      elim (filter_run_exports-IsExported lib matching specs ignore from_env (entries env)) [
        | inl (_, (r', p, x)) ↦
            subst (λ r. IsExported lib matching specs ignore from_env r (entries env))
              (ok-injective (rw (p, exports_of) at h)) x
        | inr (_, (e, p)) ↦ absurd (let q = rw (p, exports_of) at h in cc)
      ]

  abbrev pub compat_of :
      FinalizedDependencies lib → Compatibility lib specs matching show_variable services
  compat_of fin = records_in (records_of fin.host) (records_in (records_of fin.build) [])

  abbrev pub applied :
      Compatibility lib specs matching show_variable services
      → Bool
      → List (Dependency lib specs)
      → Fallible lib specs matching (List (DependencyInfo lib))
  applied = apply_all lib specs matching show_variable services requirements output

  build_compat :
      (env : Option (ResolvedDependencies lib))
      (compat : Compatibility lib specs matching show_variable services)
      → build_environment lib specs matching show_variable services requirements output
        ≡ ok (env, compat)
      → compat ≡ records_in (records_of env) []
  unfolding build_environment insert_records
  build_compat env compat h =
      elim (Bool-cases
        (not (is_empty requirements.build) && not output.merge_build_and_host_envs)) [
          | inl c ↦
              let (infos, p, h1) =
                >>=-eq-ok (applied [] true requirements.build) _ (rw (c, build_environment) at h) in
              let (resolved, q, h2) =
                >>=-eq-ok
                  (resolve lib specs matching show_variable services (codes "build")
                    (map (spec lib) infos) output.build_configuration.build_platform)
                  _ h1 in
              let e = ok-injective h2 in
              sym (ap (λ x. x.1) e) ∙ ap (λ x. records_in (records_of x.0) []) e
          | inr c ↦
              let e = ok-injective (rw (c, build_environment) at h) in
              sym (ap (λ x. x.1) e) ∙ ap (λ x. records_in (records_of x.0) []) e
        ]

  host_compat :
      (env : Option (ResolvedDependencies lib)) (infos : List (DependencyInfo lib))
      (compat compat' : Compatibility lib specs matching show_variable services)
      → host_environment lib specs matching show_variable services requirements output compat infos
        ≡ ok (env, compat')
      → compat' ≡ records_in (records_of env) compat
  unfolding host_environment insert_records
  host_compat env infos compat compat' h =
      let (merged, p, h1) =
        >>=-eq-ok
          (merged_specs lib specs matching show_variable services requirements output compat) _ h in
      elim (Bool-cases (is_empty (map (spec lib) infos ++ merged))) [
        | inl c ↦
            let e = ok-injective (rw c at h1) in
            sym (ap (λ x. x.1) e) ∙ ap (λ x. records_in (records_of x.0) compat) e
        | inr c ↦
            let (resolved, q, h2) =
              >>=-eq-ok
                (resolve lib specs matching show_variable services (codes "host")
                  (map (spec lib) infos ++ merged) output.build_configuration.host_platform)
                _ (rw c at h1) in
            let e = ok-injective h2 in
            sym (ap (λ x. x.1) e) ∙ ap (λ x. records_in (records_of x.0) compat) e
      ]

  abbrev pub ExportsIn : Text → Option (ResolvedDependencies lib) → FilteredRunExports lib → Type 0
  ExportsIn from_env env r = IsExported lib matching specs ignore from_env r (entries env)

  -- The results of the steps that lead to finalized dependencies.
  pub record Stages (fin : FinalizedDependencies lib) : Type 0 where
    pub host_specs : List (DependencyInfo lib)
    pub build_run_exports : FilteredRunExports lib
    pub host_run_exports : FilteredRunExports lib
    pub depends : List (DependencyInfo lib)
    pub constraints : List (DependencyInfo lib)
    pub build_solved :
        build_environment lib specs matching show_variable services requirements output
        ≡ ok (fin.build, records_in (records_of fin.build) [])
    pub host_applied :
        applied (records_in (records_of fin.build) []) true requirements.host ≡ ok host_specs
    pub build_exported : ExportsIn (codes "build") fin.build build_run_exports
    pub host_solved :
        host_environment lib specs matching show_variable services requirements output
          (records_in (records_of fin.build) [])
          (host_specs ++ build_run_exports.strong)
        ≡ ok (fin.host, compat_of fin)
    pub depends_applied : applied (compat_of fin) false requirements.run ≡ ok depends
    pub constraints_applied :
        applied (compat_of fin) false requirements.run_constraints ≡ ok constraints
    pub host_exported : ExportsIn (codes "host") fin.host host_run_exports
    pub depends_eq :
        fin.run.depends
        ≡ add_cached_depends lib specs matching show_variable services requirements output depends
          ++ exported_depends lib specs matching show_variable services requirements output
              build_run_exports host_run_exports
    pub constraints_eq :
        fin.run.constraints
        ≡ add_cached_constraints lib specs matching show_variable services requirements output
            constraints
          ++ exported_constraints lib specs matching show_variable services requirements output
              build_run_exports host_run_exports

  -- The results of the steps behind the host environment.
  record RunStages (compat : Compatibility lib specs matching show_variable services)
      (build_run_exports : FilteredRunExports lib) (host_env : Option (ResolvedDependencies lib))
      (run : FinalizedRunDependencies lib) : Type 0 where
    run_depends : List (DependencyInfo lib)
    run_constraints : List (DependencyInfo lib)
    run_host_exports : FilteredRunExports lib
    run_applied : applied compat false requirements.run ≡ ok run_depends
    run_constrained : applied compat false requirements.run_constraints ≡ ok run_constraints
    run_exported : ExportsIn (codes "host") host_env run_host_exports
    run_eq :
        (run.depends
          ≡ add_cached_depends lib specs matching show_variable services requirements output
              run_depends
            ++ exported_depends lib specs matching show_variable services requirements output
                build_run_exports run_host_exports)
        × (run.constraints
            ≡ add_cached_constraints lib specs matching show_variable services requirements output
                run_constraints
              ++ exported_constraints lib specs matching show_variable services requirements output
                  build_run_exports run_host_exports)

  run_dependencies-RunStages :
      (compat : Compatibility lib specs matching show_variable services)
      (build_run_exports : FilteredRunExports lib) (host_env : Option (ResolvedDependencies lib))
      (run : FinalizedRunDependencies lib)
      → run_dependencies lib specs matching show_variable services requirements output ignore compat
          build_run_exports host_env
        ≡ ok run
      → RunStages compat build_run_exports host_env run
  unfolding run_dependencies
  run_dependencies-RunStages compat be host_env run h =
      let (depends, q1, k1) = >>=-eq-ok (applied compat false requirements.run) _ h in
      let (constraints, q2, k2) =
        >>=-eq-ok (applied compat false requirements.run_constraints) _ k1 in
      let (rendered, q3, k3) =
        >>=-eq-ok
          (render_run_exports lib specs matching show_variable services requirements output compat)
          _ k2 in
      let (he, q4, k4) =
        >>=-eq-ok
          (exports_of lib specs matching show_variable services ignore (codes "host") host_env) _
          k3 in
      record {
        run_depends = depends;
        run_constraints = constraints;
        run_host_exports = he;
        run_applied = q1;
        run_constrained = q2;
        run_exported = exports_of_ok (codes "host") host_env he q4;
        run_eq = (
          sym (ap (λ r. r.depends) (ok-injective k4)),
          sym (ap (λ r. r.constraints) (ok-injective k4)),
        );
      }

  abbrev finalized :
      Option (ResolvedDependencies lib)
      → Option (ResolvedDependencies lib)
      → FinalizedRunDependencies lib
      → FinalizedDependencies lib
  finalized build_env host_env run = record { build = build_env; host = host_env; run = run }

  assemble :
      (build_env host_env : Option (ResolvedDependencies lib))
      (compat compat' : Compatibility lib specs matching show_variable services)
      (host_specs : List (DependencyInfo lib)) (be : FilteredRunExports lib)
      (run : FinalizedRunDependencies lib)
      → build_environment lib specs matching show_variable services requirements output
        ≡ ok (build_env, compat)
      → applied compat true requirements.host ≡ ok host_specs
      → ExportsIn (codes "build") build_env be
      → host_environment lib specs matching show_variable services requirements output compat
          (host_specs ++ be.strong)
        ≡ ok (host_env, compat')
      → compat ≡ records_in (records_of build_env) []
      → compat' ≡ records_in (records_of host_env) (records_in (records_of build_env) [])
      → RunStages compat' be host_env run
      → Stages (finalized build_env host_env run)
  assemble build_env host_env compat compat' host_specs be run p1 p2 p3 p4 c d r = record {
    host_specs = host_specs;
    build_run_exports = be;
    host_run_exports = r.run_host_exports;
    depends = r.run_depends;
    constraints = r.run_constraints;
    build_solved = p1 ∙ ap (λ x. ok (build_env, x)) c;
    host_applied = subst (λ x. applied x true requirements.host ≡ ok host_specs) c p2;
    build_exported = p3;
    host_solved =
        sym (
          ap
            (λ x.
              host_environment lib specs matching show_variable services requirements output x
                (host_specs ++ be.strong))
            c)
        ∙ (p4 ∙ ap (λ x. ok (host_env, x)) d);
    depends_applied =
        subst (λ x. applied x false requirements.run ≡ ok r.run_depends) d r.run_applied;
    constraints_applied =
        subst (λ x. applied x false requirements.run_constraints ≡ ok r.run_constraints) d
          r.run_constrained;
    host_exported = r.run_exported;
    depends_eq = r.run_eq.0;
    constraints_eq = r.run_eq.1;
  }

  pub resolve_dependencies-Stages :
      (fin : FinalizedDependencies lib)
      → resolve_dependencies lib specs matching show_variable services requirements output ≡ ok fin
      → Stages fin
  unfolding resolve_dependencies
  resolve_dependencies-Stages fin h =
      let ((build_env, compat), p1, h1) =
        >>=-eq-ok (build_environment lib specs matching show_variable services requirements output)
          _ h in
      let (host_specs, p2, h2) = >>=-eq-ok (applied compat true requirements.host) _ h1 in
      let (be, p3, h3) =
        >>=-eq-ok
          (exports_of lib specs matching show_variable services ignore (codes "build") build_env) _
          h2 in
      let ((host_env, compat'), p4, h4) =
        >>=-eq-ok
          (host_environment lib specs matching show_variable services requirements output compat
            (host_specs ++ be.strong))
          _ h3 in
      let (run, p5, h5) =
        >>=-eq-ok
          (run_dependencies lib specs matching show_variable services requirements output ignore
            compat' be host_env)
          _ h4 in
      let c = build_compat build_env compat p1 in
      subst Stages (ok-injective h5) (
        assemble build_env host_env compat compat' host_specs be run p1 p2
          (exports_of_ok (codes "build") build_env be p3) p4 c
          (host_compat host_env (host_specs ++ be.strong) compat compat' p4
            ∙ ap (records_in (records_of host_env)) c)
          (run_dependencies-RunStages compat' be host_env run p5))
