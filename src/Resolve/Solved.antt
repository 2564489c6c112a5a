-- ===== src/Resolve/Solved.antt =====
-- Which environments are solved, and what the run dependencies are made of.
use rattler_build.Prelude.{
  ap₂, map, collect, is_empty, is_some, ok-injective, >>=-eq-ok, ◌≡◌, refl, sym, ap, ◌∙◌, inl, inr,
  Bool, true, false, not, ◌&&◌, ◌||◌, Bool-cases, Option, List, [], ◌∷◌, ◌++◌, Text, Result, ok,
  codes, if◌then◌else◌, arith,
}
use rattler_build.Prelude.Maps.{text_keyed}
use rattler_build.Pins.{Versions}
use rattler_build.Recipe.Requirements.{Specs, IgnoreRunExports, Requirements}
use rattler_build.Resolve.{
  Matching, RunExportsJson, DependencyInfo, ResolvedDependencies, FinalizedDependencies, spec,
}
use rattler_build.Resolve.Apply.{apply_variant}
use rattler_build.Resolve.Exported.{given}
use rattler_build.Resolve.Environments.{
  Compatibility, build_environment, host_environment, merged_specs, resolve, Output, Services,
  add_cached_depends, exported_depends, resolve_dependencies,
}
use rattler_build.Resolve.Stages.{ignore, entries, resolve_dependencies-Stages, applied, compat_of}

module _ (lib : Versions) (specs : Specs lib) (matching : Matching lib) {Variable Platform : Type 0}
    (show_variable : Variable → Text) (services : Services lib Platform)
    (requirements : Requirements lib specs) (output : Output lib specs Variable Platform) where
  abbrev ignored : IgnoreRunExports lib specs
  ignored = ignore lib specs matching show_variable services requirements output

  abbrev pub given_from :
      Text
      → (RunExportsJson → List Text)
      → Option (ResolvedDependencies lib)
      → List (DependencyInfo lib)
  given_from from_env select env =
      given lib matching specs ignored from_env select
        (entries lib specs matching show_variable services requirements output env)

  -- The dependencies that the run exports of two environments add.
  abbrev pub exports_of_both :
      Option (ResolvedDependencies lib)
      → Option (ResolvedDependencies lib)
      → List (DependencyInfo lib)
  exports_of_both build host =
      if services.is_noarch output.build_configuration.target_platform
      then given_from (codes "host") (λ e. e.noarch) host
      else given_from (codes "build") (λ e. e.strong) build
        ++ (given_from (codes "host") (λ e. e.strong) host
            ++ given_from (codes "host") (λ e. e.weak) host)

  -- If the resolution succeeds, the run dependencies are the applied run requirements with those
  -- of the staging cache, and behind them the run exports that are not ignored: for a noarch
  -- target those of kind noarch of the host environment, otherwise the strong ones of the build
  -- environment and the strong and the weak ones of the host environment.
  pub resolve_dependencies-depends :
      (fin : FinalizedDependencies lib)
      → resolve_dependencies lib specs matching show_variable services requirements output ≡ ok fin
      → (asked : List (DependencyInfo lib)) × (applied lib specs matching show_variable services
            requirements output
            (compat_of lib specs matching show_variable services requirements output fin)
            false
            requirements.run
          ≡ ok asked)
        × (fin.run.depends
            ≡ add_cached_depends lib specs matching show_variable services requirements output asked
              ++ exports_of_both fin.build fin.host)
  unfolding exported_depends
  resolve_dependencies-depends fin h =
      let s =
        resolve_dependencies-Stages lib specs matching show_variable services requirements output
          fin h in
      let (_, bs, _, _, _) = s.build_exported in
      let (hn, hs, _, hw, _) = s.host_exported in
      (
        s.depends,
        s.depends_applied,
        s.depends_eq
            ∙ ap
                (λ l.
                  add_cached_depends lib specs matching show_variable services requirements output
                    s.depends
                  ++ l)
                (λ i.
                  if services.is_noarch output.build_configuration.target_platform
                  then hn i
                  else bs i ++ (hs i ++ hw i)),
      )

  is_empty-map : {X Y : Type 0} (f : X → Y) (xs : List X) → is_empty (map f xs) ≡ is_empty xs
  is_empty-map f [] = refl
  is_empty-map f (x ∷ xs) = refl

  is_empty_append : {X : Type 0} (xs ys : List X) → is_empty (xs ++ ys) ≡ is_empty xs && is_empty ys
  is_empty_append [] ys = refl
  is_empty_append (x ∷ xs) ys = refl

  is_empty-append :
      {X Y : Type 0} (f : X → Y) (xs : List X) (ys : List Y)
      → is_empty (map f xs ++ ys) ≡ is_empty xs && is_empty ys
  is_empty-append f [] ys = refl
  is_empty-append f (x ∷ xs) ys = refl

  asked_for :
      (solved own merged merge build : Bool)
      → solved ≡ not (own && merged)
      → merged ≡ not merge || build
      → solved ≡ not own || (merge && not build)
  asked_for solved own merged merge build h g = rw (h, g) (ground arith)

  is_empty-collect :
      {E X Y : Type 0} (f : X → Result E Y) (xs : List X) (ys : List Y)
      → collect f xs ≡ ok ys
      → is_empty ys ≡ is_empty xs
  unfolding collect
  is_empty-collect f [] ys h = sym (ap is_empty (ok-injective h))
  is_empty-collect f (x ∷ xs) ys h =
      let (y, e, h') = >>=-eq-ok (f x) _ h in
      let (zs, e', h'') = >>=-eq-ok (collect f xs) _ h' in sym (ap is_empty (ok-injective h''))

  build_solved-if :
      (env : Option (ResolvedDependencies lib))
      (compat : Compatibility lib specs matching show_variable services)
      → build_environment lib specs matching show_variable services requirements output
        ≡ ok (env, compat)
      → is_some env ≡ not (is_empty requirements.build) && not output.merge_build_and_host_envs
  unfolding build_environment
  build_solved-if env compat h =
      elim (Bool-cases
        (not (is_empty requirements.build) && not output.merge_build_and_host_envs)) [
          | inl c ↦
              let (infos, p, h1) =
                >>=-eq-ok
                  (applied lib specs matching show_variable services requirements output [] true
                    requirements.build)
                  _ (rw (c, build_environment) at h) in
              let (resolved, q, h2) =
                >>=-eq-ok
                  (resolve lib specs matching show_variable services (codes "build")
                    (map (spec lib) infos) output.build_configuration.build_platform)
                  _ h1 in
              sym (ap (λ x. is_some x.0) (ok-injective h2)) ∙ sym c
          | inr c ↦
              sym (ap (λ x. is_some x.0) (ok-injective (rw (c, build_environment) at h))) ∙ sym c
        ]

  merged_empty :
      (compat : Compatibility lib specs matching show_variable services)
      (merged : List lib.MatchSpec)
      → merged_specs lib specs matching show_variable services requirements output compat
        ≡ ok merged
      → is_empty merged ≡ not output.merge_build_and_host_envs || is_empty requirements.build
  unfolding merged_specs apply_variant
  merged_empty compat merged h = elim (Bool-cases output.merge_build_and_host_envs) [
    | inl c ↦
        let (infos, p, h1) =
          >>=-eq-ok
            (applied lib specs matching show_variable services requirements output compat true
              requirements.build)
            _ (rw (c, merged_specs) at h) in
        let e = is_empty-collect _ requirements.build infos p in
        rw c (sym (ap is_empty (ok-injective h1)) ∙ (is_empty-map (spec lib) infos ∙ e))
    | inr c ↦ rw c (sym (ap is_empty (ok-injective (rw (c, merged_specs) at h))))
  ]

  host_solved-if :
      (env : Option (ResolvedDependencies lib)) (infos : List (DependencyInfo lib))
      (compat compat' : Compatibility lib specs matching show_variable services)
      → host_environment lib specs matching show_variable services requirements output compat infos
        ≡ ok (env, compat')
      → is_some env
        ≡ not (is_empty infos)
          || (output.merge_build_and_host_envs && not (is_empty requirements.build))
  unfolding host_environment
  host_solved-if env infos compat compat' h =
      let (merged, p, h1) =
        >>=-eq-ok
          (merged_specs lib specs matching show_variable services requirements output compat) _ h in
      let m = merged_empty compat merged p in
      let t = is_empty-append (spec lib) infos merged in
      elim (Bool-cases (is_empty (map (spec lib) infos ++ merged))) [
        | inl c ↦
            asked_for (is_some env) _ _ _ _
              (sym (ap (λ x. is_some x.0) (ok-injective (rw c at h1))) ∙ ap not (sym c ∙ t)) m
        | inr c ↦
            let (resolved, q, h2) =
              >>=-eq-ok
                (resolve lib specs matching show_variable services (codes "host")
                  (map (spec lib) infos ++ merged) output.build_configuration.host_platform)
                _ (rw c at h1) in
            asked_for (is_some env) _ _ _ _
              (sym (ap (λ x. is_some x.0) (ok-injective h2)) ∙ ap not (sym c ∙ t)) m
      ]

  -- If the resolution succeeds, the build environment was solved exactly if there are build
  -- requirements that are not merged into the host environment, and the host environment exactly
  -- if there are host requirements, strong run exports of the build environment, or merged build
  -- requirements.
  pub resolve_dependencies_solved :
      (fin : FinalizedDependencies lib)
      → resolve_dependencies lib specs matching show_variable services requirements output ≡ ok fin
      → (is_some fin.build
          ≡ not (is_empty requirements.build) && not output.merge_build_and_host_envs)
        × (is_some fin.host
            ≡ not (
                is_empty requirements.host
                && is_empty (given_from (codes "build") (λ e. e.strong) fin.build))
              || (output.merge_build_and_host_envs && not (is_empty requirements.build)))
  unfolding apply_variant
  resolve_dependencies_solved fin h =
      let s =
        resolve_dependencies-Stages lib specs matching show_variable services requirements output
          fin h in
      let (_, bs, _, _, _) = s.build_exported in
      let e = is_empty-collect _ requirements.host s.host_specs s.host_applied in
      let k = is_empty_append s.host_specs s.build_run_exports.strong in
      (
        build_solved-if fin.build _ s.build_solved,
        host_solved-if fin.host (s.host_specs ++ s.build_run_exports.strong) _ _ s.host_solved
            ∙ ap
                (λ b.
                  not b || (output.merge_build_and_host_envs && not (is_empty requirements.build)))
                (k ∙ ap₂ ◌&&◌ e (ap is_empty bs)),
      )
