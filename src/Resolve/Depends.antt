-- ===== src/Resolve/Depends.antt =====
-- The run dependencies of an output that inherits none.
use rattler_build.Prelude.{
  ◌≡◌, ◌≢◌, refl, sym, ap, ◌∙◌, subst, ◌⊎◌, inl, inr, true, false, Bool-cases, Option-cases, Option,
  none, some, List, [], ◌∷◌, ◌++◌, Text, ok, codes, text_eq, text_eq_refl, text_eq_iff, Any, Any,
  All, All-append, All-weaken, OnSome, arith,
}
use rattler_build.Prelude.Permuted.{All-Permᴰ}
use rattler_build.Prelude.Maps.{contains, contains-append, text_keyed}
use mathlib.Core.List.{Permᴰ}
use rattler_build.Pins.{Versions}
use rattler_build.Recipe.Requirements.{Specs, IgnoreRunExports, Requirements}
use rattler_build.Resolve.{
  Matching, RunExportsJson, DependencyInfo, RunExportDependency, ResolvedDependencies,
  FinalizedDependencies, as_run_export, spec,
}
use rattler_build.Resolve.Exports.{
  FilteredRunExports, run_exports, is_direct, names, should_include,
}
use rattler_build.Resolve.Exported.{given}
use rattler_build.Resolve.Environments.{
  Output, Services, effective_ignore, add_cached_depends, exported_depends, resolve_dependencies,
}
use rattler_build.Resolve.Stages.{
  ignore, entries, ExportsIn, resolve_dependencies-Stages, compat_of,
}
use rattler_build.Resolve.Permitted.{IsDirect, IsAllowed, given-IsAllowed, run_exports-IsDirect}
use rattler_build.Resolve.Requested.{IsRequested, apply_variant-IsRequested}

-- A hash map is walked in some order, through all of its entries.
abbrev pub IsWalk : (List (Text × RunExportsJson) → List (Text × RunExportsJson)) → Type 0
IsWalk walk = (entries : List (Text × RunExportsJson)) → Permᴰ entries (walk entries)

module _ (lib : Versions) (specs : Specs lib) (matching : Matching lib) {Variable Platform : Type 0}
    (show_variable : Variable → Text) (services : Services lib Platform)
    (requirements : Requirements lib specs) (output : Output lib specs Variable Platform) where
  abbrev ignored : IgnoreRunExports lib specs
  ignored = ignore lib specs matching show_variable services requirements output

  -- A package that an environment was asked for, other than by a run export.
  abbrev pub IsDirectIn : Option (ResolvedDependencies lib) → Text → Type 0
  IsDirectIn env pkg =
      (deps : ResolvedDependencies lib) × (env ≡ some deps)
      × Any (λ d. (as_run_export lib d ≡ none) × (names lib matching pkg (spec lib d) ≡ true))
          deps.specs

  -- A spec that does not ask exactly for a name that is ignored.
  abbrev pub IsUnignored : lib.MatchSpec → Type 0
  IsUnignored m =
      OnSome (λ matcher. OnSome (λ n. contains ignored.by_name n ≡ false) (matching.exact matcher))
        (matching.name m)

  included-IsUnignored :
      (from_env : Text) (m : lib.MatchSpec)
      → should_include lib matching specs ignored from_env m ≡ true
      → IsUnignored m
  unfolding should_include
  included-IsUnignored from_env m h = elim (Option-cases (matching.name m)) [
    | inl n ↦ rw n tt
    | inr (matcher, n) ↦ elim (Option-cases (matching.exact matcher)) [
      | inl x ↦ rw (n, x) tt
      | inr (pkg, x) ↦ let q = rw (n, x, should_include) at h in rw (n, x) (ground arith)
    ]
  ]

  is_direct-Any :
      (infos : List (DependencyInfo lib)) (pkg : Text)
      → is_direct lib matching infos pkg ≡ true
      → Any (λ d. (as_run_export lib d ≡ none) × (names lib matching pkg (spec lib d) ≡ true)) infos
  unfolding is_direct
  is_direct-Any [] pkg h = absurd cc
  is_direct-Any (d ∷ infos) pkg h = elim (Option-cases (as_run_export lib d)) [
    | inr (re, n) ↦ inr (is_direct-Any infos pkg (rw (n, is_direct) at h))
    | inl n ↦ elim (Bool-cases (names lib matching pkg (spec lib d))) [
      | inl e ↦ inl (n, e)
      | inr e ↦ inr (is_direct-Any infos pkg (rw (n, e, is_direct) at h))
    ]
  ]

  -- A run export may be there if neither its package nor its name is ignored, and its package is a
  -- direct dependency of the environment that it is from.
  abbrev pub IsPermitted : FinalizedDependencies lib → DependencyInfo lib → Type 0
  IsPermitted fin d =
      OnSome
        (λ re.
          (contains ignored.from_package re.source_package ≡ false)
          × IsUnignored re.spec
          × (((re.from ≡ codes "build") × IsDirectIn fin.build re.source_package)
              ⊎ ((re.from ≡ codes "host") × IsDirectIn fin.host re.source_package)))
        (as_run_export lib d)

  entries-IsDirectIn :
      (env : Option (ResolvedDependencies lib))
      → IsWalk services.walk
      → All
          (λ e. IsDirectIn env e.0)
          (entries lib specs matching show_variable services requirements output env)
  entries-IsDirectIn none w = tt
  entries-IsDirectIn (some deps) w =
      All-Permᴰ (λ e. IsDirectIn (some deps) e.0) (w (run_exports lib matching true deps))
        (All-weaken (IsDirect lib specs matching deps.specs) _ _
          (λ e d. (deps, refl, is_direct-Any deps.specs e.0 d))
          (run_exports-IsDirect lib specs matching deps))

  allowed-IsPermitted :
      (fin : FinalizedDependencies lib) (from_env : Text) (env : Option (ResolvedDependencies lib))
      → ((pkg : Text)
          → IsDirectIn env pkg
          → ((from_env ≡ codes "build") × IsDirectIn fin.build pkg)
            ⊎ ((from_env ≡ codes "host") × IsDirectIn fin.host pkg))
      → (d : DependencyInfo lib) → IsAllowed lib specs matching ignored from_env (IsDirectIn env) d
      → IsPermitted fin d
  allowed-IsPermitted fin from_env env p d a = elim (Option-cases (as_run_export lib d)) [
    | inl n ↦ rw n tt
    | inr (re, n) ↦
        let q : OnSome
            (λ re.
              (contains ignored.from_package re.source_package ≡ false)
              × (should_include lib matching specs ignored from_env re.spec ≡ true)
              × (re.from ≡ from_env)
              × IsDirectIn env re.source_package)
            (some re) =
          rw n at a in
        let (x, y, z, w) = q in
        rw n (
          x,
          included-IsUnignored from_env re.spec y,
          (elim (p re.source_package w) [
            | inl (b, v) ↦ inl (z ∙ b, v)
            | inr (b, v) ↦ inr (z ∙ b, v)
          ]),
        )
  ]

  given-IsPermitted :
      (fin : FinalizedDependencies lib) (from_env : Text) (env : Option (ResolvedDependencies lib))
      → ((pkg : Text)
          → IsDirectIn env pkg
          → ((from_env ≡ codes "build") × IsDirectIn fin.build pkg)
            ⊎ ((from_env ≡ codes "host") × IsDirectIn fin.host pkg))
      → IsWalk services.walk
      → (r : FilteredRunExports lib)
      → ExportsIn lib specs matching show_variable services requirements output from_env env r
      → All (IsPermitted fin) r.noarch
        × All (IsPermitted fin) r.strong
        × All (IsPermitted fin) r.weak
  given-IsPermitted fin from_env env p w r (n, s, _, k, _) =
      let given_all : (select : RunExportsJson → List Text)
          → All (IsPermitted fin) (
              given lib matching specs ignored from_env select
                (entries lib specs matching show_variable services requirements output env)) =
        λ select.
          All-weaken (IsAllowed lib specs matching ignored from_env (IsDirectIn env)) _ _
            (allowed-IsPermitted fin from_env env p)
            (given-IsAllowed lib specs matching ignored from_env (IsDirectIn env) select _
              (entries-IsDirectIn env w)) in
      (
        subst (All (IsPermitted fin)) (sym n) (given_all (λ e. e.noarch)),
        subst (All (IsPermitted fin)) (sym s) (given_all (λ e. e.strong)),
        subst (All (IsPermitted fin)) (sym k) (given_all (λ e. e.weak)),
      )

  uncached :
      (ds : List (DependencyInfo lib))
      → output.finalized_cache_dependencies ≡ none
      → add_cached_depends lib specs matching show_variable services requirements output ds ≡ ds
  unfolding add_cached_depends
  uncached ds c = rw c refl

  exported-All :
      (P : DependencyInfo lib → Type 0) (build host : FilteredRunExports lib)
      → All P build.strong
      → All P host.noarch
      → All P host.strong
      → All P host.weak
      → All P (
          exported_depends lib specs matching show_variable services requirements output build host)
  unfolding exported_depends
  exported-All P build host bs hn hs hw =
      elim (Bool-cases (services.is_noarch output.build_configuration.target_platform)) [
        | inl e ↦ rw e hn
        | inr e ↦ rw e (All-append P _ _ bs (All-append P _ _ hs hw))
      ]

  -- If a resolution of an output without a staging cache succeeds and hash maps are walked in
  -- some order, every run export among its run dependencies is of a package that is not ignored,
  -- asks for a name that is not ignored, and comes from a package that the build or host
  -- environment was asked for other than by a run export.
  pub depends-IsPermitted :
      (fin : FinalizedDependencies lib)
      → IsWalk services.walk
      → output.finalized_cache_dependencies ≡ none
      → resolve_dependencies lib specs matching show_variable services requirements output ≡ ok fin
      → All (IsPermitted fin) fin.run.depends
  depends-IsPermitted fin w c h =
      let s =
        resolve_dependencies-Stages lib specs matching show_variable services requirements output
          fin h in
      let (bn, bs, bw) =
        given-IsPermitted fin (codes "build") fin.build (λ pkg d. inl (refl, d)) w
          s.build_run_exports s.build_exported in
      let (hn, hs, hw) =
        given-IsPermitted fin (codes "host") fin.host (λ pkg d. inr (refl, d)) w s.host_run_exports
          s.host_exported in
      let asked : All (IsPermitted fin) s.depends =
        All-weaken
          (IsRequested lib specs matching show_variable output.build_configuration
            (compat_of lib specs matching show_variable services requirements output fin) false)
          _ _ (λ d n. rw n tt)
          (apply_variant-IsRequested lib specs matching show_variable output.build_configuration _
            false requirements.run s.depends s.depends_applied) in
      subst (All (IsPermitted fin)) (sym s.depends_eq) (
        All-append (IsPermitted fin) _ _
          (subst (All (IsPermitted fin)) (sym (uncached s.depends c)) asked)
          (exported-All (IsPermitted fin) s.build_run_exports s.host_run_exports bs hn hs hw))

  abbrev IsNotPython : DependencyInfo lib → Type 0
  IsNotPython d =
      OnSome
        (λ re.
          (re.source_package ≢ codes "python")
          × (names lib matching (codes "python") re.spec ≡ false))
        (as_run_export lib d)

  not_contained :
      (ks l : List Text) (k j : Text)
      → l ≡ ks ++ k ∷ []
      → contains l j ≡ false
      → text_eq j k ≡ false
  unfolding contains
  not_contained ks l k j p h = elim (Bool-cases (text_eq j k)) [
    | inr e ↦ e
    | inl e ↦
        let c : contains (ks ++ k ∷ []) j ≡ false = subst (λ l. contains l j ≡ false) p h in
        let q = (text_eq_iff j k).0 e in
        let t : text_eq k j ≡ true = rw (sym q) (text_eq_refl j) in
        let u = contains-append ks (k ∷ []) j in absurd (ground arith)
  ]

  unignored-names :
      (m : lib.MatchSpec) (ks : List Text)
      → ignored.by_name ≡ ks ++ codes "python" ∷ []
      → IsUnignored m
      → names lib matching (codes "python") m ≡ false
  unfolding names
  unignored-names m ks b h = elim (Option-cases (matching.name m)) [
    | inl n ↦ rw (n, names) refl
    | inr (matcher, n) ↦ elim (Option-cases (matching.exact matcher)) [
      | inl x ↦ rw (n, x, names) refl
      | inr (pkg, x) ↦
          rw (n, x, names)
            (not_contained ks ignored.by_name (codes "python") pkg b (let q = rw (n, x) at h in q))
    ]
  ]

  abbrev Permitted : FinalizedDependencies lib → RunExportDependency lib → Type 0
  Permitted fin re =
      (contains ignored.from_package re.source_package ≡ false)
      × IsUnignored re.spec
      × (((re.from ≡ codes "build") × IsDirectIn fin.build re.source_package)
          ⊎ ((re.from ≡ codes "host") × IsDirectIn fin.host re.source_package))

  in_some :
      (fin : FinalizedDependencies lib) (re : RunExportDependency lib) (d : DependencyInfo lib)
      → as_run_export lib d ≡ some re
      → IsPermitted fin d
      → Permitted fin re
  in_some fin re d n p = subst (OnSome (Permitted fin)) n p

  -- If in addition the output is independent of the python version, no run export among its run
  -- dependencies is one of the package `python` or asks exactly for it.
  pub depends_without_python :
      (fin : FinalizedDependencies lib)
      → IsWalk services.walk
      → output.finalized_cache_dependencies ≡ none
      → output.version_independent ≡ true
      → resolve_dependencies lib specs matching show_variable services requirements output ≡ ok fin
      → All IsNotPython fin.run.depends
  unfolding effective_ignore
  depends_without_python fin w c v h =
      All-weaken (IsPermitted fin) IsNotPython fin.run.depends
        (λ d p. elim (Option-cases (as_run_export lib d)) [
          | inl n ↦ rw n tt
          | inr (re, n) ↦
              let (x, y, _) = in_some fin re d n p in
              let f =
                not_contained requirements.ignore_run_exports.from_package ignored.from_package
                  (codes "python") re.source_package
                  (ap
                    (λ b.
                      (effective_ignore lib specs matching show_variable services b
                        requirements.ignore_run_exports).from_package)
                    v)
                  x in
              rw n (
                (λ e.
                    let t = text_eq_refl (codes "python") in
                    let g : text_eq (codes "python") (codes "python") ≡ false =
                      subst (λ s. text_eq s (codes "python") ≡ false) e f in
                    cc),
                unignored-names re.spec requirements.ignore_run_exports.by_name
                    (ap
                      (λ b.
                        (effective_ignore lib specs matching show_variable services b
                          requirements.ignore_run_exports).by_name)
                      v)
                    y,
              )
        ])
        (depends-IsPermitted fin w c h)
