-- ===== src/Resolve/Pinned.antt =====
-- The pins of the run requirements after the resolution.
use rattler_build.Prelude.{
  Result-cases, Any, collect-Any, map, ok-injective, >>=-eq-ok, ◌≡◌, refl, sym, ap, ◌∙◌, subst, inl,
  inr, false, Option-cases, Option, none, some, List, [], ◌∷◌, ◌++◌, Text, ok, All, All-weaken,
}
use rattler_build.Prelude.Maps.{lookup, insert, extend, last_value, lookup-extend, text_keyed}
use rattler_build.Pins.{Versions, Pin}
use rattler_build.Recipe.Requirements as Requirements
use rattler_build.Pins.Apply.{apply}
use rattler_build.Resolve
use rattler_build.Recipe.Requirements.{Specs, Dependency, IgnoreRunExports, Requirements}
use rattler_build.Resolve.{
  PackageRecord, PackageIdentifier, Matching, RunExportsJson, DependencyInfo, RunExportDependency,
  ResolvedDependencies, FinalizedDependencies, as_run_export, spec,
}
use rattler_build.Resolve.Apply.{apply_variant, apply_dependency, apply_pin}
use rattler_build.Resolve.Environments.{
  insert_records, Compatibility, Output, Services, add_cached_depends, resolve_dependencies,
}
use rattler_build.Resolve.Stages.{records_of, resolve_dependencies-Stages, compat_of}

module _ (lib : Versions) (specs : Specs lib) (matching : Matching lib) {Variable Platform : Type 0}
    (show_variable : Variable → Text) (services : Services lib Platform)
    (requirements : Requirements lib specs) (output : Output lib specs Variable Platform) where
  abbrev pub named : PackageRecord lib → Text × PackageRecord lib
  named r = (r.name, r)

  -- The record that was solved for a name: the last of the host environment, or else of the build
  -- environment.
  abbrev pub solved_record : FinalizedDependencies lib → Text → Option (PackageRecord lib)
  solved_record fin pkg =
      elim (last_value pkg (
        map named
          (records_of lib specs matching show_variable services requirements output fin.host))) [
            | none ↦ last_value pkg (
                map named (
                  records_of lib specs matching show_variable services requirements output
                    fin.build))
            | some r ↦ some r
          ]

  abbrev pub IsListed : FinalizedDependencies lib → DependencyInfo lib → Type 0
  IsListed fin d = Any (λ d'. d' ≡ d) fin.run.depends

  -- A pin of a subpackage or of a solved package, applied to it, is a run dependency.
  abbrev pub IsPinned : FinalizedDependencies lib → Dependency lib specs → Type 0
  IsPinned fin (Requirements.spec m) = Unit
  IsPinned fin (Requirements.pin_subpackage pin) =
      (s : PackageIdentifier lib) × (lookup pin.name output.build_configuration.subpackages
        ≡ some s)
      × (m : lib.MatchSpec) × (apply lib pin s.version s.build_string ≡ ok m)
      × IsListed fin
          (Resolve.pin_subpackage (record { name = pin.name; args = pin.args; spec = m }))
  IsPinned fin (Requirements.pin_compatible pin) =
      (r : PackageRecord lib) × (solved_record fin pin.name ≡ some r)
      × (m : lib.MatchSpec) × (apply lib pin r.version r.build ≡ ok m)
      × IsListed fin
          (Resolve.pin_compatible (record { name = pin.name; args = pin.args; spec = m }))

  records-extend :
      (rs : List (PackageRecord lib))
      (compat : Compatibility lib specs matching show_variable services)
      → insert_records lib specs matching show_variable services rs compat
        ≡ extend compat (map named rs)
  unfolding insert_records extend
  records-extend [] compat = refl
  records-extend (r ∷ rs) compat = records-extend rs (insert r.name r compat)

  or_none : (o : Option (PackageRecord lib)) → elim o [ none ↦ none | some v ↦ some v ] ≡ o
  or_none none = refl
  or_none (some r) = refl

  lookup-compat_of :
      (fin : FinalizedDependencies lib) (pkg : Text)
      → lookup pkg (compat_of lib specs matching show_variable services requirements output fin)
        ≡ solved_record fin pkg
  unfolding lookup
  lookup-compat_of fin pkg =
      let hosts =
        map named
          (records_of lib specs matching show_variable services requirements output fin.host) in
      let builds =
        map named
          (records_of lib specs matching show_variable services requirements output fin.build) in
      let build_compat =
        insert_records lib specs matching show_variable services
          (records_of lib specs matching show_variable services requirements output fin.build) [] in
      ap (lookup pkg) (
        records-extend
          (records_of lib specs matching show_variable services requirements output fin.host)
          build_compat)
      ∙ (lookup-extend pkg build_compat hosts
          ∙ ap (λ o. elim (last_value pkg hosts) [ none ↦ o | some v ↦ some v ])
              (ap (lookup pkg) (
                  records-extend
                    (records_of lib specs matching show_variable services requirements output
                      fin.build)
                    [])
                ∙ (lookup-extend pkg [] builds ∙ or_none (last_value pkg builds))))

  Any-append : {X : Type 0} (P : X → Type 0) (xs ys : List X) → Any P xs → Any P (xs ++ ys)
  Any-append P [] ys h = absurd h
  Any-append P (x ∷ xs) ys (inl p) = inl p
  Any-append P (x ∷ xs) ys (inr a) = inr (Any-append P xs ys a)

  cached-Any :
      (P : DependencyInfo lib → Type 0) (ds : List (DependencyInfo lib))
      → Any P ds
      → Any P (add_cached_depends lib specs matching show_variable services requirements output ds)
  unfolding add_cached_depends
  cached-Any P ds a = elim (Option-cases output.finalized_cache_dependencies) [
    | inl n ↦ rw n a
    | inr (c, n) ↦ rw n (Any-append P ds _ a)
  ]

  pinned_by :
      (pin : Pin lib) (v : lib.Version) (b : Text) (fin : FinalizedDependencies lib)
      (m : lib.MatchSpec)
      → apply_pin lib specs matching show_variable output.build_configuration
          (compat_of lib specs matching show_variable services requirements output fin)
          false
          pin
          v
          b
        ≡ ok m
      → apply lib pin v b ≡ ok m
  unfolding apply_pin
  pinned_by pin v b fin m h = elim (Result-cases (apply lib pin v b)) [
    | inl (m', p) ↦ p ∙ ap ok (ok-injective (rw (p, apply_pin) at h))
    | inr (e, p) ↦ absurd (let q = rw (p, apply_pin) at h in cc)
  ]

  dependency-IsPinned :
      (fin : FinalizedDependencies lib) (dep : Dependency lib specs) (d : DependencyInfo lib)
      → apply_dependency lib specs matching show_variable output.build_configuration
          (compat_of lib specs matching show_variable services requirements output fin)
          false
          dep
        ≡ ok d
      → IsListed fin d
      → IsPinned fin dep
  unfolding apply_dependency
  dependency-IsPinned fin (Requirements.spec m) d h l = tt
  dependency-IsPinned fin (Requirements.pin_subpackage pin) d h l =
      elim (Option-cases (lookup pin.name output.build_configuration.subpackages)) [
        | inl n ↦ absurd (let q = rw (n, apply_dependency) at h in cc)
        | inr (s, n) ↦
            let (m, p, h') =
              >>=-eq-ok
                (apply_pin lib specs matching show_variable output.build_configuration
                  (compat_of lib specs matching show_variable services requirements output fin)
                  false pin s.version s.build_string)
                _ (rw (n, apply_dependency) at h) in
            (
              s,
              n,
              m,
              pinned_by pin s.version s.build_string fin m p,
              subst (IsListed fin) (sym (ok-injective h')) l,
            )
      ]
  dependency-IsPinned fin (Requirements.pin_compatible pin) d h l =
      elim (Option-cases (
        lookup pin.name
          (compat_of lib specs matching show_variable services requirements output fin))) [
            | inl n ↦ absurd (let q = rw (n, apply_dependency) at h in cc)
            | inr (r, n) ↦
                let (m, p, h') =
                  >>=-eq-ok
                    (apply_pin lib specs matching show_variable output.build_configuration
                      (compat_of lib specs matching show_variable services requirements output fin)
                      false pin r.version r.build)
                    _ (rw (n, apply_dependency) at h) in
                (
                  r,
                  sym (lookup-compat_of fin pin.name) ∙ n,
                  m,
                  pinned_by pin r.version r.build fin m p,
                  subst (IsListed fin) (sym (ok-injective h')) l,
                )
          ]

  -- If the resolution succeeds, every pin of the run requirements is among the run dependencies,
  -- applied to the subpackage of its name or to the package that was solved for its name, in the
  -- host environment or else in the build environment.
  pub run-IsPinned :
      (fin : FinalizedDependencies lib)
      → resolve_dependencies lib specs matching show_variable services requirements output ≡ ok fin
      → All (IsPinned fin) requirements.run
  unfolding apply_variant
  run-IsPinned fin h =
      let s =
        resolve_dependencies-Stages lib specs matching show_variable services requirements output
          fin h in
      All-weaken _ (IsPinned fin) requirements.run
        (λ dep (d, e, a). dependency-IsPinned fin dep d e (
          subst (Any (λ d'. d' ≡ d)) (sym s.depends_eq)
            (Any-append _ _ _ (cached-Any _ s.depends a))))
        (collect-Any
          (apply_dependency lib specs matching show_variable output.build_configuration
            (compat_of lib specs matching show_variable services requirements output fin) false)
          requirements.run s.depends s.depends_applied)
