-- ===== src/Resolve/Requested.antt =====
-- The dependencies that a recipe asks for are no run exports.
use rattler_build.Prelude.{
  ◌≡◌, refl, subst, inl, inr, Bool, Option-cases, none, List, Text, ok, >>=-eq-ok, Result-cases,
  ok-injective, All, All-collect,
}
use rattler_build.Prelude.Maps.{lookup, text_keyed}
use rattler_build.Pins.{Versions}
use rattler_build.Recipe.Requirements as Requirements
use rattler_build.Recipe.Requirements.{Specs, Dependency, IgnoreRunExports, Requirements}
use rattler_build.Resolve.{Matching, PackageRecord, DependencyInfo, as_run_export}
use rattler_build.Resolve.Apply.{
  BuildConfiguration, apply_variant, apply_dependency, apply_spec, apply_pin, variant_value,
  version_spec,
}

module _ (lib : Versions) (specs : Specs lib) (matching : Matching lib) {Variable Platform : Type 0}
    (show_variable : Variable → Text) (configuration : BuildConfiguration lib Variable Platform)
    (compat : List (Text × PackageRecord lib)) (build_time : Bool) where
  abbrev pub IsRequested : DependencyInfo lib → Type 0
  IsRequested d = as_run_export lib d ≡ none

  spec-IsRequested :
      (m : lib.MatchSpec) (d : DependencyInfo lib)
      → apply_spec lib specs matching show_variable configuration compat build_time m ≡ ok d
      → IsRequested d
  unfolding apply_spec as_run_export
  spec-IsRequested m d h =
      elim (Option-cases
        (variant_value lib specs matching show_variable configuration compat build_time m)) [
          | inl n ↦ subst IsRequested (ok-injective (rw (n, apply_spec) at h)) refl
          | inr ((name, version), n) ↦
              elim (Result-cases (
                matching.parse_nameless (
                  version_spec lib specs matching show_variable configuration compat build_time
                    (show_variable version)))) [
                      | inl (nameless, p) ↦
                          subst IsRequested (ok-injective (rw (n, p, apply_spec) at h)) refl
                      | inr (e, p) ↦ absurd (let q = rw (n, p, apply_spec) at h in cc)
                    ]
        ]

  dependency-IsRequested :
      (dep : Dependency lib specs) (d : DependencyInfo lib)
      → apply_dependency lib specs matching show_variable configuration compat build_time dep ≡ ok d
      → IsRequested d
  unfolding apply_dependency as_run_export
  dependency-IsRequested (Requirements.spec m) d h = spec-IsRequested m d h
  dependency-IsRequested (Requirements.pin_subpackage pin) d h =
      elim (Option-cases (lookup pin.name configuration.subpackages)) [
        | inl n ↦ absurd (let q = rw (n, apply_dependency) at h in cc)
        | inr (s, n) ↦
            let (m, p, h') =
              >>=-eq-ok
                (apply_pin lib specs matching show_variable configuration compat build_time pin
                  s.version s.build_string)
                _ (rw (n, apply_dependency) at h) in
            subst IsRequested (ok-injective h') refl
      ]
  dependency-IsRequested (Requirements.pin_compatible pin) d h =
      elim (Option-cases (lookup pin.name compat)) [
        | inl n ↦ absurd (let q = rw (n, apply_dependency) at h in cc)
        | inr (s, n) ↦
            let (m, p, h') =
              >>=-eq-ok
                (apply_pin lib specs matching show_variable configuration compat build_time pin
                  s.version s.build)
                _ (rw (n, apply_dependency) at h) in
            subst IsRequested (ok-injective h') refl
      ]

  pub apply_variant-IsRequested :
      (deps : List (Dependency lib specs)) (ds : List (DependencyInfo lib))
      → apply_variant lib specs matching show_variable configuration compat build_time deps ≡ ok ds
      → All IsRequested ds
  unfolding apply_variant
  apply_variant-IsRequested deps ds h = All-collect _ IsRequested deps ds dependency-IsRequested h
