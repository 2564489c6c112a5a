-- ===== src/Resolve/Apply.antt =====
-- `apply_variant` of src/render/resolved_dependencies.rs.
use rattler_build.Prelude.{
  ◌==◌, Bool, not, ◌&&◌, ◌||◌, Option, none, some, List, ◌∷◌, Text, Result, ok, err, ◌>>=◌, collect,
  all, if◌then◌else◌,
}
use rattler_build.Prelude.Maps.{lookup, text_keyed}
use rattler_build.Keys.{NormalizedKey, normalized_keyed}
use rattler_build.Pins.{Versions, Pin}
use rattler_build.Pins.Apply.{apply}
use rattler_build.Recipe.Requirements.{Specs, Dependency, spec, pin_subpackage, pin_compatible}
use rattler_build.Resolve
use rattler_build.Resolve.{
  Matching, PackageRecord, PackageIdentifier, DependencyInfo, ResolveError, variant_spec_parse,
  pin_apply, pin_subpackage_not_found, pin_compatible_not_found, variant, source,
}

-- What the code reads of the build configuration. `Platform` and its solver settings stay abstract.
pub record BuildConfiguration (lib : Versions) (Variable Platform : Type 0) : Type 0 where
  pub variant : List (NormalizedKey × Variable)
  pub subpackages : List (Text × PackageIdentifier lib)
  pub target_platform : Platform
  pub host_platform : Platform
  pub build_platform : Platform

module _ (lib : Versions) (specs : Specs lib) (matching : Matching lib) where
  open matching use {
    Matcher, SpecError, exact, show_matcher, has_version, has_build, parse_nameless, from_nameless,
    is_alphanumeric,
  }

  abbrev pub Fallible : Type 0 → Type 0
  Fallible = Result (ResolveError lib SpecError)

  module _ {Variable Platform : Type 0} (show_variable : Variable → Text)
      (build_configuration : BuildConfiguration lib Variable Platform)
      (compatibility_specs : List (Text × PackageRecord lib)) (build_time : Bool) where
    open build_configuration use {subpackages}

    -- The value of the variant for a spec that names a package and asks for nothing else.
    unfoldable pub variant_value : lib.MatchSpec → Option (Matcher × Variable)
    variant_value m =
        if build_time && (not (has_version m) && not (has_build m))
        then elim (matching.name m) [
          | none ↦ none
          | some name ↦
              elim (lookup (record { text = show_matcher name }) build_configuration.variant) [
                | none ↦ none
                | some version ↦ some (name, version)
              ]
        ]
        else none

    -- `=` in front of a version of letters, digits and dots.
    unfoldable pub version_spec : Text → Text
    version_spec version =
        if all (λ c. is_alphanumeric c || c == b'.') version then b'=' ∷ version else version

    unfoldable pub apply_spec : lib.MatchSpec → Fallible (DependencyInfo lib)
    unfolding variant_value version_spec
    apply_spec m = elim (variant_value m) [
      | none ↦ ok (source (record { spec = m }))
      | some (name, version) ↦ elim (parse_nameless (version_spec (show_variable version))) [
        | err e ↦ err (variant_spec_parse (show_matcher name) e)
        | ok nameless ↦ ok (
            variant
              (record { spec = from_nameless nameless (some name); variant = show_matcher name }))
      ]
    ]

    -- `?` on the result of `Pin::apply`.
    unfoldable pub apply_pin : Pin lib → lib.Version → Text → Fallible lib.MatchSpec
    unfolding apply
    apply_pin pin version build_string = elim (apply lib pin version build_string) [
      | ok m ↦ ok m
      | err e ↦ err (pin_apply e)
    ]

    unfoldable pub apply_dependency : Dependency lib specs → Fallible (DependencyInfo lib)
    unfolding apply_spec apply_pin
    apply_dependency (spec m) = apply_spec m
    apply_dependency (pin_subpackage pin) = elim (lookup pin.name subpackages) [
      | none ↦ err (pin_subpackage_not_found pin.name)
      | some subpackage ↦ do
        pinned ← apply_pin pin subpackage.version subpackage.build_string
        ok (Resolve.pin_subpackage (record { name = pin.name; args = pin.args; spec = pinned }))
    ]
    apply_dependency (pin_compatible pin) = elim (lookup pin.name compatibility_specs) [
      | none ↦ err (pin_compatible_not_found pin.name)
      | some pin_package ↦ do
        pinned ← apply_pin pin pin_package.version pin_package.build
        ok (Resolve.pin_compatible (record { name = pin.name; args = pin.args; spec = pinned }))
    ]

    unfoldable pub apply_variant :
        List (Dependency lib specs) → Fallible (List (DependencyInfo lib))
    unfolding apply_dependency collect
    apply_variant raw_specs = collect apply_dependency raw_specs
