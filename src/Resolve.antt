-- ===== src/Resolve.antt =====
-- src/render/resolved_dependencies.rs: the data of the resolution of an output's dependencies.
-- `Apply` is apply_variant, `Exports` has the run exports of an environment and
-- src/render/run_exports.rs, `Environments` is resolve_dependencies.
pub mod Apply
pub mod Exports
pub mod Filtered
pub mod Exported
pub mod Environments
pub mod Stages
pub mod Requested
pub mod Permitted
pub mod Solved
pub mod Pinned
pub mod Depends
use rattler_build.Prelude.{ℕ, Bool, Option, none, some, List, Text, Result}
use rattler_build.Pins.{Versions, PinArgs, PinError}
use rattler_build.Recipe.Requirements.{Specs, IgnoreRunExports, Requirements, RunExports}

-- What the code asks of match specs and name matchers, which `rattler_conda_types` implements.
pub record Matching (lib : Versions) : Type 1 where
  pub Matcher : Type 0
  pub NamelessSpec : Type 0
  pub SpecError : Type 0
  -- `PackageNameMatcher::Exact`, and the `Display` of a matcher.
  pub exact : Matcher → Option Text
  pub show_matcher : Matcher → Text
  pub name : lib.MatchSpec → Option Matcher
  pub has_version : lib.MatchSpec → Bool
  pub has_build : lib.MatchSpec → Bool
  pub parse_nameless : Text → Result SpecError NamelessSpec
  pub from_nameless : NamelessSpec → Option Matcher → lib.MatchSpec
  -- `MatchSpec::from_str(s, Lenient)` and `to_string`.
  pub parse_lenient : Text → Result SpecError lib.MatchSpec
  pub show : lib.MatchSpec → Text
  -- `char::is_alphanumeric`
  pub is_alphanumeric : ℕ → Bool

-- `RunExportsJson` of `rattler_conda_types`: the specs as texts.
pub record RunExportsJson : Type 0 where
  pub weak : List Text
  pub strong : List Text
  pub noarch : List Text
  pub weak_constrains : List Text
  pub strong_constrains : List Text

module _ (lib : Versions) where
  -- What the code reads of a `PackageRecord`.
  pub record PackageRecord : Type 0 where
    pub name : Text
    pub version : lib.Version
    pub build : Text
    pub run_exports : Option RunExportsJson

  pub record PackageIdentifier : Type 0 where
    pub version : lib.Version
    pub build_string : Text

  pub record VariantDependency : Type 0 where
    pub variant : Text
    pub spec : lib.MatchSpec

  pub record PinSubpackageDependency : Type 0 where
    pub name : Text
    pub args : PinArgs lib
    pub spec : lib.MatchSpec

  pub record PinCompatibleDependency : Type 0 where
    pub name : Text
    pub args : PinArgs lib
    pub spec : lib.MatchSpec

  pub record RunExportDependency : Type 0 where
    pub spec : lib.MatchSpec
    pub from : Text
    pub source_package : Text

  pub record SourceDependency : Type 0 where
    pub spec : lib.MatchSpec

  pub data DependencyInfo : Type 0 where
    variant : VariantDependency → DependencyInfo
    pin_subpackage : PinSubpackageDependency → DependencyInfo
    pin_compatible : PinCompatibleDependency → DependencyInfo
    run_export : RunExportDependency → DependencyInfo
    source : SourceDependency → DependencyInfo

  pub record ResolvedDependencies : Type 0 where
    pub specs : List DependencyInfo
    pub resolved : List PackageRecord

  pub record FinalizedRunDependencies : Type 0 where
    pub depends : List DependencyInfo
    pub constraints : List DependencyInfo
    pub run_exports : RunExportsJson

  pub record FinalizedDependencies : Type 0 where
    pub build : Option ResolvedDependencies
    pub host : Option ResolvedDependencies
    pub run : FinalizedRunDependencies

  unfoldable pub spec : DependencyInfo → lib.MatchSpec
  spec (variant d) = d.spec
  spec (pin_subpackage d) = d.spec
  spec (pin_compatible d) = d.spec
  spec (run_export d) = d.spec
  spec (source d) = d.spec

  -- `as_run_export`
  unfoldable pub as_run_export : DependencyInfo → Option RunExportDependency
  as_run_export (run_export d) = some d
  as_run_export (variant _) = none
  as_run_export (pin_subpackage _) = none
  as_run_export (pin_compatible _) = none
  as_run_export (source _) = none

  pub data ResolveError (SpecError : Type 0) : Type 0 where
    dependency_resolution : Text → ResolveError SpecError
    could_not_collect_run_exports : Text → ResolveError SpecError
    match_spec_parse : SpecError → ResolveError SpecError
    variant_spec_parse : Text → SpecError → ResolveError SpecError
    pin_apply : PinError lib → ResolveError SpecError
    pin_subpackage_not_found : Text → ResolveError SpecError
    pin_compatible_not_found : Text → ResolveError SpecError
