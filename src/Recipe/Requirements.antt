-- ===== src/Recipe/Requirements.antt =====
-- crates/rattler_build_recipe/src/stage1/requirements.rs. A match spec is a value of the package
-- library; `exact_name` is the name that it gives if it gives one exactly, and `is_free` tells
-- whether it has no constraint. Package names are their normalized texts.
use rattler_build.Prelude.{
  Bool, Option, none, some, List, ◌++◌, Text, is_empty, ◌&&◌, keep, collect_some, if◌then◌else◌,
}
use rattler_build.Prelude.Maps.{text_keyed}
use rattler_build.Pins.{Versions, Pin}

-- What the code asks of a match spec.
pub record Specs (lib : Versions) : Type 0 where
  pub exact_name : lib.MatchSpec → Option Text
  pub is_free : lib.MatchSpec → Bool

module _ (lib : Versions) (specs : Specs lib) where
  pub data Dependency : Type 0 where
    spec : lib.MatchSpec → Dependency
    pin_subpackage : Pin lib → Dependency
    pin_compatible : Pin lib → Dependency

  pub record RunExports : Type 0 where
    pub noarch : List Dependency
    pub strong : List Dependency
    pub strong_constraints : List Dependency
    pub weak : List Dependency
    pub weak_constraints : List Dependency

  -- `RunExports::is_empty`
  unfoldable pub exports_empty : RunExports → Bool
  exports_empty e =
      is_empty e.noarch
      && is_empty e.strong
      && is_empty e.strong_constraints
      && is_empty e.weak
      && is_empty e.weak_constraints

  pub record IgnoreRunExports : Type 0 where
    pub by_name : List Text
    pub from_package : List Text

  pub record Requirements : Type 0 where
    pub build : List Dependency
    pub host : List Dependency
    pub run : List Dependency
    pub run_constraints : List Dependency
    pub run_exports : RunExports
    pub ignore_run_exports : IgnoreRunExports

  unfoldable pub name : Dependency → Option Text
  name (spec s) = specs.exact_name s
  name (pin_subpackage pin) = some pin.name
  name (pin_compatible pin) = some pin.name

  unfoldable pub all_requirements : Requirements → List Dependency
  all_requirements r =
      r.build
      ++ (r.host
          ++ (r.run
              ++ (r.run_constraints
                  ++ (r.run_exports.weak
                      ++ (r.run_exports.weak_constraints
                          ++ (r.run_exports.strong
                              ++ (r.run_exports.strong_constraints ++ r.run_exports.noarch)))))))

  unfoldable pub build_host : Requirements → List Dependency
  build_host r = r.build ++ r.host

  unfoldable pub run_exports_and_constraints : Requirements → List Dependency
  run_exports_and_constraints r =
      r.run_exports.noarch
      ++ (r.run_exports.strong
          ++ (r.run_exports.strong_constraints
              ++ (r.run_exports.weak
                  ++ (r.run_exports.weak_constraints ++ (r.run_constraints ++ r.run)))))

  abbrev pub free_name : Dependency → Option Text
  free_name (spec s) = if specs.is_free s then specs.exact_name s else none
  free_name (pin_subpackage _) = none
  free_name (pin_compatible _) = none

  unfoldable pub free_specs : Requirements → List Text
  free_specs r = collect_some free_name (r.build ++ r.host)

  abbrev pub subpackage_pin : Dependency → Option (Pin lib)
  subpackage_pin (pin_subpackage pin) = some pin
  subpackage_pin (spec _) = none
  subpackage_pin (pin_compatible _) = none

  unfoldable pub all_pin_subpackages : Requirements → List (Pin lib)
  unfolding all_requirements
  all_pin_subpackages r = collect_some subpackage_pin (all_requirements r)

  unfoldable pub exact_pin_subpackages : Requirements → List (Pin lib)
  unfolding all_pin_subpackages
  exact_pin_subpackages r = keep (λ pin. pin.args.exact) (all_pin_subpackages r)

  abbrev pub compatible_pin : Dependency → Option (Pin lib)
  compatible_pin (pin_compatible pin) = some pin
  compatible_pin (spec _) = none
  compatible_pin (pin_subpackage _) = none

  unfoldable pub all_pin_compatible : Requirements → List (Pin lib)
  unfolding all_requirements
  all_pin_compatible r = collect_some compatible_pin (all_requirements r)

  -- `extract_dependency_names` of variant_render.rs
  abbrev pub subpackage_name : Dependency → Option Text
  subpackage_name (pin_subpackage pin) = some pin.name
  subpackage_name (spec _) = none
  subpackage_name (pin_compatible _) = none

  unfoldable pub extract_dependency_names : Requirements → List Text
  unfolding build_host run_exports_and_constraints name
  extract_dependency_names r =
      collect_some name (build_host r)
      ++ collect_some subpackage_name (run_exports_and_constraints r)
