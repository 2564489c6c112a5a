-- ===== src/Recipe/Rendered.antt =====
-- The records of crates/rattler_build_recipe/src/variant_render.rs, with the fields of an
-- evaluated recipe that the rendering reads, and the build string of stage1/build.rs.
use rattler_build.Prelude.{ℕ, Bool, Option, List, Text}
use rattler_build.Keys.{NormalizedKey}
use rattler_build.Pins.{Versions}
use rattler_build.Recipe.Hash.{HashInfo}
use rattler_build.Recipe.Requirements.{Specs, Requirements}

-- `BuildString`, without the spans.
pub data BuildString : Type 0 where
  default : BuildString
  unresolved : Text → BuildString
  resolved : Text → BuildString

-- The fields of `stage1::Recipe` that are read here. `noarch` has, if it is set, what its `is_python`
-- gives.
pub record Recipe (lib : Versions) (specs : Specs lib) (V : Type 0) : Type 0 where
  pub name : Text
  pub version : lib.Version
  pub requirements : Requirements lib specs
  pub build_string : BuildString
  pub build_number : Option ℕ
  pub noarch : Option Bool
  pub use_keys : List Text
  pub ignore_keys : List Text
  pub used_variant : List (NormalizedKey × V)
  pub context : List (Text × V)

pub record PinSubpackageInfo (lib : Versions) : Type 0 where
  pub name : Text
  pub version : lib.Version
  pub build_string : Option Text
  pub exact : Bool

pub record RenderedVariant (lib : Versions) (specs : Specs lib) (V : Type 0) : Type 0 where
  pub variant : List (NormalizedKey × V)
  pub full_combination : List (NormalizedKey × V)
  pub recipe : Recipe lib specs V
  pub pin_subpackages : List (NormalizedKey × PinSubpackageInfo lib)
  pub hash_info : Option HashInfo
