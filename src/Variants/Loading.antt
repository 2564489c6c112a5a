-- ===== src/Variants/Loading.antt =====
-- crates/rattler_build_variant_config/src/conda_build_config.rs: a file with selectors, read as a
-- configuration. The file system and the YAML library are parameters.
use rattler_build.Prelude.{
  Bool, false, not, Option, none, some, List, Text, Result, ok, err, ◌>>=◌, keep, codes, text_eq,
  if◌then◌else◌,
}
use rattler_build.Variants.Config.{VariantConfig, empty}
use rattler_build.Variants.Selectors.{Selecting, select_lines}

pub data VariantConfigError (ParseError IoError : Type 0) : Type 0 where
  parse_error : Text → ParseError → VariantConfigError ParseError IoError
  io_error : Text → IoError → VariantConfigError ParseError IoError
  invalid_config : Text → VariantConfigError ParseError IoError

-- Values of the YAML library, and their deserialization into a configuration.
pub record Yaml (V : Type 0) : Type 1 where
  pub YamlValue : Type 0
  pub from_str : Text → Result Text YamlValue
  pub is_null : YamlValue → Bool
  pub as_str : YamlValue → Option Text
  pub as_mapping : YamlValue → Option (List (YamlValue × YamlValue))
  pub mapping : List (YamlValue × YamlValue) → YamlValue
  pub from_value : YamlValue → Result Text (VariantConfig V)

abbrev invalid :
    {ParseError IoError A : Type 0}
    → Result Text A
    → Result (VariantConfigError ParseError IoError) A
invalid (ok a) = ok a
invalid (err e) = err (invalid_config e)

module _ {V : Type 0} (yaml : Yaml V) where
  open yaml use {YamlValue, is_null, as_str}

  -- An entry that the filter keeps.
  unfoldable pub is_supported : YamlValue × YamlValue → Bool
  unfolding text_eq
  is_supported (k, v) =
      let present : Bool = not (is_null v) in
      elim (as_str k) [
        | none ↦ present
        | some s ↦ if text_eq s (codes "pin_run_as_build") then false else present
      ]

module _ {V : Type 0} (ParseError IoError : Type 0) (yaml : Yaml V) (selecting : Selecting) where
  open yaml use {from_str, is_null, as_mapping, mapping, from_value}

  unfoldable pub parse_conda_build_config :
      Text → Result (VariantConfigError ParseError IoError) (VariantConfig V)
  unfolding select_lines is_supported
  parse_conda_build_config input = invalid (from_str (select_lines selecting input)) >>= λ value.
      if is_null value then ok empty else elim (as_mapping value) [
        | none ↦ err (invalid_config (codes "Expected conda_build_config.yaml to be a mapping"))
        | some entries ↦ invalid (from_value (mapping (keep (is_supported yaml) entries)))
      ]

  -- With `read_to_string`.
  unfoldable pub load_conda_build_config :
      (Text → Result IoError Text)
      → Text
      → Result (VariantConfigError ParseError IoError) (VariantConfig V)
  unfolding parse_conda_build_config
  load_conda_build_config read_to_string path = elim (read_to_string path) [
    | ok input ↦ parse_conda_build_config input
    | err e ↦ err (io_error path e)
  ]
