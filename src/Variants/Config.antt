-- ===== src/Variants/Config.antt =====
-- crates/rattler_build_variant_config/src/config.rs: the configuration and its methods. Loading
-- from files and text is not modelled here.
use rattler_build.Prelude.{Option, none, some, List, [], ◌∷◌, Text, Result}
use rattler_build.Prelude.Maps.{lookup, insert, extend}
use rattler_build.Keys.{NormalizedKey, normalized_keyed}
use rattler_build.Variants.Combination.{VariantExpandError, Assignment, compute_combinations}

pub record VariantConfig (V : Type 0) : Type 0 where
  pub zip_keys : Option (List (List NormalizedKey))
  pub variants : List (NormalizedKey × List V)

-- `as_deref().unwrap_or(&[])`
abbrev or_no_zips : Option (List (List NormalizedKey)) → List (List NormalizedKey)
or_no_zips none = []
or_no_zips (some z) = z

module _ {V : Type 0} where
  abbrev pub empty : VariantConfig V
  empty = record { zip_keys = none; variants = [] }

  unfoldable pub merge : VariantConfig V → VariantConfig V → VariantConfig V
  merge config other = record {
    zip_keys = elim other.zip_keys [ none ↦ config.zip_keys | some z ↦ some z ];
    variants = extend config.variants other.variants;
  }

  -- The loop of `from_files_with_context`, over the configurations that the files hold.
  unfoldable pub merge_files : VariantConfig V → List (VariantConfig V) → VariantConfig V
  unfolding merge
  merge_files config [] = config
  merge_files config (c ∷ cs) = merge_files (merge config c) cs

  unfoldable pub insert_values : NormalizedKey → List V → VariantConfig V → VariantConfig V
  insert_values k values config = record config { variants = insert k values config.variants }

  unfoldable pub get : VariantConfig V → NormalizedKey → Option (List V)
  get config k = lookup k config.variants

  unfoldable pub combinations :
      (Assignment V → Text)
      → VariantConfig V
      → List NormalizedKey
      → Result VariantExpandError (List (Assignment V))
  unfolding compute_combinations
  combinations debug config used =
      compute_combinations debug config.variants (or_no_zips config.zip_keys) used
