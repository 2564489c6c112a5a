-- ===== src/Recipe/Settings.antt =====
-- `RenderConfig` with its builders, `create_jinja_config` and the variables of
-- `build_evaluation_context`, of crates/rattler_build_recipe/src/variant_render.rs. Platforms belong
-- to rattler_conda_types and are the record `Platforms`.
use rattler_build.Prelude.{
  not, Bool, false, Option, none, some, List, [], ◌∷◌, Text, if◌then◌else◌, codes,
}
use rattler_build.Prelude.Maps.{lookup, insert, text_keyed}
use rattler_build.Keys.{NormalizedKey, normalize, normalized_keyed}

pub record Platforms : Type 1 where
  pub Platform : Type 0
  pub platform_eq : Platform → Platform → Bool
  pub parse_platform : Text → Option Platform
  pub current : Platform

module _ (platforms : Platforms) (V : Type 0) where
  open platforms use {Platform, platform_eq, parse_platform, current}

  pub record RenderConfig : Type 0 where
    pub extra_context : List (Text × V)
    pub experimental : Bool
    pub recipe_path : Option Text
    pub target_platform : Platform
    pub build_platform : Platform
    pub host_platform : Platform
    pub os_env_var_keys : List Text

  -- `RenderConfig::default`, which `new` returns.
  abbrev pub default_config : RenderConfig
  default_config = record {
    extra_context = [];
    experimental = false;
    recipe_path = none;
    target_platform = current;
    build_platform = current;
    host_platform = current;
    os_env_var_keys = [];
  }

  unfoldable pub with_context : Text → V → RenderConfig → RenderConfig
  with_context key value config = record config {
    extra_context = insert key value config.extra_context;
  }

  unfoldable pub with_experimental : Bool → RenderConfig → RenderConfig
  with_experimental experimental config = record config { experimental = experimental }

  unfoldable pub with_recipe_path : Text → RenderConfig → RenderConfig
  with_recipe_path path config = record config { recipe_path = some path }

  unfoldable pub with_target_platform : Platform → RenderConfig → RenderConfig
  with_target_platform platform config = record config {
    target_platform = platform;
    host_platform = platform;
  }

  unfoldable pub with_build_platform : Platform → RenderConfig → RenderConfig
  with_build_platform platform config = record config { build_platform = platform }

  unfoldable pub with_host_platform : Platform → RenderConfig → RenderConfig
  with_host_platform platform config = record config { host_platform = platform }

  unfoldable pub with_os_env_var_keys : List Text → RenderConfig → RenderConfig
  with_os_env_var_keys keys config = record config { os_env_var_keys = keys }

  -- The fields that `create_jinja_config` sets.
  pub record JinjaConfig : Type 0 where
    pub experimental : Bool
    pub recipe_path : Option Text
    pub target_platform : Platform
    pub build_platform : Platform
    pub host_platform : Platform
    pub variant : List (NormalizedKey × V)

  module _ (to_text : V → Text) where
    -- `variant.get(key).and_then(|v| v.to_string().parse().ok())`
    unfoldable pub variant_platform : Text → List (NormalizedKey × V) → Option Platform
    variant_platform key variant = elim (lookup (record { text = key }) variant) [
      | none ↦ none
      | some v ↦ parse_platform (to_text v)
    ]

    abbrev or_else : Option Platform → Platform → Platform
    or_else none p = p
    or_else (some q) p = q

    unfoldable pub create_jinja_config : RenderConfig → List (NormalizedKey × V) → JinjaConfig
    unfolding variant_platform
    create_jinja_config config variant =
        let target =
          or_else (variant_platform (codes "target_platform") variant) config.target_platform in
        let host = or_else (variant_platform (codes "host_platform") variant) (
          if not (platform_eq config.host_platform config.target_platform)
          then config.host_platform
          else target) in
        record {
          experimental = config.experimental;
          recipe_path = config.recipe_path;
          target_platform = target;
          build_platform = config.build_platform;
          host_platform = host;
          variant = variant;
        }

  -- The variables of the evaluation context: the extra context, overridden by the variant.
  unfoldable pub context_variables : List (Text × V) → List (NormalizedKey × V) → List (Text × V)
  context_variables m [] = m
  context_variables m ((k, v) ∷ variant) = context_variables (insert (normalize k) v m) variant
