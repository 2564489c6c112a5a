-- ===== src/Samples/Settings.antt =====
-- Platforms by their names.
use rattler_build.Prelude.{◌≡◌, refl, some, List, [], ◌∷◌, Text, codes, text_eq}
use rattler_build.Prelude.Maps.{lookup}
use rattler_build.Keys.{NormalizedKey, normalize, normalized_keyed}
use rattler_build.Recipe.Settings.{
  Platforms, RenderConfig, default_config, with_target_platform, create_jinja_config,
}

abbrev platforms : Platforms
platforms = record {
  Platform = Text;
  platform_eq = text_eq;
  parse_platform = λ s. some s;
  current = codes "linux-64";
}

abbrev to_text : Text → Text
to_text s = s

abbrev variant : List (NormalizedKey × Text)
variant = (record { text = codes "target_platform" }, codes "osx-arm64") ∷ []

abbrev config : RenderConfig platforms Text
config = default_config platforms Text

-- A variant that names a target platform only is evaluated for it as host platform too.
hosted :
    (create_jinja_config platforms Text to_text
      (with_target_platform platforms Text (codes "win-64") config)
      variant).host_platform
    ≡ codes "osx-arm64"
unfolding create_jinja_config with_target_platform lookup text_eq normalize
hosted = refl
