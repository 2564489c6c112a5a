-- ===== src/Keys.antt =====
-- crates/rattler_build_types/src/variant_config/normalized_key.rs
use rattler_build.Prelude.{ℕ, Text, map, ◌==◌, ◌||◌, if◌then◌else◌}
use rattler_build.Prelude.Maps.{Keyed}

pub record NormalizedKey : Type 0 where
  pub text : Text

unfoldable pub normalize_char : ℕ → ℕ
normalize_char c = if c == b'-' || c == b'_' || c == b'.' then b'_' else c

unfoldable pub normalize : NormalizedKey → Text
unfolding normalize_char
normalize k = map normalize_char k.text

-- `PartialEq`, `Ord` and `Hash` all go by the normalized text.
instance abbrev pub normalized_keyed : Keyed NormalizedKey
normalized_keyed = record { key = normalize }
