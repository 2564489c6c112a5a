-- ===== src/Recipe/Hash.antt =====
-- crates/rattler_build_recipe/src/stage1/hash.rs, and `short_version` of
-- crates/rattler_build_types/src/lib.rs. The JSON texts of a key and of a value, the text of a value
-- and the hexadecimal SHA-1 digest are parameters. `Input` has the proof.
pub mod Input
use rattler_build.Prelude.{
  ℕ, zero, suc, ◌||◌, Bool, true, false, Option, none, some, List, [], ◌∷◌, ◌++◌, Text,
  if◌then◌else◌, codes, text_eq,
}
use rattler_build.Prelude.Strings.{split}
use rattler_build.Prelude.Maps.{lookup, insert, text_keyed}
use rattler_build.Keys.{NormalizedKey, normalize}

pub record HashInfo : Type 0 where
  pub hash : Text
  pub prefix : Text

-- The loop of `short_version` over the parts that are left.
unfoldable pub push_parts : ℕ → List Text → Text
push_parts zero parts = []
push_parts (suc n) [] = []
push_parts (suc n) (part ∷ parts) = part ++ push_parts n parts

unfoldable pub short_version : Text → ℕ → Text
unfolding push_parts split
short_version input length = push_parts length (split b'.' input)

-- The first `match` of `hash_prefix`; none continues with the next key.
unfoldable pub prefix_of : Text → Option Text
prefix_of k =
    if text_eq k (codes "numpy")
    then some (codes "np")
    else if text_eq k (codes "python")
    then some (codes "py")
    else if text_eq k (codes "perl")
    then some (codes "pl")
    else if text_eq k (codes "lua")
    then some (codes "lua")
    else if text_eq k (codes "r") || text_eq k (codes "r-base") || text_eq k (codes "r_base")
    then some (codes "r")
    else none

unfoldable pub version_length : Text → ℕ
version_length prefix = if text_eq prefix (codes "pl") then 3 else 2

abbrev pub prefix_order : List Text
prefix_order = codes "np" ∷ codes "py" ∷ codes "pl" ∷ codes "lua" ∷ codes "r" ∷ codes "mro" ∷ []

-- The loop that writes the prefixes in their order.
unfoldable pub push_prefixes : List (Text × Text) → List Text → Text
push_prefixes m [] = []
push_prefixes m (key ∷ order) =
    let rest = push_prefixes m order in
    elim (lookup key m) [ none ↦ rest | some value ↦ key ++ (value ++ rest) ]

-- `res[..n]`
unfoldable pub first_chars : ℕ → Text → Text
first_chars zero s = []
first_chars (suc n) [] = []
first_chars (suc n) (c ∷ s) = c ∷ first_chars n s

abbrev pub hash_length : ℕ
hash_length = 7

module _ {V : Type 0} (to_text : V → Text) where
  -- The loop that fills the map of the prefixes.
  unfoldable pub prefix_map : List (NormalizedKey × V) → List (Text × Text) → List (Text × Text)
  unfolding prefix_of version_length short_version
  prefix_map [] m = m
  prefix_map ((k, v) ∷ variant) m = elim (prefix_of (normalize k)) [
    | none ↦ prefix_map variant m
    | some prefix ↦
        prefix_map variant (insert prefix (short_version (to_text v) (version_length prefix)) m)
  ]

  unfoldable pub hash_prefix : List (NormalizedKey × V) → Bool → Text
  unfolding prefix_map push_prefixes
  hash_prefix variant true = codes "py"
  hash_prefix variant false = push_prefixes (prefix_map variant []) prefix_order

module _ {V : Type 0} (json_string : Text → Text) (to_json : V → Text) where
  -- The entries of a map, each with its separators, and the end of the map.
  unfoldable pub json_entry : Text → NormalizedKey × V → Text → Text
  json_entry separator (k, v) rest =
      separator ++ (json_string (normalize k) ++ (codes ": " ++ (to_json v ++ rest)))

  unfoldable pub json_entries : List (NormalizedKey × V) → Text
  unfolding json_entry
  json_entries [] = codes "}"
  json_entries (e ∷ variant) = json_entry (codes ", ") e (json_entries variant)

  -- `HashInput::from_variant`, with the separators of `PythonFormatter`.
  unfoldable pub hash_input : List (NormalizedKey × V) → Text
  unfolding json_entries
  hash_input [] = codes "{}"
  hash_input (e ∷ variant) = codes "{" ++ json_entry [] e (json_entries variant)

  module _ (sha1_hex : Text → Text) (to_text : V → Text) where
    unfoldable pub hash_from_input : Text → Text
    unfolding first_chars
    hash_from_input input = first_chars hash_length (sha1_hex input)

    -- `HashInfo::from_variant`; the second argument is `noarch.is_python()`.
    unfoldable pub hash_info : List (NormalizedKey × V) → Bool → HashInfo
    unfolding hash_input hash_prefix hash_from_input
    hash_info variant is_python = record {
      hash = hash_from_input (hash_input variant);
      prefix = hash_prefix to_text variant is_python;
    }

-- `Display` of a `HashInfo`
unfoldable pub display_hash : HashInfo → Text
display_hash info = info.prefix ++ (codes "h" ++ info.hash)
