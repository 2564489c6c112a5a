-- ===== src/Patch/Paths.antt =====
-- src/source/patch.rs: the files that a patch names, and how many components are stripped of them. A
-- path is the list of its components; an absolute one starts with the root `/`.
use rattler_build.Prelude.{
  ℕ, zero, suc, max, Bool, false, not, ◌&&◌, ◌||◌, Option, none, some, List, [], ◌∷◌, ◌++◌, Text,
  length, any, keep, is_empty, codes, text_eq, if◌then◌else◌,
}
use rattler_build.Prelude.Strings.{split}
use rattler_build.Packaging.Names.{extension, file_stem, path_eq}

abbrev pub root : Text
root = codes "/"

-- A component that `Path::components` keeps behind the first one.
abbrev is_kept : Text → Bool
is_kept c = not (is_empty c) && not (text_eq c (codes "."))

-- `Path::components` of a text, on Unix.
unfoldable pub components : Text → List Text
unfolding split text_eq
components s = if is_empty s then [] else elim (split b'/' s) [
  | [] ↦ []
  | first ∷ rest ↦ (if is_empty first then root else first) ∷ keep is_kept rest
]

-- `Path::file_name`
unfoldable pub name_of : List Text → Option Text
unfolding text_eq
name_of [] = none
name_of (c ∷ []) =
    if text_eq c root || text_eq c (codes ".") || text_eq c (codes "..") then none else some c
name_of (c ∷ d ∷ path) = name_of (d ∷ path)

-- The components of `Path::join`: a `.` is one only at the start of a path.
unfoldable pub join_path : List Text → List Text → List Text
unfolding text_eq
join_path dir [] = dir
join_path [] (c ∷ path) = c ∷ path
join_path (d ∷ dir) (c ∷ path) =
    if text_eq c root
    then c ∷ path
    else if text_eq c (codes ".")
    then (d ∷ dir) ++ path
    else (d ∷ dir) ++ (c ∷ path)

unfoldable pub skip : ℕ → List Text → List Text
skip zero path = path
skip (suc n) [] = []
skip (suc n) (c ∷ path) = skip n path

-- The original is a backup of the modified file.
unfoldable pub is_backup : List Text → List Text → Bool
unfolding name_of extension file_stem
is_backup orig modified = elim (name_of orig) [
  | none ↦ false
  | some name ↦ elim (extension name) [
    | none ↦ false
    | some ext ↦ elim (name_of modified) [
      | none ↦ false
      | some mod_filename ↦
          (text_eq ext (codes "orig") || text_eq ext (codes "bak"))
          && text_eq (file_stem name) mod_filename
    ]
  ]
]

unfoldable pub normalize_backup_paths :
    Option (List Text) → Option (List Text) → Option (List Text) × Option (List Text)
unfolding path_eq is_backup
normalize_backup_paths none modified = (none, modified)
normalize_backup_paths (some orig) none = (some orig, none)
normalize_backup_paths (some orig) (some modified) =
    if path_eq orig modified
    then (some orig, some modified)
    else if is_backup orig modified
    then (some modified, some modified)
    else (some orig, some modified)

-- A diff of a parsed patch: its paths, with `none` for one that is missing or not UTF-8, and its hunks.
pub record Diff (Hunks : Type 0) : Type 0 where
  pub original : Option Text
  pub modified : Option Text
  pub hunks : Hunks

abbrev path_of : Option Text → Option (List Text)
path_of none = none
path_of (some s) = some (components s)

-- `insert` into the set of affected files, which is kept as a list.
unfoldable pub insert_path : Option (List Text) → List (List Text) → List (List Text)
unfolding path_eq
insert_path none files = files
insert_path (some path) files = if any (path_eq path) files then files else path ∷ files

unfoldable pub max_components : List (List Text) → ℕ
max_components [] = 0
max_components (p ∷ ps) = max (length p) (max_components ps)

-- The loop over the levels from `level`, of which `count` are left.
unfoldable pub find_level : (ℕ → Bool) → ℕ → ℕ → Option ℕ
find_level paths_exist level zero = none
find_level paths_exist level (suc count) =
    let later = find_level paths_exist (suc level) count in
    if paths_exist level then some level else later

abbrev pub starts_with_ab : List Text → Bool
starts_with_ab [] = false
starts_with_ab (c ∷ path) = text_eq c (codes "a") || text_eq c (codes "b")

-- `strip_path`, of a text that is UTF-8.
unfoldable pub strip_path : ℕ → Option Text → Option (List Text)
unfolding components skip
strip_path strip_level none = none
strip_path strip_level (some p) =
    let path : List Text = skip strip_level (components p) in
    if is_empty path then none else some path

unfoldable pub custom_patch_stripped_paths :
    {Hunks : Type 0} → Diff Hunks → ℕ → Option (List Text) × Option (List Text)
unfolding strip_path normalize_backup_paths
custom_patch_stripped_paths diff strip_level =
    normalize_backup_paths (strip_path strip_level diff.original)
      (strip_path strip_level diff.modified)

unfoldable pub parse_patch : {Hunks : Type 0} → List (Diff Hunks) → List (List Text)
unfolding components normalize_backup_paths insert_path
parse_patch [] = []
parse_patch (diff ∷ patch) =
    let paths : Option (List Text) × Option (List Text) =
      normalize_backup_paths (path_of diff.original) (path_of diff.modified) in
    insert_path paths.1 (insert_path paths.0 (parse_patch patch))

module _ (exists : List Text → Bool) (work_dir : List Text) where
  -- The path exists with `strip_level` components stripped, and is not empty.
  unfoldable pub exists_stripped : ℕ → List Text → Bool
  unfolding skip join_path
  exists_stripped strip_level p =
      let path : List Text = skip strip_level p in
      not (is_empty path) && exists (join_path work_dir path)

  unfoldable pub any_paths_exist : List (List Text) → ℕ → Bool
  unfolding exists_stripped
  any_paths_exist patched_files strip_level = any (exists_stripped strip_level) patched_files

  unfoldable pub guess_level : List (List Text) → ℕ
  unfolding max_components find_level any_paths_exist text_eq
  guess_level patched_files =
      elim (find_level (any_paths_exist patched_files) 0 (max_components patched_files)) [
        | some strip_level ↦ strip_level
        | none ↦ if any starts_with_ab patched_files then 1 else 0
      ]

  -- The `Ok` of the code: it never fails.
  unfoldable pub guess_strip_level : {Hunks : Type 0} → List (Diff Hunks) → ℕ
  unfolding parse_patch guess_level
  guess_strip_level patch = guess_level (parse_patch patch)
