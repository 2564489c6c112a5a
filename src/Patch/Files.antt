-- ===== src/Patch/Files.antt =====
-- src/source/patch.rs: a patch applied to the files of a work directory, with the errors that end it.
use rattler_build.Prelude.{
  ℕ, Bool, not, Option, none, some, List, [], ◌∷◌, Text, Result, ok, err, if◌then◌else◌,
}
use rattler_build.Packaging.Names.{path_eq}
use rattler_build.Patch.Paths.{Diff, custom_patch_stripped_paths, guess_strip_level, join_path}

-- The errors of `SourceError` that these functions give.
pub data SourceError (IoError ApplyError : Type 0) : Type 0 where
  io : IoError → SourceError IoError ApplyError
  patch_parse_failed : List Text → SourceError IoError ApplyError
  patch_apply_error : ApplyError → SourceError IoError ApplyError
  patch_not_found : List Text → SourceError IoError ApplyError

-- The file system, with its state, and the library that parses and applies patches.
-- `make_writable` is what is done to a file that exists, and `create` opens and writes it.
pub record Patching (Hunks IoError ApplyError : Type 0) : Type 1 where
  pub State : Type 0
  pub Bytes : Type 0
  pub no_bytes : Bytes
  pub exists : State → List Text → Bool
  pub read : State → List Text → Result IoError Bytes
  pub create_parent : List Text → State → Result IoError (Unit {0}) × State
  pub make_writable : List Text → State → Result IoError (Unit {0}) × State
  pub create : List Text → Bytes → State → Result IoError (Unit {0}) × State
  pub remove_file : List Text → State → Result IoError (Unit {0}) × State
  pub patch_from_bytes : Bytes → Option (List (Diff Hunks))
  pub apply : Bytes → Diff Hunks → Result ApplyError Bytes

module _ {Hunks IoError ApplyError : Type 0} (patching : Patching Hunks IoError ApplyError) where
  open patching use {
    State, Bytes, no_bytes, exists, read, create_parent, make_writable, create, remove_file,
    patch_from_bytes, apply,
  }

  abbrev pub Op : Type 0
  Op = State → Result (SourceError IoError ApplyError) (Unit {0}) × State

  -- One operation, and the next if it succeeds.
  abbrev pub continue :
      Result (SourceError IoError ApplyError) (Unit {0}) × State
      → Op
      → Result (SourceError IoError ApplyError) (Unit {0}) × State
  continue (ok u, s) next = next s
  continue (err e, s) next = (err e, s)

  abbrev pub io_result :
      Result IoError (Unit {0}) × State → Result (SourceError IoError ApplyError) (Unit {0}) × State
  io_result (ok u, s) = (ok u, s)
  io_result (err e, s) = (err (io e), s)

  unfoldable pub write_patch_content : Bytes → List Text → Op
  write_patch_content content path s = continue (io_result (create_parent path s)) (λ s.
      continue (if exists s path then io_result (make_writable path s) else (ok tt, s))
        (λ s. io_result (create path content s)))

  -- `apply` of the diff, and the content written.
  unfoldable pub apply_and_write : Bytes → Diff Hunks → List Text → Op
  unfolding write_patch_content
  apply_and_write old_content diff path s = elim (apply old_content diff) [
    | err e ↦ (err (patch_apply_error e), s)
    | ok new_content ↦ write_patch_content new_content path s
  ]

  -- Both paths, of an original that exists.
  unfoldable pub change_file : Diff Hunks → List Text → List Text → Op
  unfolding write_patch_content path_eq
  change_file diff o m s = elim (read s o) [
    | err e ↦ (err (io e), s)
    | ok old_content ↦ elim (apply old_content diff) [
      | err e ↦ (err (patch_apply_error e), s)
      | ok new_content ↦
          continue (if path_eq o m then (ok tt, s) else io_result (remove_file o s))
            (write_patch_content new_content m)
    ]
  ]

  abbrev pub absolute : List Text → Option (List Text) → Option (List Text)
  absolute work_dir none = none
  absolute work_dir (some path) = some (join_path work_dir path)

  -- The `match` on the absolute paths.
  unfoldable pub apply_paths : List Text → Diff Hunks → Option (List Text) → Option (List Text) → Op
  unfolding apply_and_write change_file join_path
  apply_paths work_dir diff none none s = (ok tt, s)
  apply_paths work_dir diff none (some m) s = apply_and_write no_bytes diff m s
  apply_paths work_dir diff (some o) none s = io_result (remove_file (join_path work_dir o) s)
  apply_paths work_dir diff (some o) (some m) s =
      if not (exists s o) then apply_and_write no_bytes diff m s else change_file diff o m s

  -- One round of the loop.
  unfoldable pub apply_diff : List Text → Diff Hunks → ℕ → Op
  unfolding apply_paths custom_patch_stripped_paths
  apply_diff work_dir diff strip_level =
      let file_paths : Option (List Text) × Option (List Text) =
        custom_patch_stripped_paths diff strip_level in
      apply_paths work_dir diff (absolute work_dir file_paths.0) (absolute work_dir file_paths.1)

  unfoldable pub apply_diffs : List Text → ℕ → List (Diff Hunks) → Op
  unfolding apply_diff
  apply_diffs work_dir strip_level [] s = (ok tt, s)
  apply_diffs work_dir strip_level (diff ∷ patch) s =
      continue (apply_diff work_dir diff strip_level s) (apply_diffs work_dir strip_level patch)

  unfoldable pub apply_patch_custom : List Text → List Text → Op
  unfolding guess_strip_level apply_diffs
  apply_patch_custom work_dir patch_file_path s = elim (read s patch_file_path) [
    | err e ↦ (err (io e), s)
    | ok patch_file_content ↦ elim (patch_from_bytes patch_file_content) [
      | none ↦ (err (patch_parse_failed patch_file_path), s)
      | some patch ↦ apply_diffs work_dir (guess_strip_level (exists s) work_dir patch) patch s
    ]
  ]

  unfoldable pub apply_patches :
      List (List Text) → List Text → List Text → (List Text → List Text → Op) → Op
  unfolding join_path
  apply_patches [] work_dir recipe_dir apply_patch s = (ok tt, s)
  apply_patches (patch_path_relative ∷ patches) work_dir recipe_dir apply_patch s =
      let patch_file_path : List Text = join_path recipe_dir patch_path_relative in
      if not (exists s patch_file_path)
      then (err (patch_not_found patch_file_path), s)
      else continue (apply_patch work_dir patch_file_path s)
          (apply_patches patches work_dir recipe_dir apply_patch)
