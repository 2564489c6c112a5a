-- ===== src/Patch/Summary.antt =====
-- src/source/patch.rs: which files a patch changes, adds and removes.
use rattler_build.Prelude.{ℕ, Bool, Option, none, some, List, [], ◌∷◌, ◌++◌, Text, Result, ok, err}
use rattler_build.Patch.Paths.{Diff, custom_patch_stripped_paths, guess_strip_level}
use rattler_build.Patch.Files.{Patching, SourceError, io, patch_parse_failed}

pub record PatchStats : Type 0 where
  pub changed : List (List Text)
  pub added : List (List Text)
  pub removed : List (List Text)

-- The `match` on the stripped paths.
unfoldable pub push_paths : Option (List Text) → Option (List Text) → PatchStats → PatchStats
push_paths (some orig) (some modified) stats = record stats {
  changed = stats.changed ++ (orig ∷ []);
}
push_paths none (some modified) stats = record stats { added = stats.added ++ (modified ∷ []) }
push_paths (some orig) none stats = record stats { removed = stats.removed ++ (orig ∷ []) }
push_paths none none stats = stats

unfoldable pub summarize_hunks : {Hunks : Type 0} → ℕ → List (Diff Hunks) → PatchStats → PatchStats
unfolding custom_patch_stripped_paths push_paths
summarize_hunks strip_level [] stats = stats
summarize_hunks strip_level (hunk ∷ patch) stats =
    let paths : Option (List Text) × Option (List Text) =
      custom_patch_stripped_paths hunk strip_level in
    summarize_hunks strip_level patch (push_paths paths.0 paths.1 stats)

unfoldable pub summarize_patch :
    {Hunks : Type 0} → (List Text → Bool) → List Text → List (Diff Hunks) → PatchStats
unfolding summarize_hunks guess_strip_level
summarize_patch exists work_dir patch =
    summarize_hunks (guess_strip_level exists work_dir patch) patch
      (record { changed = []; added = []; removed = [] })

module _ {Hunks IoError ApplyError : Type 0} (patching : Patching Hunks IoError ApplyError) where
  open patching use {State, exists, read, patch_from_bytes}

  unfoldable pub summarize_single_patch :
      List Text → List Text → State → Result (SourceError IoError ApplyError) PatchStats
  unfolding summarize_patch
  summarize_single_patch patch_path work_dir s = elim (read s patch_path) [
    | err e ↦ err (io e)
    | ok data_read ↦ elim (patch_from_bytes data_read) [
      | none ↦ err (patch_parse_failed patch_path)
      | some patch ↦ ok (summarize_patch (exists s) work_dir patch)
    ]
  ]
