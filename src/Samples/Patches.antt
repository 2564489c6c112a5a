-- ===== src/Samples/Patches.antt =====
-- A patch of a file below a directory that is stripped.
use rattler_build.Prelude.{
  Bool, ℕ, ◌<◌, ◌≡◌, refl, ◌⊎◌, true, false, some, none, ok, err, is_some, any, List, [], ◌∷◌,
  Option, Text, codes, text_eq, if◌then◌else◌,
}
use rattler_build.Packaging.Names.{path_eq}
use rattler_build.Patch.Paths.{
  Diff, root, parse_patch, any_paths_exist, starts_with_ab, guess_level, guess_strip_level,
  custom_patch_stripped_paths,
}
use rattler_build.Patch.Files.{Patching, apply_patch_custom}
use rattler_build.Patch.Unordered.{guess_level-Perm}
use mathlib.Core.List.Perm
use rattler_build.Patch.Level.{guess_strip_level_lem}
use rattler_build.Patch.Frame.{Contents, is_absolute, apply_patch_custom-Keeps}

abbrev patch : List (Diff Text)
patch =
    record {
      original = some (codes "pkg/x.orig");
      modified = some (codes "pkg/x");
      hunks = codes "new";
    }
    ∷ record { original = none; modified = some (codes "pkg/z"); hunks = codes "z" }
    ∷ []

abbrev put : List Text → Option Text → (List Text → Option Text) → List Text → Option Text
put p o s q = if path_eq p q then o else s q

abbrev patching : Patching Text Text Text
patching = record {
  State = List Text → Option Text;
  Bytes = Text;
  no_bytes = [];
  exists = λ s p. is_some (s p);
  read = λ s p. elim (s p) [ none ↦ err (codes "not found") | some b ↦ ok b ];
  create_parent = λ p s. (ok tt, s);
  make_writable = λ p s. (ok tt, s);
  create = λ p b s. (ok tt, put p (some b) s);
  remove_file = λ p s. (ok tt, put p none s);
  patch_from_bytes = λ b. some patch;
  apply = λ old diff. ok diff.hunks;
}

abbrev contents : Contents patching
contents = record {
  content = λ s q. s q;
  create_parent_local = λ p q s. refl;
  make_writable_local = λ p q s. refl;
  create_local = λ p q b s h. rw (h) refl;
  remove_file_local = λ p q s h. rw (h) refl;
}

abbrev work_dir : List Text
work_dir = root ∷ codes "work" ∷ []

abbrev files : List Text → Option Text
files = put (root ∷ codes "work" ∷ codes "x" ∷ []) (some (codes "old")) (
    put (root ∷ codes "work" ∷ codes "y" ∷ []) (some (codes "kept"))
      (put (root ∷ codes "x.patch" ∷ []) (some (codes "patch")) (λ p. none)))

level : guess_strip_level (λ p. is_some (files p)) work_dir patch ≡ 1
unfolding guess_strip_level path_eq text_eq
level = refl

patched :
    (apply_patch_custom patching work_dir (root ∷ codes "x.patch" ∷ []) files).1
      (root ∷ codes "work" ∷ codes "x" ∷ [])
    ≡ some (codes "new")
unfolding apply_patch_custom path_eq text_eq
patched = refl

apply_patch_custom-Keeps_example :
    (apply_patch_custom patching work_dir (root ∷ codes "x.patch" ∷ []) files).1
      (root ∷ codes "work" ∷ codes "y" ∷ [])
    ≡ files (root ∷ codes "work" ∷ codes "y" ∷ [])
unfolding guess_strip_level custom_patch_stripped_paths is_absolute path_eq text_eq
apply_patch_custom-Keeps_example =
    apply_patch_custom-Keeps patching contents (root ∷ codes "work" ∷ codes "y" ∷ []) work_dir refl
      (root ∷ codes "x.patch" ∷ []) (codes "patch") patch files refl refl
      ((refl, refl), ((tt, refl), tt))

abbrev exists : List Text → Bool
exists p = is_some (files p)

guess_strip_level_lem_example :
    ((any_paths_exist exists work_dir (parse_patch patch) (guess_strip_level exists work_dir patch)
        ≡ true)
      × ((t : ℕ)
          → t < guess_strip_level exists work_dir patch
          → any_paths_exist exists work_dir (parse_patch patch) t ≡ false))
    ⊎ (((t : ℕ) → any_paths_exist exists work_dir (parse_patch patch) t ≡ false)
        × (guess_strip_level exists work_dir patch
            ≡ (if any starts_with_ab (parse_patch patch) then 1 else 0)))
guess_strip_level_lem_example = guess_strip_level_lem exists work_dir patch

guess_level-Perm_example :
    guess_level exists work_dir
      ((codes "pkg" ∷ codes "z" ∷ []) ∷ (codes "pkg" ∷ codes "x" ∷ []) ∷ [])
    ≡ guess_strip_level exists work_dir patch
unfolding parse_patch path_eq text_eq
guess_level-Perm_example =
    guess_level-Perm exists work_dir patch
      ((codes "pkg" ∷ codes "z" ∷ []) ∷ (codes "pkg" ∷ codes "x" ∷ []) ∷ []) (Perm.swap _ _ [])
