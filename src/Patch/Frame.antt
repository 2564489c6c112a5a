-- ===== src/Patch/Frame.antt =====
-- src/source/patch.rs: which files a patch leaves as they are.
use rattler_build.Prelude.{
  ℕ, Bool, true, false, Bool-cases, Result-cases, not, Option, none, some, List, [], ◌∷◌, Text,
  Result, ok, err, All, OnSome, codes, text_eq, ◌≡◌, refl, ◌∙◌, inl, inr, if◌then◌else◌,
}
use rattler_build.Packaging.Names.{path_eq}
use rattler_build.Patch.Paths.{
  Diff, root, join_path, custom_patch_stripped_paths, guess_strip_level,
}
use rattler_build.Patch.Files.{
  Patching, SourceError, continue, io_result, write_patch_content, apply_and_write, change_file,
  apply_paths, apply_diff, apply_diffs, apply_patch_custom, absolute, Op,
}

unfoldable pub is_absolute : List Text → Bool
is_absolute [] = false
is_absolute (c ∷ path) = text_eq c root

-- An absolute directory is joined once or twice, with the same path.
join_path_twice :
    (dir path : List Text)
    → is_absolute dir ≡ true
    → join_path dir (join_path dir path) ≡ join_path dir path
unfolding join_path is_absolute
join_path_twice [] path h = cc
join_path_twice (d ∷ dir) [] h = rw (h) refl
join_path_twice (d ∷ dir) (c ∷ path) h = elim (Bool-cases (text_eq c root)) [
  | inl e ↦ rw (e, join_path, e) refl
  | inr e ↦ elim (Bool-cases (text_eq c (codes "."))) [
    | inl f ↦ rw (e, f, join_path, h) refl
    | inr f ↦ rw (e, f, join_path, h) refl
  ]
]

-- What the file system promises: an operation on a path changes the content of no other path.
pub record Contents {Hunks IoError ApplyError : Type 0}
    (patching : Patching Hunks IoError ApplyError) : Type 0 where
  pub content : patching.State → List Text → Option patching.Bytes
  pub create_parent_local :
      (p q : List Text) (s : patching.State)
      → content (patching.create_parent p s).1 q ≡ content s q
  pub make_writable_local :
      (p q : List Text) (s : patching.State)
      → content (patching.make_writable p s).1 q ≡ content s q
  pub create_local :
      (p q : List Text) (b : patching.Bytes) (s : patching.State)
      → path_eq p q ≡ false
      → content (patching.create p b s).1 q ≡ content s q
  pub remove_file_local :
      (p q : List Text) (s : patching.State)
      → path_eq p q ≡ false
      → content (patching.remove_file p s).1 q ≡ content s q

module _ {Hunks IoError ApplyError : Type 0} (patching : Patching Hunks IoError ApplyError)
    (contents : Contents patching) (q : List Text) where
  open patching use {
    State, Bytes, exists, read, create_parent, make_writable, create, remove_file, apply,
    patch_from_bytes, no_bytes,
  }
  open contents use {
    content, create_parent_local, make_writable_local, create_local, remove_file_local,
  }

  abbrev Keeps : State → Result (SourceError IoError ApplyError) (Unit {0}) × State → Type 0
  Keeps s out = content out.1 q ≡ content s q

  continue-Keeps :
      (s : State) (out : Result (SourceError IoError ApplyError) (Unit {0}) × State)
      (next : Op patching)
      → Keeps s out
      → ((t : State) → Keeps t (next t))
      → Keeps s (continue patching out next)
  continue-Keeps s (ok u, t) next h k = k t ∙ h
  continue-Keeps s (err e, t) next h k = h

  io_result-Keeps :
      (s : State) (out : Result IoError (Unit {0}) × State)
      → content out.1 q ≡ content s q
      → Keeps s (io_result patching out)
  io_result-Keeps s (ok u, t) h = h
  io_result-Keeps s (err e, t) h = h

  remove_file-Keeps :
      (p : List Text) (s : State)
      → path_eq p q ≡ false
      → Keeps s (io_result patching (remove_file p s))
  remove_file-Keeps p s h = io_result-Keeps s (remove_file p s) (remove_file_local p q s h)

  if-Keeps :
      (b : Bool) (s : State) (x y : Result (SourceError IoError ApplyError) (Unit {0}) × State)
      → Keeps s x
      → Keeps s y
      → Keeps s (if b then x else y)
  if-Keeps true s x y h k = h
  if-Keeps false s x y h k = k

  write_patch_content-Keeps :
      (b : Bytes) (p : List Text) (s : State)
      → path_eq p q ≡ false
      → Keeps s (write_patch_content patching b p s)
  unfolding write_patch_content
  write_patch_content-Keeps b p s h =
      continue-Keeps s (io_result patching (create_parent p s)) _
        (io_result-Keeps s (create_parent p s) (create_parent_local p q s))
        (λ t.
          continue-Keeps t
            (if exists t p then io_result patching (make_writable p t) else (ok tt, t))
            (λ u. io_result patching (create p b u))
            (if-Keeps (exists t p) t (io_result patching (make_writable p t)) (ok tt, t)
              (io_result-Keeps t (make_writable p t) (make_writable_local p q t)) refl)
            (λ u. io_result-Keeps u (create p b u) (create_local p q b u h)))

  apply_and_write-Keeps :
      (old : Bytes) (diff : Diff Hunks) (p : List Text) (s : State)
      → path_eq p q ≡ false
      → Keeps s (apply_and_write patching old diff p s)
  unfolding apply_and_write
  apply_and_write-Keeps old diff p s h = elim (Result-cases (apply old diff)) [
    | inl (b, e) ↦ rw (apply_and_write, e) (write_patch_content-Keeps b p s h)
    | inr (x, e) ↦ rw (apply_and_write, e) refl
  ]

  change_file-Keeps :
      (diff : Diff Hunks) (o m : List Text) (s : State)
      → path_eq o q ≡ false
      → path_eq m q ≡ false
      → Keeps s (change_file patching diff o m s)
  unfolding change_file
  change_file-Keeps diff o m s ho hm = elim (Result-cases (read s o)) [
    | inr (x, e) ↦ rw (change_file, e) refl
    | inl (old, e) ↦ elim (Result-cases (apply old diff)) [
      | inr (x, f) ↦ rw (change_file, e, f) refl
      | inl (b, f) ↦
          rw (change_file, e, f)
            (continue-Keeps s
              (if path_eq o m then (ok tt, s) else io_result patching (remove_file o s))
              (write_patch_content patching b m)
              (if-Keeps (path_eq o m) s (ok tt, s) (io_result patching (remove_file o s)) refl
                (remove_file-Keeps o s ho))
              (λ t. write_patch_content-Keeps b m t hm))
    ]
  ]

  module _ (work_dir : List Text) (h : is_absolute work_dir ≡ true) where
    abbrev pub IsApart : Option (List Text) → Type 0
    IsApart path = OnSome (λ p. path_eq (join_path work_dir p) q ≡ false) path

    apply_paths-Keeps :
        (diff : Diff Hunks) (o m : Option (List Text)) (s : State)
        → IsApart o
        → IsApart m
        → Keeps s (
            apply_paths patching work_dir diff
              (absolute patching work_dir o)
              (absolute patching work_dir m)
              s)
    unfolding apply_paths
    apply_paths-Keeps diff none none s ho hm = refl
    apply_paths-Keeps diff none (some m) s ho hm =
        apply_and_write-Keeps no_bytes diff (join_path work_dir m) s hm
    apply_paths-Keeps diff (some o) none s ho hm =
        remove_file-Keeps (join_path work_dir (join_path work_dir o)) s
          (rw (join_path_twice work_dir o h) ho)
    apply_paths-Keeps diff (some o) (some m) s ho hm =
        if-Keeps (not (exists s (join_path work_dir o))) s
          (apply_and_write patching no_bytes diff (join_path work_dir m) s)
          (change_file patching diff (join_path work_dir o) (join_path work_dir m) s)
          (apply_and_write-Keeps no_bytes diff (join_path work_dir m) s hm)
          (change_file-Keeps diff (join_path work_dir o) (join_path work_dir m) s ho hm)

    abbrev pub IsApartFrom : ℕ → Diff Hunks → Type 0
    IsApartFrom strip_level diff =
        IsApart (custom_patch_stripped_paths diff strip_level).0
        × IsApart (custom_patch_stripped_paths diff strip_level).1

    apply_diffs-Keeps :
        (strip_level : ℕ) (patch : List (Diff Hunks)) (s : State)
        → All (IsApartFrom strip_level) patch
        → Keeps s (apply_diffs patching work_dir strip_level patch s)
    unfolding apply_diffs apply_diff
    apply_diffs-Keeps strip_level [] s a = refl
    apply_diffs-Keeps strip_level (diff ∷ patch) s ((ho, hm), a) =
        continue-Keeps s (apply_diff patching work_dir diff strip_level s)
          (apply_diffs patching work_dir strip_level patch)
          (apply_paths-Keeps diff (custom_patch_stripped_paths diff strip_level).0
            (custom_patch_stripped_paths diff strip_level).1 s ho hm)
          (λ t. apply_diffs-Keeps strip_level patch t a)

    -- If the work directory is absolute and an operation of the file system on a path changes the
    -- content of no other path, a patch that is read and parsed leaves the content of every file
    -- as it was that is not at the stripped path of one of its diffs, at the guessed level,
    -- whether it is applied or ends with an error.
    pub apply_patch_custom-Keeps :
        (patch_file_path : List Text) (bytes : Bytes) (patch : List (Diff Hunks)) (s : State)
        → read s patch_file_path ≡ ok bytes
        → patch_from_bytes bytes ≡ some patch
        → All (IsApartFrom (guess_strip_level (exists s) work_dir patch)) patch
        → content (apply_patch_custom patching work_dir patch_file_path s).1 q ≡ content s q
    unfolding apply_patch_custom
    apply_patch_custom-Keeps patch_file_path bytes patch s r e a =
        rw (apply_patch_custom, r, e)
          (apply_diffs-Keeps (guess_strip_level (exists s) work_dir patch) patch s a)
