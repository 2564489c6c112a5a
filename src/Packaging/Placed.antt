-- ===== src/Packaging/Placed.antt =====
-- Where packaged files end up.
use rattler_build.Prelude.{
  ◌≡◌, refl, sym, subst, ◌⊎◌, inl, inr, ◌||◌, ◌&&◌, text_eq_iff, Bool, true, false, Bool-cases,
  Option-cases, none, some, List, [], ◌∷◌, ◌++◌, Text, ok, >>=-eq-ok, any, codes, text_eq, All,
  arith,
}
use rattler_build.Packaging.{
  filter_file, has_extension, is_entry_point, is_shadowed, is_unwanted, is_pycache,
  from_site_packages, to_python_scripts, python_destination, destination, place, make,
  ensure_directory, or_io_error, strip_prefix, write_to_dest, Disk, FileKind, symlink, directory,
  file, Made,
}
use rattler_build.Packaging.Names.{starts_with_path, parent}

abbrev pub IsClean : Text → Type 0
IsClean c = (is_unwanted c || is_pycache c) ≡ false

clean : (cs : List Text) → any is_unwanted cs ≡ false → any is_pycache cs ≡ false → All IsClean cs
clean [] h g = tt
clean (c ∷ cs) h g = (ground arith, clean cs (ground arith) (ground arith))

from_site_packages-All :
    (P : Text → Type 0) (cs : List Text) → All P cs → All P (from_site_packages cs)
unfolding from_site_packages
from_site_packages-All P [] h = tt
from_site_packages-All P (c ∷ cs) h = elim (Bool-cases (text_eq c (codes "site-packages"))) [
  | inl e ↦ rw e h
  | inr e ↦ rw e (from_site_packages-All P cs h.1)
]

abbrev pub is_site_packages : Text → Bool
is_site_packages c = text_eq c (codes "site-packages")

from_site_packages-starts :
    (cs : List Text)
    → any is_site_packages cs ≡ true
    → starts_with_path (codes "site-packages" ∷ []) (from_site_packages cs) ≡ true
unfolding from_site_packages starts_with_path text_eq
from_site_packages-starts [] h = cc
from_site_packages-starts (c ∷ cs) h = elim (Bool-cases (text_eq c (codes "site-packages"))) [
  | inl e ↦
      let p = (text_eq_iff c (codes "site-packages")).0 e in
      rw e (subst (λ x. (text_eq (codes "site-packages") x && true) ≡ true) (sym p) refl)
  | inr e ↦ rw e (from_site_packages-starts cs (ground arith))
]

scripts-IsClean : IsClean (codes "python-scripts")
unfolding text_eq
scripts-IsClean = refl

to_python_scripts-IsClean :
    (cs : List Text) → All IsClean cs → All IsClean (to_python_scripts false cs)
unfolding to_python_scripts
to_python_scripts-IsClean [] h = tt
to_python_scripts-IsClean (c ∷ cs) h = (scripts-IsClean, h.1)

module _ {IoError : Type 0} (disk : Disk IoError) (entry_points : List Text) where
  -- A destination of an independent package has no component that is not to be packaged, and starts
  -- at `site-packages` if the path goes through it.
  abbrev pub IsPlaced : List Text → List Text → Type 0
  IsPlaced rel new_parts =
      All IsClean new_parts
      × ((any is_site_packages rel ≡ false)
          ⊎ (starts_with_path (codes "site-packages" ∷ []) new_parts ≡ true))

  python_destination-IsPlaced :
      (path rel new_parts : List Text)
      → any is_unwanted rel ≡ false
      → python_destination false entry_points path rel ≡ some new_parts
      → IsPlaced rel new_parts
  unfolding python_destination
  python_destination-IsPlaced path rel new_parts u h =
      elim (Bool-cases (is_entry_point entry_points rel)) [
        | inl e ↦ absurd (let q = rw (e, python_destination) at h in cc)
        | inr e ↦
            elim (Bool-cases (
              has_extension path (codes "pyc")
              || has_extension path (codes "egg-info")
              || has_extension path (codes "pyo"))) [
                | inl x ↦ absurd (let q = rw (e, x, python_destination) at h in cc)
                | inr x ↦ elim (Bool-cases (any is_pycache rel)) [
                  | inl c ↦ absurd (let q = rw (e, x, c, python_destination) at h in cc)
                  | inr c ↦ elim (Bool-cases (any is_site_packages rel)) [
                    | inl s ↦
                        let q = rw (e, x, c, s, python_destination) at h in
                        let p : from_site_packages rel ≡ new_parts = cc in
                        subst (IsPlaced rel) p (
                          from_site_packages-All IsClean rel (clean rel u c),
                          inr (from_site_packages-starts rel s),
                        )
                    | inr s ↦
                        elim (Bool-cases (
                          starts_with_path (codes "bin" ∷ []) rel
                          || starts_with_path (codes "Scripts" ∷ []) rel)) [
                            | inl b ↦
                                let q = rw (e, x, c, s, b, python_destination) at h in
                                let p : to_python_scripts false rel ≡ new_parts = cc in
                                subst (IsPlaced rel) p
                                  (to_python_scripts-IsClean rel (clean rel u c), inl s)
                            | inr b ↦
                                let q = rw (e, x, c, s, b, python_destination) at h in
                                let p : rel ≡ new_parts = cc in
                                subst (IsPlaced rel) p (clean rel u c, inl s)
                          ]
                  ]
                ]
              ]
      ]

  destination-IsPlaced :
      (path rel new_parts : List Text)
      → destination disk false true entry_points path rel ≡ some new_parts
      → IsPlaced rel new_parts
  unfolding destination filter_file
  destination-IsPlaced path rel new_parts h =
      elim (Bool-cases (filter_file rel || is_shadowed disk path)) [
        | inl f ↦ absurd (let q = rw (f, destination) at h in cc)
        | inr f ↦
            python_destination-IsPlaced path rel new_parts (ground arith) (rw (f, destination) at h)
      ]

  make-dest :
      (path prefix dest d : List Text) (k : FileKind) (m : Made)
      → make disk path prefix dest k ≡ ok (some (d, m))
      → dest ≡ d
  unfolding make
  make-dest path prefix dest d (symlink none) m h = cc
  make-dest path prefix dest d (symlink (some target)) m h = cc
  make-dest path prefix dest d directory m h = cc
  make-dest path prefix dest d file m h =
      let (_, _, e) = >>=-eq-ok (or_io_error disk (disk.copy_file path dest)) _ h in cc

  place-dest :
      (path prefix dest d : List Text) (m : Made)
      → place disk path prefix dest ≡ ok (some (d, m))
      → dest ≡ d
  unfolding place
  place-dest path prefix [] d m h = cc
  place-dest path prefix (c ∷ dest) d m h =
      let (_, _, e) = >>=-eq-ok (ensure_directory disk (parent (c ∷ dest))) _ h in
      let (k, _, e') = >>=-eq-ok (or_io_error disk (disk.kind path)) _ e in
      make-dest path prefix (c ∷ dest) d k m e'

  -- If a file of a package that is independent of the python version is placed on a platform
  -- other than Windows, its destination is the destination folder and components none of which is
  -- to be left out of packages or is `__pycache__`, and these start at `site-packages` if the
  -- path below the prefix goes through it.
  pub write_to_dest-IsPlaced :
      (path prefix dest_folder dest : List Text) (made : Made)
      → write_to_dest disk false true entry_points path prefix dest_folder ≡ ok (some (dest, made))
      → (rel new_parts : List Text) × (strip_prefix prefix path ≡ some rel)
        × (dest ≡ dest_folder ++ new_parts)
        × IsPlaced rel new_parts
  unfolding write_to_dest
  write_to_dest-IsPlaced path prefix dest_folder dest made h =
      elim (Option-cases (strip_prefix prefix path)) [
        | inl s ↦ absurd (let q = rw (s, write_to_dest) at h in cc)
        | inr (rel, s) ↦ elim (Option-cases (destination disk false true entry_points path rel)) [
          | inl n ↦ absurd (let q = rw (s, n, write_to_dest) at h in cc)
          | inr (new_parts, n) ↦ (
            rel,
            new_parts,
            s,
            sym (
                place-dest path prefix (dest_folder ++ new_parts) dest made
                  (rw (s, n, write_to_dest) at h)),
            destination-IsPlaced path rel new_parts n,
          )
        ]
      ]
