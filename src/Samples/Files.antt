-- ===== src/Samples/Files.antt =====
-- A disk that holds plain files only, and the paths of the tests in file_mapper.rs.
use rattler_build.Prelude.{
  ◌≡◌, refl, true, false, some, none, List, [], ◌∷◌, ◌++◌, Text, codes, text_eq, ok,
}
use rattler_build.Packaging.{Disk, file, copy, filter_pyc, filter_file, strip_prefix, write_to_dest}
use rattler_build.Packaging.Names.{
  extension, file_name, parent, py_stem, with_extension, path_eq, starts_with_path, split_last_dot,
}
use rattler_build.Packaging.Placed.{IsPlaced, write_to_dest-IsPlaced}

abbrev disk : Disk Text
disk = record {
  exists = λ p. false;
  create_dir_all = λ p. ok tt;
  kind = λ p. ok file;
  copy_file = λ p q. ok tt;
  diff_paths = λ p q. none;
}

abbrev prefix : List Text
prefix = codes "opt" ∷ codes "env" ∷ []

abbrev module_path : List Text
module_path =
    prefix ++ codes "lib" ∷ codes "python3.11" ∷ codes "site-packages" ∷ codes "foo.py" ∷ []

abbrev dest_folder : List Text
dest_folder = codes "tmp" ∷ []

abbrev dest : List Text
dest = codes "tmp" ∷ codes "site-packages" ∷ codes "foo.py" ∷ []

copied : write_to_dest disk false true [] module_path prefix dest_folder ≡ ok (some (dest, copy))
unfolding write_to_dest text_eq file_name extension starts_with_path with_extension parent
copied = refl

write_to_dest-IsPlaced_example :
    (rel new_parts : List Text) × (strip_prefix prefix module_path ≡ some rel)
    × (dest ≡ dest_folder ++ new_parts)
    × IsPlaced disk [] rel new_parts
write_to_dest-IsPlaced_example =
    write_to_dest-IsPlaced disk [] module_path prefix dest_folder dest copy copied

old_module :
    filter_pyc
      (codes "pkg" ∷ codes "__pycache__" ∷ codes "a.b.cpython-311.pyc" ∷ [])
      ((codes "pkg" ∷ codes "a.b.py" ∷ []) ∷ [])
    ≡ true
unfolding filter_pyc file_name extension parent py_stem path_eq text_eq split_last_dot
old_module = refl

info_dir : filter_file (codes "share" ∷ codes "info" ∷ codes "dir" ∷ []) ≡ true
unfolding filter_file starts_with_path text_eq
info_dir = refl
