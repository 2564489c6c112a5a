-- ===== src/Packaging.antt =====
-- src/packaging/file_mapper.rs: which files of the prefix go into the package, and where. A path is
-- the list of its components; one that the code holds as absolute starts at the root. `Names` are the
-- operations of `Path` on a name, `Placed` has the proof.
pub mod Names
pub mod Placed
use rattler_build.Prelude.{
  ◌&&◌, ◌||◌, Bool, true, false, Option, none, some, List, [], ◌∷◌, ◌++◌, Text, Result, ok, err,
  ◌>>=◌, if◌then◌else◌, any, codes, text_eq, map,
}
use rattler_build.Packaging.Names.{
  extension, with_extension, file_name, parent, py_stem, path_eq, starts_with_path, strip_suffix,
  map_last,
}

-- The path is that of `path.extension()`, which is empty if there is none.
abbrev pub has_extension : List Text → Text → Bool
has_extension path e = elim (file_name path) [
  | none ↦ text_eq [] e
  | some n ↦ elim (extension n) [ none ↦ text_eq [] e | some x ↦ text_eq x e ]
]

-- The `py` file that a `pyc` file belongs to.
unfoldable pub py_file : List Text → Text → List Text
py_file dir name = elim (file_name dir) [
  | none ↦ dir ++ with_extension name (codes "py") ∷ []
  | some d ↦
      if text_eq d (codes "__pycache__")
      then parent dir ++ (py_stem name ++ codes ".py") ∷ []
      else dir ++ with_extension name (codes "py") ∷ []
]

unfoldable pub filter_pyc : List Text → List (List Text) → Bool
unfolding py_file
filter_pyc path old_files = elim (file_name path) [
  | none ↦ false
  | some name ↦ elim (extension name) [
    | none ↦ false
    | some ext ↦ text_eq ext (codes "pyc") && any (path_eq (py_file (parent path) name)) old_files
  ]
]

abbrev pub is_unwanted : Text → Bool
is_unwanted c =
    text_eq c (codes ".DS_Store")
    || text_eq c (codes "conda-meta")
    || text_eq c (codes "CACHEDIR.TAG")

unfoldable pub filter_file : List Text → Bool
filter_file relative_path =
    starts_with_path (codes "share" ∷ codes "info" ∷ codes "dir" ∷ []) relative_path
    || has_extension relative_path (codes "pyo")
    || has_extension relative_path (codes "la")
    || any is_unwanted relative_path

-- `entry_points` are the commands of the entry points.
unfoldable pub is_entry_point : List Text → List Text → Bool
is_entry_point entry_points rel = elim (file_name rel) [
  | none ↦ false
  | some name ↦
      if starts_with_path (codes "bin" ∷ []) rel
      then any (λ command. text_eq command name) entry_points
      else starts_with_path (codes "Scripts" ∷ []) rel
        && any
            (λ command.
              text_eq (command ++ codes ".exe") name
              || text_eq (command ++ codes "-script.py") name)
            entry_points
]

-- The components from `site-packages` on.
unfoldable pub from_site_packages : List Text → List Text
from_site_packages [] = []
from_site_packages (c ∷ cs) =
    let rest = from_site_packages cs in if text_eq c (codes "site-packages") then c ∷ cs else rest

abbrev strip_script : Text → Text
strip_script name = elim (strip_suffix (codes "-script.py") name) [ none ↦ name | some s ↦ s ]

-- `bin` or `Scripts` becomes `python-scripts`.
unfoldable pub to_python_scripts : Bool → List Text → List Text
to_python_scripts is_windows [] = []
to_python_scripts is_windows (c ∷ cs) =
    let new_parts = codes "python-scripts" ∷ cs in
    if is_windows then map_last strip_script new_parts else new_parts

abbrev pub is_pycache : Text → Bool
is_pycache c = text_eq c (codes "__pycache__")

-- Where a package that is independent of the python version keeps a file, below the destination.
unfoldable pub python_destination : Bool → List Text → List Text → List Text → Option (List Text)
unfolding is_entry_point from_site_packages to_python_scripts
python_destination is_windows entry_points path rel =
    if is_entry_point entry_points rel
    then none
    else if has_extension path (codes "pyc")
        || has_extension path (codes "egg-info")
        || has_extension path (codes "pyo")
    then none
    else if any is_pycache rel
    then none
    else if any (λ c. text_eq c (codes "site-packages")) rel
    then some (from_site_packages rel)
    else if starts_with_path (codes "bin" ∷ []) rel || starts_with_path (codes "Scripts" ∷ []) rel
    then some (to_python_scripts is_windows rel)
    else some rel

-- The rest of a path behind a prefix.
unfoldable pub strip_prefix : List Text → List Text → Option (List Text)
strip_prefix [] path = some path
strip_prefix (c ∷ prefix) [] = none
strip_prefix (c ∷ prefix) (d ∷ path) =
    let rest = strip_prefix prefix path in if text_eq c d then rest else none

-- A link's target: whether it is absolute, and its components.
abbrev pub Target : Type 0
Target = Bool × List Text

-- `symlink_metadata`, with the link's target where `read_link` gives it.
pub data FileKind : Type 0 where
  symlink : Option Target → FileKind
  directory : FileKind
  file : FileKind

pub data PackagingError (IoError : Type 0) : Type 0 where
  strip_prefix_error : PackagingError IoError
  no_parent : PackagingError IoError
  io_error : IoError → PackagingError IoError

-- What is made at the destination. A link is made with its target, if that could be read; that it
-- could not be made is only a warning.
pub data Made : Type 0 where
  link : Option Target → Made
  copy : Made

-- The file system as the function asks it, and `pathdiff::diff_paths`.
pub record Disk (IoError : Type 0) : Type 0 where
  pub exists : List Text → Bool
  pub create_dir_all : List Text → Result IoError (Unit {0})
  pub kind : List Text → Result IoError FileKind
  pub copy_file : List Text → List Text → Result IoError (Unit {0})
  pub diff_paths : List Text → List Text → Option (List Text)

module _ {IoError : Type 0} (disk : Disk IoError) where
  open disk use {exists, create_dir_all, kind, copy_file, diff_paths}

  abbrev pub Fallible : Type 0 → Type 0
  Fallible = Result (PackagingError IoError)

  abbrev or_io_error : {A : Type 0} → Result IoError A → Fallible A
  or_io_error (ok a) = ok a
  or_io_error (err e) = err (io_error e)

  -- A python file that a compiled module of the same name replaces.
  unfoldable pub is_shadowed : List Text → Bool
  is_shadowed path = elim (file_name path) [
    | none ↦ false
    | some name ↦
        (has_extension path (codes "py") || has_extension path (codes "pyc"))
        && (exists (parent path ++ with_extension name (codes "so") ∷ [])
            || exists (parent path ++ with_extension name (codes "pyd") ∷ []))
  ]

  -- An absolute link within the prefix is made relative.
  unfoldable pub link_target : List Text → List Text → Target → Target
  link_target path prefix (is_absolute, target) =
      if is_absolute && starts_with_path prefix target
      then elim (diff_paths target (parent path)) [
        | none ↦ (is_absolute, target)
        | some rel ↦ (false, rel)
      ]
      else (is_absolute, target)

  abbrev ensure_directory : List Text → Fallible (Unit {0})
  ensure_directory dir = if exists dir then ok tt else or_io_error (create_dir_all dir)

  -- What is made of a path of each kind at its destination.
  unfoldable pub make :
      List Text → List Text → List Text → FileKind → Fallible (Option (List Text × Made))
  unfolding link_target
  make path prefix dest (symlink none) = ok (some (dest, link none))
  make path prefix dest (symlink (some target)) =
      ok (some (dest, link (some (link_target path prefix target))))
  make path prefix dest directory = ok none
  make path prefix dest file = do _ ← or_io_error (copy_file path dest); ok (some (dest, copy))

  unfoldable pub place : List Text → List Text → List Text → Fallible (Option (List Text × Made))
  unfolding make
  place path prefix [] = err no_parent
  place path prefix (d ∷ dest) = do
    _ ← ensure_directory (parent (d ∷ dest))
    k ← or_io_error (kind path)
    make path prefix (d ∷ dest) k

  module _ (is_windows is_python_version_independent : Bool) (entry_points : List Text) where
    -- Where a file of the package goes below the destination, if it is not skipped.
    unfoldable pub destination : List Text → List Text → Option (List Text)
    unfolding filter_file is_shadowed python_destination
    destination path rel =
        if filter_file rel || is_shadowed path
        then none
        else if is_python_version_independent
        then python_destination is_windows entry_points path rel
        else some rel

    -- `write_to_dest`; a result of none is a file that is not packaged.
    unfoldable pub write_to_dest :
        List Text → List Text → List Text → Fallible (Option (List Text × Made))
    unfolding destination place strip_prefix
    write_to_dest path prefix dest_folder = elim (strip_prefix prefix path) [
      | none ↦ err strip_prefix_error
      | some rel ↦ elim (destination path rel) [
        | none ↦ ok none
        | some new_parts ↦ place path prefix (dest_folder ++ new_parts)
      ]
    ]
