-- ===== src/Packaging/Names.antt =====
-- What file_mapper.rs uses of `Path` and `str`: extensions, stems, parents and prefixes.
use rattler_build.Prelude.{
  ◌==◌, ◌&&◌, Bool, true, false, Option, none, some, List, [], ◌∷◌, ◌++◌, Text, if◌then◌else◌,
  codes, text_eq,
}

-- What stands before and behind the last dot.
unfoldable pub split_last_dot : Text → Option (Text × Text)
split_last_dot [] = none
split_last_dot (c ∷ s) = elim (split_last_dot s) [
  | none ↦ if c == b'.' then some ([], s) else none
  | some (before, behind) ↦ some (c ∷ before, behind)
]

-- `Path::extension`: a leading dot starts none.
unfoldable pub extension : Text → Option Text
unfolding split_last_dot
extension name = elim (split_last_dot name) [
  | none ↦ none
  | some ([], behind) ↦ none
  | some (c ∷ before, behind) ↦ some behind
]

-- `Path::file_stem` and `Path::with_extension`
unfoldable pub file_stem : Text → Text
unfolding split_last_dot
file_stem name = elim (split_last_dot name) [
  | none ↦ name
  | some ([], behind) ↦ name
  | some (c ∷ before, behind) ↦ c ∷ before
]

unfoldable pub with_extension : Text → Text → Text
unfolding file_stem
with_extension name e = file_stem name ++ (codes "." ++ e)

-- `rsplitn(3, '.').last()`
unfoldable pub py_stem : Text → Text
unfolding split_last_dot
py_stem name = elim (split_last_dot name) [
  | none ↦ name
  | some (before, behind) ↦ elim (split_last_dot before) [
    | none ↦ before
    | some (stem, middle) ↦ stem
  ]
]

unfoldable pub file_name : List Text → Option Text
file_name [] = none
file_name (c ∷ []) = some c
file_name (c ∷ d ∷ path) = file_name (d ∷ path)

unfoldable pub parent : List Text → List Text
parent [] = []
parent (c ∷ []) = []
parent (c ∷ d ∷ path) = c ∷ parent (d ∷ path)

unfoldable pub path_eq : List Text → List Text → Bool
path_eq [] [] = true
path_eq [] (d ∷ q) = false
path_eq (c ∷ p) [] = false
path_eq (c ∷ p) (d ∷ q) = text_eq c d && path_eq p q

-- `Path::starts_with`, component by component.
unfoldable pub starts_with_path : List Text → List Text → Bool
starts_with_path [] path = true
starts_with_path (c ∷ prefix) [] = false
starts_with_path (c ∷ prefix) (d ∷ path) = text_eq c d && starts_with_path prefix path

unfoldable pub strip_suffix : Text → Text → Option Text
strip_suffix suffix [] = if text_eq [] suffix then some [] else none
strip_suffix suffix (c ∷ s) =
    let rest = strip_suffix suffix s in
    if text_eq (c ∷ s) suffix then some [] else elim rest [ none ↦ none | some t ↦ some (c ∷ t) ]

unfoldable pub map_last : (Text → Text) → List Text → List Text
map_last f [] = []
map_last f (c ∷ []) = f c ∷ []
map_last f (c ∷ d ∷ path) = c ∷ map_last f (d ∷ path)
