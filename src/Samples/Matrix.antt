-- ===== src/Samples/Matrix.antt =====
-- A variant configuration as the documentation shows one: python and numpy vary together, the
-- compiler by itself.
use rattler_build.Prelude.{
  ℕ, ◌≡◌, refl, ◌↔◌, none, some, List, [], ◌∷◌, map, Text, ok, err, codes, All, length, true,
  text_eq, text_compare,
}
use rattler_build.Prelude.Sort.{sort_by}
use rattler_build.Keys.{NormalizedKey, normalize, normalized_keyed}
use rattler_build.Prelude.Maps.{contains, contains_key, extend, insert, lookup, last_value}
use rattler_build.Variants.Combination.{
  Values, Assignment, compute_combinations, find_combinations, all_keys, validate_zip_keys,
  invalid_zip_key_length, invalid_zip_key_structure,
}
use rattler_build.Variants.Config.{VariantConfig, merge_files, get}
use rattler_build.Variants.Product.{product, find_combinations-eq-product}
use rattler_build.Variants.Count.{count_all, length-compute_combinations}
use rattler_build.Variants.Choice.{IsLegal, compute_combinations-IsLegal}
use rattler_build.Variants.Bound.{compute_combinations-binds}
use rattler_build.Variants.Zip.{
  IsValidZip, validate_zip_keys_iff, merge_files_lem, or_former, last_given,
}

abbrev pub python : NormalizedKey
python = record { text = codes "python" }

abbrev pub numpy : NormalizedKey
numpy = record { text = codes "numpy" }

abbrev pub c_compiler : NormalizedKey
c_compiler = record { text = codes "c-compiler" }

abbrev pub respelled : NormalizedKey
respelled = record { text = codes "c_compiler" }

abbrev pub values : List (Values ℕ)
values = (python, 39 ∷ 310 ∷ []) ∷ (numpy, 1 ∷ 2 ∷ []) ∷ (c_compiler, 14 ∷ 15 ∷ []) ∷ []

abbrev pub zips : List (List NormalizedKey)
zips = (python ∷ numpy ∷ []) ∷ []

abbrev pub used : List NormalizedKey
used = respelled ∷ numpy ∷ python ∷ []

abbrev pub values_text : Assignment ℕ → Text
values_text c = map (λ b. b.1) c

abbrev pub matrix : List (Assignment ℕ)
matrix =
    ((respelled, 14) ∷ (numpy, 1) ∷ (python, 39) ∷ [])
    ∷ ((respelled, 14) ∷ (numpy, 2) ∷ (python, 310) ∷ [])
    ∷ ((respelled, 15) ∷ (numpy, 1) ∷ (python, 39) ∷ [])
    ∷ ((respelled, 15) ∷ (numpy, 2) ∷ (python, 310) ∷ [])
    ∷ []

matrix_computed : compute_combinations values_text values zips used ≡ ok matrix
unfolding compute_combinations lookup text_eq normalize sort_by contains text_compare extend insert
matrix_computed = refl

uneven_zip :
    compute_combinations values_text ((python, 39 ∷ []) ∷ (numpy, 1 ∷ 2 ∷ []) ∷ []) zips used
    ≡ err (invalid_zip_key_length (codes "numpy"))
unfolding compute_combinations lookup text_eq normalize sort_by contains text_compare extend insert
uneven_zip = refl

lone_zip :
    compute_combinations values_text values ((python ∷ []) ∷ []) used
    ≡ err invalid_zip_key_structure
unfolding compute_combinations lookup text_eq normalize sort_by contains text_compare extend insert
lone_zip = refl

compute_combinations-IsLegal_example : All (All (IsLegal values used)) matrix
compute_combinations-IsLegal_example =
    compute_combinations-IsLegal values used values_text zips matrix matrix_computed

used-respelled : contains used respelled ≡ true
unfolding contains text_eq normalize
used-respelled = refl

compiler_values : lookup respelled values ≡ some (14 ∷ 15 ∷ [])
unfolding lookup text_eq normalize
compiler_values = refl

compute_combinations-binds_example : All (λ c. contains_key c respelled ≡ true) matrix
compute_combinations-binds_example =
    compute_combinations-binds respelled values used values_text zips matrix (14 ∷ 15 ∷ [])
      matrix_computed used-respelled compiler_values

length-compute_combinations_example : length matrix ≡ count_all (all_keys values zips used)
length-compute_combinations_example =
    length-compute_combinations values_text values zips used matrix matrix_computed

find_combinations-eq-product_example :
    find_combinations (all_keys values zips used) ([], [])
    ≡ ([], map (λ t. t) (product (all_keys values zips used)))
find_combinations-eq-product_example =
    find_combinations-eq-product (all_keys values zips used) [] []

validate_zip_keys_iff_example :
    (validate_zip_keys values zips ≡ ok tt) ↔ All (IsValidZip values) zips
validate_zip_keys_iff_example = validate_zip_keys_iff values zips

abbrev pub base : VariantConfig ℕ
base = record { zip_keys = some zips; variants = values }

abbrev overlay : VariantConfig ℕ
overlay = record { zip_keys = none; variants = (respelled, 16 ∷ []) ∷ [] }

abbrev last_file : VariantConfig ℕ
last_file = record { zip_keys = some []; variants = (python, 312 ∷ []) ∷ [] }

merge_files_lem_example :
    (get (merge_files base (overlay ∷ last_file ∷ [])) c_compiler
      ≡ or_former
          (last_given (λ c. last_value c_compiler c.variants) (overlay ∷ last_file ∷ []))
          (get base c_compiler))
    × ((merge_files base (overlay ∷ last_file ∷ [])).zip_keys
        ≡ or_former (last_given (λ c. c.zip_keys) (overlay ∷ last_file ∷ [])) base.zip_keys)
merge_files_lem_example = merge_files_lem base (overlay ∷ last_file ∷ []) c_compiler
