-- ===== src/Samples/Discovery.antt =====
-- One compiler to start with; every evaluation finds `python` and `zlib` free in the requirements.
use rattler_build.Prelude.{
  ◌++◌, err, false, true, ℕ, ◌≡◌, refl, List, [], ◌∷◌, Text, Result, ok, codes, All, text_eq,
  text_compare,
}
use rattler_build.Prelude.Maps.{contains, insert, lookup}
use rattler_build.Keys.{normalize, normalized_keyed}
use rattler_build.Variants.Combination.{Assignment}
use rattler_build.Variants.Config.{get}
use rattler_build.Recipe.Expand.{
  StageSpecs, multi_output, stage_free_specs, discover, iterate, expand_variants_tree,
  max_iterations,
}
use rattler_build.Recipe.Expand.Extension.{
  Grown, expand_variants_tree-Grown, expand_variants_tree-discover,
}
use rattler_build.Recipe.Expand.Distinct.{Distinct, Represents, expand_variants_tree-Distinct}
use rattler_build.Samples.Matrix.{python, c_compiler, base}

-- The second output is skipped, the third one fails to evaluate.
abbrev outputs : StageSpecs Text
outputs = multi_output (ok tt) (ok false) (
    record {
      is_staging = false;
      skip = ok false;
      evaluated = ok (codes "python" ∷ codes "zlib" ∷ []);
    }
    ∷ record { is_staging = false; skip = ok true; evaluated = ok (codes "numpy" ∷ []) }
    ∷ record { is_staging = true; skip = ok true; evaluated = err (codes "undefined") }
    ∷ [])

abbrev free_specs : Assignment ℕ → Result Text (List Text)
free_specs c = stage_free_specs outputs

abbrev to_text : ℕ → Text
to_text n = n ∷ []

abbrev initial : List (Assignment ℕ)
initial = ((c_compiler, 14) ∷ []) ∷ []

abbrev expanded : List (Assignment ℕ)
expanded = ((c_compiler, 14) ∷ (python, 39) ∷ []) ∷ ((c_compiler, 14) ∷ (python, 310) ∷ []) ∷ []

computed : expand_variants_tree to_text free_specs initial base ≡ ok expanded
unfolding expand_variants_tree stage_free_specs normalize lookup insert text_eq text_compare get
    contains
computed = refl

computed_rounds : iterate free_specs max_iterations base initial [] ≡ ok (expanded, [])
unfolding iterate stage_free_specs normalize lookup insert text_eq text_compare get contains
computed_rounds = refl

expand_variants_tree-Grown_example : All (Grown base free_specs initial) expanded
expand_variants_tree-Grown_example =
    expand_variants_tree-Grown base free_specs to_text initial expanded computed

expand_variants_tree-discover_example : All (λ c. discover free_specs base c ≡ ok []) expanded
expand_variants_tree-discover_example =
    expand_variants_tree-discover base free_specs to_text initial expanded expanded computed
      computed_rounds

expand_variants_tree-Distinct_example :
    Distinct to_text expanded
    × ((final left : List (Assignment ℕ)) × (iterate free_specs max_iterations base initial []
          ≡ ok (final, left))
        × Represents to_text expanded (final ++ left))
expand_variants_tree-Distinct_example =
    expand_variants_tree-Distinct to_text free_specs initial expanded base computed
