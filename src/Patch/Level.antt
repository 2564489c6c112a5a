-- ===== src/Patch/Level.antt =====
-- src/source/patch.rs: which strip level is guessed.
use rattler_build.Prelude.{
  ℕ, zero, suc, ◌+◌, ◌≤◌, ◌<◌, Bool, true, false, Bool-cases, ltb, Option, none, some, List, [],
  ◌∷◌, Text, length, any, arith, ◌≡◌, refl, ◌⊎◌, inl, inr, if◌then◌else◌,
}
use rattler_build.Patch.Paths.{
  Diff, skip, max_components, find_level, starts_with_ab, exists_stripped, any_paths_exist,
  parse_patch, guess_level, guess_strip_level,
}

-- What the loop from `level` with `count` rounds finds.
Found : (ℕ → Bool) → ℕ → ℕ → Option ℕ → Type 0
Found m level count none = (t : ℕ) → level ≤ t → t < level + count → m t ≡ false
Found m level count (some s) = (m s ≡ true) × ((t : ℕ) → level ≤ t → t < s → m t ≡ false)

lt_or_eq : (a b : ℕ) → a ≤ b → (a < b) ⊎ (a ≡ b)
lt_or_eq a b h = elim (Bool-cases (ltb a b)) [
  | inl t ↦ inl (ground arith)
  | inr t ↦ inr (ground arith)
]

below_suc :
    (m : ℕ → Bool) (level bound : ℕ)
    → m level ≡ false
    → ((t : ℕ) → suc level ≤ t → t < bound → m t ≡ false)
    → (t : ℕ) → level ≤ t
    → t < bound
    → m t ≡ false
below_suc m level bound h above t a b = elim (lt_or_eq level t a) [
  | inl lt ↦ above t lt b
  | inr e ↦ rw (← e) h
]

Found-suc :
    (m : ℕ → Bool) (level count : ℕ) (r : Option ℕ)
    → m level ≡ false
    → Found m (suc level) count r
    → Found m level (suc count) r
unfolding Found
Found-suc m level count none h found =
    below_suc m level (level + suc count) h (λ t a b. found t a (omega arith))
Found-suc m level count (some s) h (holds, below) = (holds, below_suc m level s h below)

find_level-Found : (m : ℕ → Bool) (level count : ℕ) → Found m level count (find_level m level count)
unfolding Found find_level
find_level-Found m level zero = λ t a b. ground arith
find_level-Found m level (suc count) = elim (Bool-cases (m level)) [
  | inl h ↦ rw (h) (h, λ t a b. ground arith)
  | inr h ↦ rw (h) (
      Found-suc m level count (find_level m (suc level) count) h
        (find_level-Found m (suc level) count))
]

skip-length : (n : ℕ) (path : List Text) → length path ≤ n → skip n path ≡ []
unfolding skip
skip-length zero [] h = refl
skip-length zero (c ∷ path) h = ground arith
skip-length (suc n) [] h = refl
skip-length (suc n) (c ∷ path) h = skip-length n path (ground arith)

module _ (exists : List Text → Bool) (work_dir : List Text) where
  any_paths_exist_above :
      (files : List (List Text)) (t : ℕ)
      → max_components files ≤ t
      → any_paths_exist exists work_dir files t ≡ false
  unfolding any_paths_exist exists_stripped max_components
  any_paths_exist_above [] t h = refl
  any_paths_exist_above (p ∷ files) t h =
      rw (skip-length t p (omega arith)) (any_paths_exist_above files t (omega arith))

  guess_level_cases :
      (files : List (List Text)) (r : Option ℕ)
      → Found (any_paths_exist exists work_dir files) 0 (max_components files) r
      → find_level (any_paths_exist exists work_dir files) 0 (max_components files) ≡ r
      → ((any_paths_exist exists work_dir files (guess_level exists work_dir files) ≡ true)
          × ((t : ℕ)
              → t < guess_level exists work_dir files
              → any_paths_exist exists work_dir files t ≡ false))
        ⊎ (((t : ℕ) → any_paths_exist exists work_dir files t ≡ false)
            × (guess_level exists work_dir files ≡ (if any starts_with_ab files then 1 else 0)))
  unfolding Found guess_level
  guess_level_cases files none found e = inr (
    λ t. elim (Bool-cases (ltb t (max_components files))) [
      | inl b ↦ found t (omega arith) (ground arith)
      | inr b ↦ any_paths_exist_above files t (ground arith)
    ],
    rw (guess_level, e) refl,
  )
  guess_level_cases files (some s) (holds, below) e =
      inl (rw (guess_level, e) (holds, λ t b. below t (omega arith) b))

  -- Either the guessed level is the least one at which some affected file exists when stripped,
  -- which is less than the doc comment asks for, or there is none, and the guess is 1 if some
  -- affected file is below `a` or `b`, and 0 otherwise, where the doc comment announces an error.
  pub guess_strip_level_lem :
      {Hunks : Type 0}
      → (patch : List (Diff Hunks))
      → ((any_paths_exist exists work_dir
              (parse_patch patch)
              (guess_strip_level exists work_dir patch)
            ≡ true)
          × ((t : ℕ)
              → t < guess_strip_level exists work_dir patch
              → any_paths_exist exists work_dir (parse_patch patch) t ≡ false))
        ⊎ (((t : ℕ) → any_paths_exist exists work_dir (parse_patch patch) t ≡ false)
            × (guess_strip_level exists work_dir patch
                ≡ (if any starts_with_ab (parse_patch patch) then 1 else 0)))
  unfolding guess_strip_level
  guess_strip_level_lem patch =
      guess_level_cases (parse_patch patch)
        (find_level (any_paths_exist exists work_dir (parse_patch patch)) 0
          (max_components (parse_patch patch)))
        (find_level-Found (any_paths_exist exists work_dir (parse_patch patch)) 0
          (max_components (parse_patch patch)))
        refl
