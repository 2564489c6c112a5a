-- ===== src/Patch/Unordered.antt =====
-- src/source/patch.rs: the set of affected files is walked in any order.
use rattler_build.Prelude.{
  ℕ, zero, suc, max, Bool, none, some, List, Text, length, arith, ◌≡◌, refl, ◌∙◌, ap, ap₂,
  if◌then◌else◌, Perm,
}
use mathlib.Core.List.{Permᴰ}
use mathlib.Core.Logic.{∥∥₁_elim}
use rattler_build.Prelude.Permuted.{any-Permᴰ}
use rattler_build.Patch.Paths.{
  Diff, max_components, find_level, starts_with_ab, exists_stripped, any_paths_exist, parse_patch,
  guess_level, guess_strip_level,
}

max_components-Permᴰ :
    {xs ys : List (List Text)} → Permᴰ xs ys → max_components xs ≡ max_components ys
unfolding max_components
max_components-Permᴰ Permᴰ.nil = refl
max_components-Permᴰ (Permᴰ.cons {b = b} e d) = rw e (ap (max (length b)) (max_components-Permᴰ d))
max_components-Permᴰ (Permᴰ.swap {a' = a'} {b' = b'} {l = l} e e') = rw (e, e') (omega arith)
max_components-Permᴰ (Permᴰ.trans d d') = max_components-Permᴰ d ∙ max_components-Permᴰ d'

find_level-ap :
    (m n : ℕ → Bool) (level count : ℕ)
    → ((t : ℕ) → m t ≡ n t)
    → find_level m level count ≡ find_level n level count
unfolding find_level
find_level-ap m n level zero h = refl
find_level-ap m n level (suc count) h = rw (h level, find_level-ap m n (suc level) count h) refl

module _ (exists : List Text → Bool) (work_dir : List Text) where
  guess_level-Permᴰ :
      {xs ys : List (List Text)}
      → Permᴰ xs ys
      → guess_level exists work_dir xs ≡ guess_level exists work_dir ys
  unfolding guess_level any_paths_exist
  guess_level-Permᴰ {xs} {ys} d =
      ap₂ (λ o ab. elim o [ some strip_level ↦ strip_level | none ↦ if ab then 1 else 0 ])
        (ap (find_level (any_paths_exist exists work_dir xs) 0) (max_components-Permᴰ d)
          ∙ find_level-ap (any_paths_exist exists work_dir xs) (any_paths_exist exists work_dir ys)
              0 (max_components ys) (λ t. any-Permᴰ (exists_stripped exists work_dir t) d))
        (any-Permᴰ starts_with_ab d)

  -- If the affected files are walked in another order, the same level is guessed.
  pub guess_level-Perm :
      {Hunks : Type 0} (patch : List (Diff Hunks)) (patched_files : List (List Text))
      → Perm patched_files (parse_patch patch)
      → guess_level exists work_dir patched_files ≡ guess_strip_level exists work_dir patch
  unfolding guess_strip_level
  guess_level-Perm patch patched_files h = ∥∥₁_elim h (hlevel) guess_level-Permᴰ
