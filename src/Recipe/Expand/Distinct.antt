-- ===== src/Recipe/Expand/Distinct.antt =====
-- The deduplication of the expanded combinations.
use rattler_build.Prelude.{
  ◌≡◌, refl, subst, inl, inr, ◌||◌, Bool, true, false, Bool-cases, List, [], ◌∷◌, ◌++◌, Text,
  Result, ok, ok-injective, >>=-eq-ok, any, All, All-weaken, arith, text_eq_refl,
}
use rattler_build.Variants.Combination.{Assignment}
use rattler_build.Variants.Config.{VariantConfig}
use rattler_build.Recipe.Expand.{
  same_entries, deduplicate, iterate, max_iterations, expand_variants_tree,
}

or_swap : (a b c : Bool) → ((a || b) || c) ≡ true → (b || (a || c)) ≡ true
or_swap a b c h = ground arith

module _ {V : Type 0} (to_text : V → Text) where
  -- No combination has the entries of an earlier one.
  abbrev pub Distinct : List (Assignment V) → Type 0
  Distinct [] = Unit
  Distinct (c ∷ cs) = All (λ d. same_entries to_text d c ≡ false) cs × Distinct cs

  -- Every combination of the second list has the entries of one of the first.
  abbrev pub Represents : List (Assignment V) → List (Assignment V) → Type 0
  Represents r cs = All (λ c. any (same_entries to_text c) r ≡ true) cs

  deduplicate-unseen :
      (seen cs : List (Assignment V))
      → All (λ d. any (same_entries to_text d) seen ≡ false) (deduplicate to_text seen cs)
  unfolding deduplicate
  deduplicate-unseen seen [] = tt
  deduplicate-unseen seen (c ∷ cs) = elim (Bool-cases (any (same_entries to_text c) seen)) [
    | inl s ↦ rw (s, deduplicate) (deduplicate-unseen seen cs)
    | inr s ↦
        rw (s, deduplicate)
          (
            s,
            All-weaken _ (λ d. any (same_entries to_text d) seen ≡ false)
                (deduplicate to_text (c ∷ seen) cs) (λ d h. ground arith)
                (deduplicate-unseen (c ∷ seen) cs),
          )
  ]

  deduplicate-Distinct : (seen cs : List (Assignment V)) → Distinct (deduplicate to_text seen cs)
  unfolding deduplicate
  deduplicate-Distinct seen [] = tt
  deduplicate-Distinct seen (c ∷ cs) = elim (Bool-cases (any (same_entries to_text c) seen)) [
    | inl s ↦ rw (s, deduplicate) (deduplicate-Distinct seen cs)
    | inr s ↦
        rw (s, deduplicate)
          (
            All-weaken _ (λ d. same_entries to_text d c ≡ false) (deduplicate to_text (c ∷ seen) cs)
                (λ d h. ground arith) (deduplicate-unseen (c ∷ seen) cs),
            deduplicate-Distinct (c ∷ seen) cs,
          )
  ]

  same_entries_refl : (c : Assignment V) → same_entries to_text c c ≡ true
  unfolding same_entries
  same_entries_refl [] = refl
  same_entries_refl ((k, v) ∷ c) = rw (text_eq_refl, text_eq_refl, same_entries_refl c) refl

  -- What is not among the seen stays, in one spelling.
  deduplicate-Represents :
      (seen cs : List (Assignment V))
      → All
          (λ c.
            (any (same_entries to_text c) seen
              || any (same_entries to_text c) (deduplicate to_text seen cs))
            ≡ true)
          cs
  unfolding deduplicate
  deduplicate-Represents seen [] = tt
  deduplicate-Represents seen (c ∷ cs) =
      let P = λ (x : Assignment V).
        (any (same_entries to_text x) seen
          || any (same_entries to_text x) (deduplicate to_text seen (c ∷ cs)))
        ≡ true in
      elim (Bool-cases (any (same_entries to_text c) seen)) [
        | inl s ↦ (
          rw s refl,
          All-weaken _ P cs (λ x h. rw (s, deduplicate) h) (deduplicate-Represents seen cs),
        )
        | inr s ↦ (
          rw (s, deduplicate) (rw (same_entries_refl c) refl),
          All-weaken _ P cs
              (λ x h.
                rw (s, deduplicate)
                  (or_swap (same_entries to_text x c) (any (same_entries to_text x) seen) _ h))
              (deduplicate-Represents (c ∷ seen) cs),
        )
      ]

  module _ {E : Type 0} (free_specs : Assignment V → Result E (List Text)) where
    -- If the expansion succeeds, no combination in its result has the keys and value texts of an
    -- earlier one, and each combination that its loop made final or left over has those of one in
    -- the result.
    pub expand_variants_tree-Distinct :
        (initial r : List (Assignment V)) (config : VariantConfig V)
        → expand_variants_tree to_text free_specs initial config ≡ ok r
        → Distinct r
          × ((final left : List (Assignment V)) × (iterate free_specs max_iterations config initial
                  []
                ≡ ok (final, left))
              × Represents r (final ++ left))
    unfolding expand_variants_tree
    expand_variants_tree-Distinct initial r config h =
        let (w, i, e) = >>=-eq-ok (iterate free_specs max_iterations config initial []) _ h in
        let p : deduplicate to_text [] (w.0 ++ w.1) ≡ r = ok-injective e in
        (
          subst Distinct p (deduplicate-Distinct [] (w.0 ++ w.1)),
          (
            w.0,
            w.1,
            i,
            subst (λ l. Represents l (w.0 ++ w.1)) p (deduplicate-Represents [] (w.0 ++ w.1)),
          ),
        )
