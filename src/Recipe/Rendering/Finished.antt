-- ===== src/Recipe/Rendering/Finished.antt =====
-- What a rendering that succeeds has made of its outputs.
use rattler_build.Prelude.{
  Result-cases, inl, inr, Option, ℕ, ◌≡◌, refl, ap, ◌∙◌, subst, inl, inr, true, Bool-cases, Option,
  none, some, is_some, List, [], ◌∷◌, ◌++◌, map, append-nil, Text, ok, >>=-eq-ok, All, All-append,
  ok-injective,
}
use rattler_build.Keys.{NormalizedKey, normalized_keyed}
use rattler_build.Pins.{Versions}
use rattler_build.Variants.Combination.{Assignment}
use rattler_build.Variants.Config.{VariantConfig, combinations}
use rattler_build.Recipe.Requirements.{Specs}
use rattler_build.Recipe.Hash.{HashInfo}
use rattler_build.Recipe.Rendered.{BuildString, default, unresolved, resolved}
use rattler_build.Recipe.Pinning.{PinMap, as_resolved, extract_pin_subpackages, add_pins_to_variant}
use rattler_build.Recipe.Expand.{expand_variants_tree}
use rattler_build.Recipe.Topology.Graph.{topological_sort_variants}
use rattler_build.Recipe.Rendering.{
  parse, topological_sort, variant_expand, pinning, or_error, Engine, Item, resolve, is_resolved,
  finalize_build_string_single, apply_pins, pin_variant, resolve_outputs, resolve_sorted,
  sort_and_resolve, render_initial, render_with_empty_combinations, render_with_variants,
  render_combinations, template_variables, or_zero, is_python,
}

abbrev HasString : BuildString → Type 0
HasString s = is_some (as_resolved s) ≡ true

module _ {lib : Versions} {specs : Specs lib} {V E : Type 0} (engine : Engine lib specs V E) where
  abbrev pub IsFinished : Item engine → Type 0
  IsFinished r = HasString r.recipe.build_string

  -- What the loop over the results leaves as it is.
  abbrev pub identity : Item engine → Text × Assignment V
  identity r = (r.recipe.name, r.full_combination)

  resolve-HasString :
      (s s' : BuildString) (info : HashInfo) (n : ℕ) (variables : List (Text × V))
      → resolve engine s info n variables ≡ ok s'
      → HasString s'
  unfolding resolve as_resolved
  resolve-HasString default s' info n variables h = subst HasString (ok-injective h) refl
  resolve-HasString (unresolved template) s' info n variables h =
      let (t, _, e) =
        >>=-eq-ok (or_error parse (engine.render_str variables info.hash n template)) _ h in
      subst HasString (ok-injective e) refl
  resolve-HasString (resolved t) s' info n variables h = subst HasString (ok-injective h) refl

  is_resolved-HasString : (s : BuildString) → is_resolved engine s ≡ true → HasString s
  unfolding as_resolved
  is_resolved-HasString default h = cc
  is_resolved-HasString (unresolved t) h = cc
  is_resolved-HasString (resolved t) h = refl

  finalize-IsFinished :
      (r r' : Item engine)
      → finalize_build_string_single engine r ≡ ok r'
      → IsFinished r' × (identity r' ≡ identity r)
  unfolding finalize_build_string_single
  finalize-IsFinished r r' h = elim (Bool-cases (is_resolved engine r.recipe.build_string)) [
    | inl e ↦
        let p : r ≡ r' = (let q = rw e at h in cc) in
        subst (λ x. IsFinished x × (identity x ≡ identity r)) p
          (is_resolved-HasString r.recipe.build_string e, refl)
    | inr e ↦
        let info = engine.hash_of r.variant (is_python engine r.recipe.noarch) in
        let (s, a, b) =
          >>=-eq-ok
            (resolve engine r.recipe.build_string info (or_zero engine r.recipe.build_number)
              (template_variables engine r))
            _ (rw e at h) in
        let p = ok-injective b in
        subst (λ x. IsFinished x × (identity x ≡ identity r)) p
          (resolve-HasString r.recipe.build_string s _ _ _ a, refl)
  ]

  apply_pins-keeps :
      (r r' : Item engine) (pins : PinMap lib specs V) (all_rendered : List (Item engine))
      → apply_pins engine r pins all_rendered ≡ ok r'
      → identity r' ≡ identity r
  unfolding apply_pins
  apply_pins-keeps r r' [] all_rendered h =
      subst (λ x. identity x ≡ identity r) (ok-injective h) refl
  apply_pins-keeps r r' (p ∷ ps) all_rendered h =
      let (_, _, e) =
        >>=-eq-ok
          (or_error pinning (
            add_pins_to_variant lib specs V engine.var_eq engine.of_text r.recipe.name r.variant
              r.full_combination (p ∷ ps) all_rendered))
          _ h in
      subst (λ x. identity x ≡ identity r) (ok-injective e) refl

  pin_variant-keeps :
      (r r' : Item engine) (all_rendered : List (Item engine))
      → pin_variant engine r all_rendered ≡ ok r'
      → identity r' ≡ identity r
  unfolding pin_variant
  pin_variant-keeps r r' all_rendered h =
      apply_pins-keeps r r' (extract_pin_subpackages lib specs V r.recipe) all_rendered h

  -- Replacing one of the results keeps the identities.
  identity-replace :
      (done todo : List (Item engine)) (x y : Item engine)
      → identity y ≡ identity x
      → map identity ((done ++ y ∷ []) ++ todo) ≡ map identity (done ++ x ∷ todo)
  identity-replace [] todo x y e = ap (λ i. i ∷ map identity todo) e
  identity-replace (d ∷ done) todo x y e =
      ap (λ l. identity d ∷ l) (identity-replace done todo x y e)

  resolve_outputs-IsFinished :
      (done todo r : List (Item engine))
      → All IsFinished done
      → resolve_outputs engine done todo ≡ ok r
      → All IsFinished r × (map identity r ≡ map identity (done ++ todo))
  unfolding resolve_outputs
  resolve_outputs-IsFinished done [] r f h =
      subst (λ x. All IsFinished x × (map identity x ≡ map identity (done ++ []))) (ok-injective h)
        (f, rw append-nil refl)
  resolve_outputs-IsFinished done (x ∷ todo) r f h =
      let (pinned, a, h') = >>=-eq-ok (pin_variant engine x (done ++ x ∷ todo)) _ h in
      let (final, b, k) = >>=-eq-ok (finalize_build_string_single engine pinned) _ h' in
      let (finished, same) = finalize-IsFinished pinned final b in
      let kept = pin_variant-keeps x pinned _ a in
      let (g, names) =
        resolve_outputs-IsFinished (done ++ final ∷ []) todo r
          (All-append IsFinished done (final ∷ []) f (finished, tt)) k in
      (g, names ∙ identity-replace done todo x final (same ∙ kept))

  resolve_sorted-IsFinished :
      (order : Option (List (Item engine))) (r : List (Item engine))
      → resolve_sorted engine order ≡ ok r
      → All IsFinished r
  unfolding resolve_sorted
  resolve_sorted-IsFinished none r e = cc
  resolve_sorted-IsFinished (some sorted) r e = (resolve_outputs-IsFinished [] sorted r tt e).0

  sort_and_resolve-IsFinished :
      (results r : List (Item engine)) → sort_and_resolve engine results ≡ ok r → All IsFinished r
  unfolding sort_and_resolve
  sort_and_resolve-IsFinished results r h =
      let (order, _, e) =
        >>=-eq-ok
          (or_error topological_sort
            (topological_sort_variants lib specs V engine.var_eq engine.toposort results))
          _ h in
      resolve_sorted-IsFinished order r e

  resolve_sorted-identity :
      (order : Option (List (Item engine))) (r : List (Item engine))
      → resolve_sorted engine order ≡ ok r
      → (sorted : List (Item engine)) × (order ≡ some sorted)
        × (map identity r ≡ map identity sorted)
  unfolding resolve_sorted
  resolve_sorted-identity none r e = cc
  resolve_sorted-identity (some sorted) r e =
      (sorted, refl, (resolve_outputs-IsFinished [] sorted r tt e).1)

  -- If the sort of the results and the loop behind it succeed, the sort gave an order, and the
  -- outputs have the names and the full combinations of the sorted results, in the same order.
  pub sort_and_resolve-identity :
      (results r : List (Item engine))
      → sort_and_resolve engine results ≡ ok r
      → (sorted : List (Item engine)) × (topological_sort_variants lib specs V engine.var_eq
            engine.toposort results
          ≡ ok (some sorted))
        × (map identity r ≡ map identity sorted)
  unfolding sort_and_resolve
  sort_and_resolve-identity results r h =
      elim (Result-cases
        (topological_sort_variants lib specs V engine.var_eq engine.toposort results)) [
          | inl (order, t) ↦
              let (sorted, p, q) =
                resolve_sorted-identity order r (rw (t, sort_and_resolve) at h) in
              (sorted, rw p at t, q)
          | inr (x, t) ↦ absurd (let q = rw (t, sort_and_resolve) at h in cc)
        ]

  render_initial-IsFinished :
      (config : VariantConfig V) (initial : List (Assignment V)) (r : List (Item engine))
      → render_initial engine config initial ≡ ok r
      → All IsFinished r
  unfolding render_initial render_with_empty_combinations
  render_initial-IsFinished config [] r h =
      let (outputs, _, e) = >>=-eq-ok (or_error parse engine.evaluate_empty) _ h in
      sort_and_resolve-IsFinished _ r e
  render_initial-IsFinished config (c ∷ cs) r h =
      let (expanded, _, h') =
        >>=-eq-ok
          (or_error parse (expand_variants_tree engine.to_text engine.free_specs (c ∷ cs) config)) _
          h in
      let (results, _, e) = >>=-eq-ok (render_combinations engine expanded []) _ h' in
      sort_and_resolve-IsFinished results r e

  -- If a rendering succeeds, every output of it has a resolved build string.
  pub render_with_variants-IsFinished :
      (config : VariantConfig V) (used : List NormalizedKey) (r : List (Item engine))
      → render_with_variants engine config used ≡ ok r
      → All IsFinished r
  unfolding render_with_variants
  render_with_variants-IsFinished config used r h =
      let (initial, _, e) =
        >>=-eq-ok (or_error variant_expand (combinations engine.debug config used)) _ h in
      render_initial-IsFinished config initial r e
