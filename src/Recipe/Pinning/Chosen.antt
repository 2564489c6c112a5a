-- ===== src/Recipe/Pinning/Chosen.antt =====
-- What a variant's pins refer to after `add_pins_to_variant`.
use rattler_build.Prelude.{
  ◌≤◌, ◌≡◌, refl, sym, subst, ◌⊎◌, inl, inr, Bool, true, Bool-cases, Option, some, is_some,
  Option-cases, List, [], ◌∷◌, Text, ok, >>=-eq-ok, keep, text_eq, All, OnSome,
}
use rattler_build.Prelude.Maps.{insert}
use rattler_build.Keys.{NormalizedKey, normalized_keyed}
use rattler_build.Pins.{Versions}
use rattler_build.Variants.Combination.{Assignment}
use rattler_build.Recipe.Requirements.{Specs}
use rattler_build.Recipe.Rendered.{PinSubpackageInfo, RenderedVariant}
use rattler_build.Recipe.Topology.Match.{best_match, best_match-max, best_match-All, count_matching}
use rattler_build.Recipe.Pinning.{
  as_resolved, PinMap, pinned_variant, resolve_pin, add_pins_to_variant,
}

All-keep :
    {A : Type 0} (P : A → Type 0) (p : A → Bool) (xs : List A)
    → ((x : A) → p x ≡ true → P x)
    → All P (keep p xs)
All-keep P p [] h = tt
All-keep P p (x ∷ xs) h = elim (Bool-cases (p x)) [
  | inl e ↦ rw e (h x e, All-keep P p xs h)
  | inr e ↦ rw e (All-keep P p xs h)
]

OnSome-some : {A : Type 0} (P : A → Type 0) (o : Option A) (a : A) → o ≡ some a → OnSome P o → P a
OnSome-some P o a e h = subst (OnSome P) e h

module _ (lib : Versions) (specs : Specs lib) (V : Type 0) (var_eq : V → V → Bool)
    (of_text : Text → V) where
  abbrev Item : Type 0
  Item = RenderedVariant lib specs V

  -- `v` has the pinned name, and no other variant of that name agrees with more of the combination.
  abbrev pub IsBest : Assignment V → Text → List Item → Item → Type 0
  IsBest full_combination name all_rendered v =
      (text_eq v.recipe.name name ≡ true)
      × All
          (λ (u : Item).
            count_matching var_eq full_combination u.full_combination
            ≤ count_matching var_eq full_combination v.full_combination)
          (keep (λ u. text_eq u.recipe.name name) all_rendered)

  -- The pin has the version and the resolved build string of such a variant.
  abbrev pub IsChosen : Assignment V → List Item → PinSubpackageInfo lib → Type 0
  IsChosen full_combination all_rendered info =
      (v : Item) × IsBest full_combination info.name all_rendered v
      × (info.version ≡ v.recipe.version)
      × (info.build_string ≡ as_resolved v.recipe.build_string)
      × (is_some info.build_string ≡ true)

  pinned_variant-IsBest :
      (full_combination : Assignment V) (name : Text) (all_rendered : List Item) (v : Item)
      → pinned_variant lib specs V var_eq of_text full_combination name all_rendered ≡ some v
      → IsBest full_combination name all_rendered v
  unfolding pinned_variant
  pinned_variant-IsBest full_combination name all_rendered v e =
      let candidates = keep (λ (u : Item). text_eq u.recipe.name name) all_rendered in
      let count = λ (u : Item). count_matching var_eq full_combination u.full_combination in
      (
        OnSome-some (λ (u : Item). text_eq u.recipe.name name ≡ true) (best_match count candidates)
            v e (best_match-All count _ candidates (All-keep _ _ all_rendered (λ u p. p))),
        OnSome-some (λ (u : Item). All (λ w. count w ≤ count u) candidates)
            (best_match count candidates) v e (best_match-max count candidates),
      )

  resolve_pin-IsChosen :
      (full_combination : Assignment V) (all_rendered : List Item) (info : PinSubpackageInfo lib)
      (r : PinSubpackageInfo lib × V)
      → resolve_pin lib specs V var_eq of_text full_combination all_rendered info ≡ ok r
      → IsChosen full_combination all_rendered r.0
  unfolding resolve_pin
  resolve_pin-IsChosen full_combination all_rendered info r h =
      elim (Option-cases
        (pinned_variant lib specs V var_eq of_text full_combination info.name all_rendered)) [
          | inl e ↦ absurd (let p = rw (e, resolve_pin) at h in cc)
          | inr (v, e) ↦ elim (Option-cases (as_resolved v.recipe.build_string)) [
            | inl n ↦ absurd (let p = rw (e, n, resolve_pin) at h in cc)
            | inr (s, n) ↦
                let p = rw (e, n, resolve_pin) at h in
                let q : (record info { version = v.recipe.version; build_string = some s }) ≡ r.0 =
                  cc in
                subst (IsChosen full_combination all_rendered) q (
                  v,
                  pinned_variant-IsBest full_combination info.name all_rendered v e,
                  refl,
                  sym n,
                  refl,
                )
          ]
        ]

  -- If the pins of a variant are added, each of them is of the variant's own name, or has the
  -- version and the resolved build string of a rendered variant of its name, and no other
  -- rendered variant of that name agrees with more of the full combination.
  pub add_pins_to_variant-IsChosen :
      (self_name : Text) (variant full_combination : Assignment V) (pins : PinMap lib specs V)
      (all_rendered : List Item) (w : Assignment V) (ps : PinMap lib specs V)
      → add_pins_to_variant lib specs V var_eq of_text self_name variant full_combination pins
          all_rendered
        ≡ ok (w, ps)
      → All
          (λ (p : NormalizedKey × PinSubpackageInfo lib).
            (text_eq self_name p.1.name ≡ true) ⊎ IsChosen full_combination all_rendered p.1)
          ps
  unfolding add_pins_to_variant
  add_pins_to_variant-IsChosen self_name variant full_combination [] all_rendered w ps h =
      let p : [] ≡ ps = cc in subst (All _) p tt
  add_pins_to_variant-IsChosen self_name variant full_combination ((key, info) ∷ pins) all_rendered
        w ps h =
      let P = λ (p : NormalizedKey × PinSubpackageInfo lib).
        (text_eq self_name p.1.name ≡ true) ⊎ IsChosen full_combination all_rendered p.1 in
      elim (Bool-cases (text_eq self_name info.name)) [
        | inl e ↦
            let (r, a, b) = >>=-eq-ok _ _ (rw e at h) in
            let p : (key, info) ∷ r.1 ≡ ps = cc in
            subst (All P) p (
              inl e,
              add_pins_to_variant-IsChosen self_name variant full_combination pins all_rendered r.0
                  r.1 a,
            )
        | inr e ↦
            let (found, a, b) = >>=-eq-ok _ _ (rw e at h) in
            let (r, c, d) = >>=-eq-ok _ _ b in
            let p : (key, found.0) ∷ r.1 ≡ ps = cc in
            subst (All P) p (
              inr (resolve_pin-IsChosen full_combination all_rendered info found a),
              add_pins_to_variant-IsChosen self_name (insert key found.1 variant) full_combination
                  pins all_rendered r.0 r.1 c,
            )
      ]
