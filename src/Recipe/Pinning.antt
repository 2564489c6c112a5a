-- ===== src/Recipe/Pinning.antt =====
-- `extract_pin_subpackages` and `add_pins_to_variant` of
-- crates/rattler_build_recipe/src/variant_render.rs. `Chosen` has the proofs.
pub mod Chosen
use rattler_build.Prelude.{
  Bool, Option, none, some, List, [], ◌∷◌, ◌++◌, map, Text, Result, ok, err, ◌>>=◌, if◌then◌else◌,
  keep, codes, text_eq,
}
use rattler_build.Prelude.Maps.{insert, extend}
use rattler_build.Keys.{NormalizedKey, normalized_keyed}
use rattler_build.Pins.{Versions, Pin}
use rattler_build.Variants.Combination.{Assignment}
use rattler_build.Recipe.Requirements.{Specs, exact_pin_subpackages}
use rattler_build.Recipe.Rendered.{
  BuildString, default, unresolved, resolved, Recipe, PinSubpackageInfo, RenderedVariant,
}
use rattler_build.Recipe.Topology.Match.{best_match, count_matching}

-- `unreachable` is the `unreachable!` of a pinned variant without a build string.
pub data PinningError : Type 0 where
  missing_output : Text → PinningError
  unreachable : PinningError

-- `BuildString::as_resolved`
unfoldable pub as_resolved : BuildString → Option Text
as_resolved default = none
as_resolved (unresolved _) = none
as_resolved (resolved s) = some s

module _ (lib : Versions) (specs : Specs lib) (V : Type 0) where
  abbrev pub PinMap : Type 0
  PinMap = List (NormalizedKey × PinSubpackageInfo lib)

  abbrev pin_entry : Recipe lib specs V → Pin lib → NormalizedKey × PinSubpackageInfo lib
  pin_entry recipe pin = (
    record { text = pin.name },
    record {
      name = pin.name;
      version = recipe.version;
      build_string = none;
      exact = pin.args.exact;
    },
  )

  unfoldable pub extract_pin_subpackages : Recipe lib specs V → PinMap
  extract_pin_subpackages recipe =
      extend [] (map (pin_entry recipe) (exact_pin_subpackages lib specs recipe.requirements))

  module _ (var_eq : V → V → Bool) (of_text : Text → V) where
    abbrev pub Rendered : Type 0
    Rendered = RenderedVariant lib specs V

    -- The rendered variant that a pin refers to.
    unfoldable pub pinned_variant : Assignment V → Text → List Rendered → Option Rendered
    pinned_variant full_combination name all_rendered =
        best_match (λ v. count_matching var_eq full_combination v.full_combination)
          (keep (λ v. text_eq v.recipe.name name) all_rendered)

    -- What one round makes of a pin: the new information, and the value for the variant.
    unfoldable pub resolve_pin :
        Assignment V
        → List Rendered
        → PinSubpackageInfo lib
        → Result PinningError (PinSubpackageInfo lib × V)
    unfolding pinned_variant as_resolved
    resolve_pin full_combination all_rendered info =
        elim (pinned_variant full_combination info.name all_rendered) [
          | none ↦ err (missing_output info.name)
          | some v ↦ elim (as_resolved v.recipe.build_string) [
            | none ↦ err unreachable
            | some s ↦ ok (
              record info { version = v.recipe.version; build_string = some s },
              of_text (lib.display v.recipe.version ++ (codes " " ++ s)),
            )
          ]
        ]

    -- The loop over `pin_subpackages`: the new variant, and the new pins in their order.
    unfoldable pub add_pins_to_variant :
        Text
        → Assignment V
        → Assignment V
        → PinMap
        → List Rendered
        → Result PinningError (Assignment V × PinMap)
    unfolding resolve_pin
    add_pins_to_variant self_name variant full_combination [] all_rendered = ok (variant, [])
    add_pins_to_variant self_name variant full_combination ((key, info) ∷ pins) all_rendered =
        let next = λ (variant' : Assignment V) (info' : PinSubpackageInfo lib).
          add_pins_to_variant self_name variant' full_combination pins all_rendered >>= λ (w, ps).
          ok (w, (key, info') ∷ ps) in
        if text_eq self_name info.name
        then next variant info
        else resolve_pin full_combination all_rendered info >>= λ (info', value).
            next (insert key value variant) info'
