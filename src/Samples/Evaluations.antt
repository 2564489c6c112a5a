-- ===== src/Samples/Evaluations.antt =====
-- An engine whose expressions and templates are names of variables, and a list with conditionals.
use rattler_build.Prelude.{
  ◌≡◌, refl, false, Option, none, some, [], ◌∷◌, Text, ok, codes, any, All, is_some, text_eq,
  text_compare, if◌then◌else◌, is_empty,
}
use rattler_build.Prelude.Maps.{lookup}
use rattler_build.Keys.{normalized_keyed}
use rattler_build.Conditionals.{
  Variables, Items, nil, cons, value, concrete, template, conditional, branches, else_value,
  used_variables,
}
use rattler_build.Variants.Config.{VariantConfig, get}
use rattler_build.Variants.Evaluate.{Jinja, Stage0VariantConfig, evaluate_variant_config}
use rattler_build.Conditionals.Used.{IsIncreasing, mentions, used_variables_lem}
use rattler_build.Variants.Evaluated.{Gives, evaluate_variant_config_lem}

abbrev Context : Type 0
Context = Text → Option Text

abbrev or_empty : Option Text → Text
or_empty none = []
or_empty (some t) = t

abbrev engine : Context → Jinja Text
engine c = record {
  eval = λ s. ok (is_some (c s));
  render_str = λ s. ok (or_empty (c s));
  from_string = λ s. s;
}

abbrev variables : Variables
variables = record { expression_variables = λ s. s ∷ []; template_variables = λ s. s ∷ [] }

-- `if: unix`, then 3.10, else what `fallback` gives; and 3.12.
abbrev pythons : Items Text
pythons =
    cons
      (conditional (
        branches (record { source = codes "unix" }) (cons (value (concrete (codes "3.10"))) nil)
          (else_value (cons (value (template (record { source = codes "fallback" }))) nil))))
      (cons (value (concrete (codes "3.12"))) nil)

abbrev stage0 : Stage0VariantConfig Text
stage0 = record { zip_keys = none; variants = (record { text = codes "python" }, pythons) ∷ [] }

abbrev on_unix : Context
on_unix v = if text_eq v (codes "unix") then some [] else none

used : used_variables variables pythons ≡ codes "fallback" ∷ codes "unix" ∷ []
unfolding used_variables text_compare text_eq
used = refl

used_variables_lem_example :
    IsIncreasing (used_variables variables pythons)
    × ((x : Text)
        → any (text_eq x) (used_variables variables pythons) ≡ mentions variables x pythons)
used_variables_lem_example = used_variables_lem variables pythons

abbrev config : VariantConfig Text
config = record {
  zip_keys = none;
  variants = (record { text = codes "python" }, codes "3.10" ∷ codes "3.12" ∷ []) ∷ [];
}

evaluates : evaluate_variant_config (engine on_unix) stage0 ≡ ok config
unfolding evaluate_variant_config text_eq
evaluates = refl

empty_dropped :
    evaluate_variant_config (engine (λ v. none)) (record {
      zip_keys = none;
      variants =
          (
            record { text = codes "python" },
            cons (value (template (record { source = codes "fallback" }))) nil,
          )
          ∷ [];
    })
    ≡ ok (record { zip_keys = none; variants = [] })
unfolding evaluate_variant_config text_eq
empty_dropped = refl

evaluate_variant_config_lem_example :
    (config.zip_keys ≡ stage0.zip_keys)
    × All (λ entry. is_empty entry.1 ≡ false) config.variants
    × Gives
        (engine on_unix)
        (lookup (record { text = codes "python" }) stage0.variants)
        none
        (get config (record { text = codes "python" }))
unfolding lookup get text_eq
evaluate_variant_config_lem_example =
    evaluate_variant_config_lem (engine on_unix) stage0 config (record { text = codes "python" })
      (refl, tt) evaluates
