-- ===== src/Variants/Evaluate.antt =====
-- crates/rattler_build_variant_config/src/evaluate.rs: from a configuration with templates and
-- conditionals to one with values.
use rattler_build.Prelude.{
  Bool, true, false, Option, none, some, List, [], ◌∷◌, ◌++◌, Text, Result, ok, err, ◌>>=◌,
  is_empty, if◌then◌else◌,
}
use rattler_build.Prelude.Maps.{insert}
use rattler_build.Keys.{NormalizedKey, normalized_keyed}
use rattler_build.Conditionals.{
  Value, concrete, template, Item, value, conditional, Conditional, branches, Items, nil, cons,
  Else, no_else, else_value,
}
use rattler_build.Variants.Config.{VariantConfig}

-- The engine in a context: the truth of an expression, the text of a template, or an error text; and
-- `Variable::from_string`.
pub record Jinja (T : Type 0) : Type 0 where
  pub eval : Text → Result Text Bool
  pub render_str : Text → Result Text Text
  pub from_string : Text → T

-- The two messages of `InvalidConfig`, with the source, the key and the error of the engine.
pub data EvaluateError : Type 0 where
  condition_failed : Text → NormalizedKey → Text → EvaluateError
  template_failed : Text → NormalizedKey → Text → EvaluateError

-- `Stage0VariantConfig`, without the path.
pub record Stage0VariantConfig (T : Type 0) : Type 0 where
  pub zip_keys : Option (List (List NormalizedKey))
  pub variants : List (NormalizedKey × Items T)

module _ {T : Type 0} (jinja : Jinja T) where
  module _ (key : NormalizedKey) where
    unfoldable pub evaluate_value : Value T → Result EvaluateError (Option T)
    evaluate_value (concrete v) = ok (some v)
    evaluate_value (template t) = elim (jinja.render_str t.source) [
      | err e ↦ err (template_failed t.source key e)
      | ok rendered ↦ if is_empty rendered then ok none else ok (some (jinja.from_string rendered))
    ]

    -- `result.push(evaluated)`, if there is one.
    abbrev pub push : List T → Option T → List T
    push result none = result
    push result (some v) = result ++ v ∷ []

    unfoldable mutual
      unfolding evaluate_value

      pub evaluate_item : Item T → List T → Result EvaluateError (List T)
      evaluate_item (value v) result = evaluate_value v >>= λ evaluated. ok (push result evaluated)
      evaluate_item (conditional c) result = evaluate_conditional c result

      pub evaluate_conditional : Conditional T → List T → Result EvaluateError (List T)
      evaluate_conditional (branches condition then_items else_items) result =
          elim (jinja.eval condition.source) [
            | err e ↦ err (condition_failed condition.source key e)
            | ok true ↦ evaluate_items then_items result
            | ok false ↦ evaluate_else else_items result
          ]

      pub evaluate_else : Else T → List T → Result EvaluateError (List T)
      evaluate_else no_else result = ok result
      evaluate_else (else_value items) result = evaluate_items items result

      -- The loops over the items of a branch and of a list.
      pub evaluate_items : Items T → List T → Result EvaluateError (List T)
      evaluate_items nil result = ok result
      evaluate_items (cons item items) result =
          evaluate_item item result >>= λ result. evaluate_items items result

    unfoldable pub evaluate_conditional_list : Items T → Result EvaluateError (List T)
    unfolding evaluate_items
    evaluate_conditional_list list = evaluate_items list []

  -- The loop over the keys.
  unfoldable pub evaluate_variants :
      List (NormalizedKey × Items T)
      → List (NormalizedKey × List T)
      → Result EvaluateError (List (NormalizedKey × List T))
  unfolding evaluate_conditional_list insert
  evaluate_variants [] variants = ok variants
  evaluate_variants ((key, list) ∷ entries) variants =
      evaluate_conditional_list key list >>= λ values.
      evaluate_variants entries (if is_empty values then variants else insert key values variants)

  unfoldable pub evaluate_variant_config :
      Stage0VariantConfig T → Result EvaluateError (VariantConfig T)
  unfolding evaluate_variants
  evaluate_variant_config stage0 = evaluate_variants stage0.variants [] >>= λ variants.
      ok (record { zip_keys = stage0.zip_keys; variants = variants })
