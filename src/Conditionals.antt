-- ===== src/Conditionals.antt =====
-- crates/rattler_build_yaml_parser/src/types.rs: lists with templates and nested conditionals, and
-- the variables that they use. Spans and `force_string`, which the evaluation of variants does not
-- read, are left out. `Used` is about the variables.
pub mod Used
use rattler_build.Prelude.{List, [], ◌∷◌, ◌++◌, Text, text_eq, if◌then◌else◌}
use rattler_build.Prelude.Sort.{sort_by}

-- The sources of an expression and of a template.
pub record JinjaExpression : Type 0 where
  pub source : Text

pub record JinjaTemplate : Type 0 where
  pub source : Text

pub data Value (T : Type 0) : Type 0 where
  concrete : T → Value T
  template : JinjaTemplate → Value T

-- `Items` is the list of items, and `Else` the optional branch.
mutual
  pub data Item (T : Type 0) : Type 0 where
    value : Value T → Item T
    conditional : Conditional T → Item T

  pub data Conditional (T : Type 0) : Type 0 where
    branches : JinjaExpression → Items T → Else T → Conditional T

  pub data Items (T : Type 0) : Type 0 where
    nil : Items T
    cons : Item T → Items T → Items T

  pub data Else (T : Type 0) : Type 0 where
    no_else : Else T
    else_value : Items T → Else T

-- The variables that crates/rattler_build_jinja/src/ast_variables.rs finds in a source, which is not
-- modelled.
pub record Variables : Type 0 where
  pub expression_variables : Text → List Text
  pub template_variables : Text → List Text

-- `dedup`: an item that equals the one before it is dropped.
unfoldable pub dedup_after : Text → List Text → List Text
dedup_after v [] = []
dedup_after v (w ∷ vs) = let rest = dedup_after w vs in if text_eq v w then rest else w ∷ rest

unfoldable pub dedup : List Text → List Text
unfolding dedup_after
dedup [] = []
dedup (v ∷ vs) = v ∷ dedup_after v vs

-- `vars.sort(); vars.dedup();`
unfoldable pub sort_dedup : List Text → List Text
unfolding dedup sort_by
sort_dedup vs = dedup (sort_by (λ v. v) vs)

module _ {T : Type 0} (variables : Variables) where
  open variables use {expression_variables, template_variables}

  unfoldable pub value_variables : Value T → List Text
  value_variables (concrete v) = []
  value_variables (template t) = template_variables t.source

  unfoldable mutual
    unfolding value_variables sort_dedup

    pub item_variables : Item T → List Text
    item_variables (value v) = value_variables v
    item_variables (conditional c) = conditional_variables c

    pub conditional_variables : Conditional T → List Text
    conditional_variables (branches condition then_items else_items) = sort_dedup (
        expression_variables condition.source
        ++ (nested_variables then_items ++ else_variables else_items))

    pub nested_variables : Items T → List Text
    nested_variables nil = []
    nested_variables (cons item items) = item_variables item ++ nested_variables items

    pub else_variables : Else T → List Text
    else_variables no_else = []
    else_variables (else_value items) = nested_variables items

  -- `ConditionalList::used_variables`
  unfoldable pub used_variables : Items T → List Text
  unfolding nested_variables sort_dedup
  used_variables items = sort_dedup (nested_variables items)
