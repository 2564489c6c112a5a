-- ===== src/Variants/Selectors.antt =====
-- crates/rattler_build_variant_config/src/conda_build_config.rs: lines with selectors, and what is
-- done to them before they are read as YAML.
use rattler_build.Prelude.{
  ℕ, zero, suc, ◌-◌, ◌==◌, Bool, true, false, Option, none, some, List, [], ◌∷◌, ◌++◌, Text, Result,
  ok, err, length, is_empty, collect_some, codes, text_eq, if◌then◌else◌,
}
use rattler_build.Prelude.Strings.{trim, trim_end, split, join, starts_with}

-- `split_once(c)`
unfoldable pub split_once : ℕ → Text → Option (Text × Text)
split_once sep [] = none
split_once sep (c ∷ s) =
    let rest = split_once sep s in
    if c == sep
    then some ([], s)
    else elim rest [ none ↦ none | some (before, after) ↦ some (c ∷ before, after) ]

-- `strip_prefix`
unfoldable pub after_prefix : Text → Text → Option Text
after_prefix [] s = some s
after_prefix (c ∷ p) [] = none
after_prefix (c ∷ p) (d ∷ s) = let rest = after_prefix p s in if c == d then rest else none

-- `strip_suffix` with one character
unfoldable pub strip_last : ℕ → Text → Option Text
strip_last c [] = none
strip_last c (d ∷ []) = if d == c then some [] else none
strip_last c (d ∷ e ∷ s) = elim (strip_last c (e ∷ s)) [ none ↦ none | some t ↦ some (d ∷ t) ]

-- `replace`, of a text that is not empty: `skip` characters are left of an occurrence.
unfoldable pub replace_from : Text → Text → ℕ → Text → Text
unfolding starts_with
replace_from pattern with_text skip [] = []
replace_from pattern with_text zero (c ∷ s) =
    let found = replace_from pattern with_text (length pattern - 1) s in
    let rest = replace_from pattern with_text zero s in
    if starts_with pattern (c ∷ s) then with_text ++ found else c ∷ rest
replace_from pattern with_text (suc skip) (c ∷ s) = replace_from pattern with_text skip s

unfoldable pub replace : Text → Text → Text → Text
unfolding replace_from
replace pattern with_text s = replace_from pattern with_text zero s

-- `lines`: a line feed ends a line, with a carriage return before it; nothing follows the last.
unfoldable pub lines_of : List Text → List Text
unfolding strip_last
lines_of [] = []
lines_of (l ∷ []) = if is_empty l then [] else l ∷ []
lines_of (l ∷ k ∷ ls) =
    (elim (strip_last 13 l) [ none ↦ l | some stripped ↦ stripped ]) ∷ lines_of (k ∷ ls)

unfoldable pub lines : Text → List Text
unfolding lines_of split
lines s = lines_of (split 10 s)

pub record ParsedLine : Type 0 where
  pub content : Text
  pub condition : Option Text

-- The text of a selector in brackets.
unfoldable pub bracketed : Text → Option Text
unfolding trim after_prefix strip_last
bracketed cond = elim (after_prefix (codes "[") (trim cond)) [
  | none ↦ none
  | some s ↦ elim (strip_last b']' s) [ none ↦ none | some s ↦ some (trim s) ]
]

-- `ParsedLine::from_str`
unfoldable pub parse_line : Text → ParsedLine
unfolding split_once trim_end bracketed
parse_line s = elim (split_once b'#' s) [
  | none ↦ record { content = trim_end s; condition = none }
  | some (content, cond) ↦ record { content = trim_end content; condition = bracketed cond }
]

-- The template engine, with `environ_get`; and whether a text can be read as `f64` or `i64`.
pub record Selecting : Type 0 where
  pub render_str : Text → Result Text Text
  pub is_number : Text → Bool

module _ (selecting : Selecting) where
  open selecting use {render_str, is_number}

  unfoldable pub evaluate_condition : Text → Bool
  unfolding text_eq
  evaluate_condition condition =
      if is_empty condition
      then true
      else elim (render_str
          (codes "{% if " ++ (condition ++ codes " %}true{% else %}false{% endif %}"))) [
            | ok v ↦ text_eq v (codes "true")
            | err e ↦ false
          ]

  -- Quotes around a number that is an item of a list.
  unfoldable pub quote_number : Text → Text
  unfolding trim after_prefix replace
  quote_number line_content = elim (after_prefix (codes "- ") (trim line_content)) [
    | none ↦ line_content
    | some node ↦
        if is_number (trim node)
        then replace (trim node) (codes "\"" ++ (trim node ++ codes "\"")) line_content
        else line_content
  ]

  -- One round of the loop: the line that it pushes, if it does.
  unfoldable pub process_line : Text → Option Text
  unfolding parse_line evaluate_condition quote_number
  process_line line =
      let parsed : ParsedLine = parse_line line in
      elim parsed.condition [
        | none ↦ some (quote_number parsed.content)
        | some condition ↦
            if evaluate_condition condition then some (quote_number parsed.content) else none
      ]

  unfoldable pub select_lines : Text → Text
  unfolding replace lines process_line join
  select_lines input =
      let replaced : Text =
        replace (codes ".startswith") (codes " is startingwith")
          (replace (codes "os.environ.get") (codes "environ_get") input) in
      join (10 ∷ []) (collect_some process_line (lines replaced))
