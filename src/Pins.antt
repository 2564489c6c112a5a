-- ===== src/Pins.antt =====
-- crates/rattler_build_types/src/pin.rs: the data of a pin. `Apply` is `Pin::apply` and `increment`,
-- `Bounds` and `Total` its proofs.
pub mod Apply
pub mod Bounds
pub mod Total
use rattler_build.Prelude.Int
use rattler_build.Prelude.{
  ℕ, ◌==◌, Bool, true, false, not, ◌&&◌, Option, none, some, List, [], ◌∷◌, Text, Result, ok, err,
  if◌then◌else◌, any, codes, ◌>>=◌,
}

-- What the code asks of a version and of a match spec, which `rattler_conda_types` implements.
pub record Versions : Type 1 where
  pub Version : Type 0
  pub MatchSpec : Type 0
  pub BumpError : Type 0
  pub invalid_segment : BumpError
  pub display : Version → Text
  pub parse_version : Text → Option Version
  pub parse_spec : Text → Option MatchSpec
  pub segment_count : Version → ℕ
  pub with_segments : Version → ℕ → Option Version
  pub bump_segment : Version → Int.ℤ → Result BumpError Version
  pub with_alpha : Version → Version
  pub remove_local : Version → Version

-- The text of a pin expression.
pub record PinExpression : Type 0 where
  pub text : Text

-- The characters that a pin expression may not contain.
unfoldable pub is_foreign : ℕ → Bool
is_foreign c = not (c == b'x') && not (c == b'.')

-- `PinExpression::from_str`
unfoldable pub parse_expression : Text → Option PinExpression
unfolding is_foreign
parse_expression s = if any is_foreign s then none else some (record { text = s })

module _ (lib : Versions) where
  open lib use {Version, BumpError, parse_version}

  pub data PinBound : Type 0 where
    expression : PinExpression → PinBound
    version : Version → PinBound

  -- `PinBound::from_str`
  unfoldable pub parse_bound : Text → Option PinBound
  unfolding parse_expression
  parse_bound s =
      if any is_foreign s
      then elim (parse_version s) [ none ↦ none | some v ↦ some (version v) ]
      else elim (parse_expression s) [ none ↦ none | some e ↦ some (expression e) ]

  pub record PinArgs : Type 0 where
    pub lower_bound : Option PinBound
    pub upper_bound : Option PinBound
    pub exact : Bool
    pub build : Option Text

  pub record Pin : Type 0 where
    pub name : Text
    pub args : PinArgs

  -- `PinArgs::default`
  abbrev pub default_args : PinArgs
  default_args = record {
    lower_bound = some (expression (record { text = codes "x.x.x.x.x.x" }));
    upper_bound = some (expression (record { text = codes "x" }));
    exact = false;
    build = none;
  }

  -- `panic` is the `unwrap` or the overflow of `increment`.
  pub data PinError : Type 0 where
    match_spec : PinError
    could_not_pin : PinError
    empty_pin_expression : PinError
    version_bump : BumpError → PinError
    build_specifier_with_exact : PinError
    panic : PinError
