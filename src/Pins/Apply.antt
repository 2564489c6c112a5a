-- ===== src/Pins/Apply.antt =====
-- `increment` and `Pin::apply`.
use rattler_build.Prelude.{
  ℕ, ◌==◌, min, Bool, false, ◌&&◌, Option, none, some, is_some, [], ◌∷◌, ◌++◌, Text, Result, ok,
  err, ◌>>=◌, if◌then◌else◌, length, keep, codes,
}
use rattler_build.Prelude.Int.{ℤ, pos, negsuc, as_i32, as_usize, pred_i32}
use rattler_build.Prelude.Strings.{trim}
use rattler_build.Pins.{
  Versions, PinExpression, PinBound, expression, version, Pin, PinError, match_spec, could_not_pin,
  empty_pin_expression, version_bump, build_specifier_with_exact, panic,
}

unfoldable pub is_zero : ℤ → Bool
is_zero (pos n) = n == 0
is_zero (negsuc n) = false

module _ (lib : Versions) where
  open lib use {
    Version, MatchSpec, BumpError, invalid_segment, display, parse_spec, segment_count,
    with_segments, bump_segment, with_alpha, remove_local,
  }

  abbrev Fallible : Type 0 → Type 0
  Fallible = Result (PinError lib)

  unfoldable pub bump : Version → ℤ → Fallible Version
  bump v segment = elim (bump_segment v segment) [
    | ok bumped ↦ ok (remove_local (with_alpha bumped))
    | err e ↦ err (version_bump e)
  ]

  -- It panics where the version is not cut, and where `segments - 1` overflows and overflow is
  -- checked.
  unfoldable pub increment : Version → ℤ → Fallible Version
  unfolding bump is_zero as_usize pred_i32
  increment v segments =
      if is_zero segments
      then err (version_bump invalid_segment)
      else elim (with_segments v (min (segment_count v) (as_usize segments))) [
        | none ↦ err panic
        | some cut ↦ elim (pred_i32 segments) [ none ↦ err panic | some s ↦ bump cut s ]
      ]

  -- The `x`s of an expression.
  unfoldable pub pin_digits : PinExpression → ℕ
  pin_digits e = length (keep (λ c. c == b'x') e.text)

  -- The first `match`: what it pushes to the empty `pin_str`.
  unfoldable pub push_lower : Version → Option (PinBound lib) → Fallible Text
  unfolding pin_digits
  push_lower v none = ok []
  push_lower v (some (version bound)) = ok (codes ">=" ++ display bound)
  push_lower v (some (expression e)) =
      if pin_digits e == 0
      then err empty_pin_expression
      else elim (with_segments v (min (pin_digits e) (segment_count v))) [
        | none ↦ err could_not_pin
        | some pin ↦ ok (codes ">=" ++ display pin)
      ]

  -- `if !pin_str.is_empty() { push(',') }`
  unfoldable pub push_comma : Text → Text
  push_comma [] = []
  push_comma (c ∷ s) = (c ∷ s) ++ codes ","

  -- The second `match`.
  unfoldable pub push_upper : Version → Option (PinBound lib) → Text → Fallible Text
  unfolding pin_digits push_comma increment as_i32
  push_upper v none pin_str = ok pin_str
  push_upper v (some (version bound)) pin_str =
      ok (push_comma pin_str ++ (codes "<" ++ display bound))
  push_upper v (some (expression e)) pin_str =
      if pin_digits e == 0 then err empty_pin_expression else do
        pin ← increment v (as_i32 (pin_digits e))
        ok (push_comma pin_str ++ (codes "<" ++ display pin))

  unfoldable pub parse : Text → Fallible MatchSpec
  parse s = elim (parse_spec s) [ none ↦ err match_spec | some m ↦ ok m ]

  -- `build.map(|b| format!(" {}", b)).unwrap_or_default()`
  unfoldable pub build_suffix : Option Text → Text
  build_suffix none = []
  build_suffix (some b) = codes " " ++ b

  unfoldable pub apply : Pin lib → Version → Text → Fallible MatchSpec
  unfolding push_lower push_upper build_suffix parse trim
  apply pin v build_string =
      let bounded : Fallible MatchSpec = (do
        lower ← push_lower v pin.args.lower_bound
        pin_str ← push_upper v pin.args.upper_bound lower
        parse (trim (pin.name ++ (codes " " ++ (pin_str ++ build_suffix pin.args.build))))) in
      if is_some pin.args.build && pin.args.exact
      then err build_specifier_with_exact
      else if pin.args.exact
      then parse (pin.name ++ (codes " ==" ++ (display v ++ (codes " " ++ build_string))))
      else bounded
