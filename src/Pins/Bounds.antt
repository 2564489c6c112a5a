-- ===== src/Pins/Bounds.antt =====
-- The spec that `apply` asks for, described without a buffer.
use rattler_build.Prelude.{
  ℕ, ◌≡◌, refl, sym, ◌==◌, min, ◌&&◌, Option, none, some, is_some, List, [], ◌∷◌, ◌++◌, Text,
  Result, ok, err, ◌>>=◌, if◌then◌else◌, codes, arith, inl, inr, Bool-cases, Result-cases,
  append_assoc, ap, ◌∙◌,
}
use rattler_build.Prelude.Int.{as_i32}
use rattler_build.Prelude.Strings.{trim, join}
use rattler_build.Pins.{
  Versions, PinExpression, PinBound, expression, version, Pin, PinError, could_not_pin,
  empty_pin_expression, build_specifier_with_exact,
}
use rattler_build.Pins.Apply.{
  pin_digits, push_lower, push_upper, push_comma, build_suffix, increment, apply, parse,
}

module _ (lib : Versions) where
  open lib use {Version, MatchSpec, display, parse_spec, segment_count, with_segments, bump_segment}

  abbrev Fallible : Type 0 → Type 0
  Fallible = Result (PinError lib)

  -- The version cut to as many segments as the expression has `x`s; none is an error.
  unfoldable pub cut_to : Version → PinExpression → Fallible Version
  cut_to v e =
      if pin_digits lib e == 0
      then err empty_pin_expression
      else elim (with_segments v (min (pin_digits lib e) (segment_count v))) [
        | none ↦ err could_not_pin
        | some pin ↦ ok pin
      ]

  unfoldable pub bumped_at : Version → PinExpression → Fallible Version
  bumped_at v e =
      if pin_digits lib e == 0
      then err empty_pin_expression
      else increment lib v (as_i32 (pin_digits lib e))

  -- The constraints of a pin as a list, with no buffer.
  unfoldable pub at_least : Version → Option (PinBound lib) → Fallible (List Text)
  unfolding cut_to
  at_least v none = ok []
  at_least v (some (version bound)) = ok ((codes ">=" ++ display bound) ∷ [])
  at_least v (some (expression e)) = do pin ← cut_to v e; ok ((codes ">=" ++ display pin) ∷ [])

  unfoldable pub below : Version → Option (PinBound lib) → Fallible (List Text)
  unfolding bumped_at
  below v none = ok []
  below v (some (version bound)) = ok ((codes "<" ++ display bound) ∷ [])
  below v (some (expression e)) = do pin ← bumped_at v e; ok ((codes "<" ++ display pin) ∷ [])

  unfoldable pub requested : Version → Pin lib → Fallible Text
  unfolding at_least below
  requested v pin = do
    lower ← at_least v pin.args.lower_bound
    upper ← below v pin.args.upper_bound
    ok (
        trim (
          pin.name
          ++ (codes " " ++ (join (codes ",") (lower ++ upper) ++ build_suffix lib pin.args.build))))

  push_comma-append :
      (c : ℕ) (s t : Text) → push_comma lib (c ∷ s) ++ t ≡ (c ∷ s) ++ (codes "," ++ t)
  unfolding push_comma
  push_comma-append c s t = append_assoc (c ∷ s) (codes ",") t

  push_lower-at_least :
      (v : Version) (l : Option (PinBound lib)) (k : Text → Fallible MatchSpec)
      → (push_lower lib v l >>= k) ≡ (at_least v l >>= λ cs. k (join (codes ",") cs))
  unfolding push_lower at_least join
  push_lower-at_least v none k = refl
  push_lower-at_least v (some (version b)) k = refl
  push_lower-at_least v (some (expression e)) k = ground arith

  push_upper-below :
      (v : Version) (u : Option (PinBound lib)) (k : Text → Fallible MatchSpec)
      → (push_upper lib v u [] >>= k) ≡ (below v u >>= λ cs. k (join (codes ",") cs))
  unfolding push_upper below join push_comma
  push_upper-below v none k = refl
  push_upper-below v (some (version b)) k = refl
  push_upper-below v (some (expression e)) k = ground arith

  push_upper-after :
      (v : Version) (u : Option (PinBound lib)) (c : ℕ) (s : Text) (k : Text → Fallible MatchSpec)
      → (push_upper lib v u (c ∷ s) >>= k)
        ≡ (below v u >>= λ cs. k (join (codes ",") ((c ∷ s) ∷ cs)))
  unfolding push_upper below join
  push_upper-after v none c s k = refl
  push_upper-after v (some (version b)) c s k =
      ap k (push_comma-append c s (codes "<" ++ display b))
  push_upper-after v (some (expression e)) c s k = elim (Bool-cases (pin_digits lib e == 0)) [
    | inl z ↦ rw (z, push_upper, below, bumped_at) refl
    | inr z ↦ elim (Result-cases (increment lib v (as_i32 (pin_digits lib e)))) [
      | inl (pin, i) ↦
          rw (z, i, push_upper, below, bumped_at)
            (ap k (push_comma-append c s (codes "<" ++ display pin)))
      | inr (x, i) ↦ rw (z, i, push_upper, below, bumped_at) refl
    ]
  ]

  -- The buffer holds the constraints joined by commas, and the first error is returned.
  push_upper-lower :
      (v : Version) (l u : Option (PinBound lib)) (k : Text → Fallible MatchSpec)
      → (push_lower lib v l >>= λ lower. push_upper lib v u lower >>= k)
        ≡ (at_least v l >>= λ lower. below v u >>= λ upper. k (join (codes ",") (lower ++ upper)))
  unfolding at_least join
  push_upper-lower v l u k =
      push_lower-at_least v l (λ lower. push_upper lib v u lower >>= k) ∙ after l
    where
      after :
          (l : Option (PinBound lib))
          → (at_least v l >>= λ cs. push_upper lib v u (join (codes ",") cs) >>= k) ≡ (
              at_least v l >>= λ lower.
              below v u >>= λ upper. k (join (codes ",") (lower ++ upper)))
      after none = push_upper-below v u k
      after (some (version b)) = push_upper-after v u b'>' (b'=' ∷ display b) k
      after (some (expression e)) = elim (Result-cases (cut_to v e)) [
        | inl (pin, c) ↦ rw c (push_upper-after v u b'>' (b'=' ∷ display pin) k)
        | inr (x, c) ↦ rw c refl
      ]

  requested-bind :
      (v : Version) (pin : Pin lib) (k : Text → Fallible MatchSpec)
      → (requested v pin >>= k) ≡ (
          at_least v pin.args.lower_bound >>= λ lower. below v pin.args.upper_bound >>= λ upper. k (
            trim (
              pin.name
              ++ (codes " "
                  ++ (join (codes ",") (lower ++ upper) ++ build_suffix lib pin.args.build)))))
  unfolding requested
  requested-bind v pin k = elim (Result-cases (at_least v pin.args.lower_bound)) [
    | inl (lower, l) ↦ elim (Result-cases (below v pin.args.upper_bound)) [
      | inl (upper, u) ↦ rw (l, u, requested) refl
      | inr (x, u) ↦ rw (l, u, requested) refl
    ]
    | inr (x, l) ↦ rw (l, requested) refl
  ]

  -- On every pin, version and build string, `apply` fails on a build with an exact pin, asks for
  -- the exact version and build on another exact pin, and otherwise asks for the name, the
  -- constraints of the two bounds joined by a comma, and the build, or fails as they do.
  pub apply-eq-requested :
      (v : Version) (pin : Pin lib) (build_string : Text)
      → apply lib pin v build_string ≡ (
          if is_some pin.args.build && pin.args.exact
          then err build_specifier_with_exact
          else if pin.args.exact
          then parse lib (pin.name ++ (codes " ==" ++ (display v ++ (codes " " ++ build_string))))
          else (requested v pin >>= parse lib))
  unfolding apply
  apply-eq-requested v pin build_string =
      ap
        (λ (r : Fallible MatchSpec).
          if is_some pin.args.build && pin.args.exact
          then err build_specifier_with_exact
          else if pin.args.exact
          then parse lib (pin.name ++ (codes " ==" ++ (display v ++ (codes " " ++ build_string))))
          else r)
        (push_upper-lower v pin.args.lower_bound pin.args.upper_bound (λ s.
            parse lib (trim (pin.name ++ (codes " " ++ (s ++ build_suffix lib pin.args.build)))))
          ∙ sym (requested-bind v pin (parse lib)))
