-- ===== src/Pins/Total.antt =====
-- Where `apply` fails: neither in its panic nor in cutting a version.
use rattler_build.Prelude.{
  ℕ, suc, zero, ◌≤◌, ◌<◌, ◌≡◌, ◌≢◌, refl, ◌==◌, min, Bool, true, false, ◌&&◌, Option, none, some,
  is_some, List, Text, Result, ok, err, ◌>>=◌, if◌then◌else◌, arith, inl, inr, Bool-cases, ℕ-cases,
  Option-cases, ltb, ◌⊎◌, ◌-◌, ◌%◌, ◌^◌, Result-cases,
}
use rattler_build.Prelude.Int.{ℤ, pos, negsuc, as_i32, as_usize, half_range, pred_i32}
use rattler_build.Pins.{
  Versions, PinExpression, PinBound, expression, version, Pin, PinError, match_spec, could_not_pin,
  empty_pin_expression, version_bump, build_specifier_with_exact, panic,
}
use rattler_build.Pins.Apply.{is_zero, pin_digits, bump, increment, apply, parse}
use rattler_build.Pins.Bounds.{cut_to, bumped_at, at_least, below, requested, apply-eq-requested}

module _ (lib : Versions) where
  open lib use {Version, MatchSpec, display, parse_spec, segment_count, with_segments, bump_segment}

  abbrev Fallible : Type 0 → Type 0
  Fallible = Result (PinError lib)

  -- `with_segments` cuts a version to any number of its segments, from one on.
  abbrev pub CanCut : Type 0
  CanCut =
      (v : Version)
      → (0 < segment_count v)
        × ((n : ℕ) → 0 < n → n ≤ segment_count v → (w : Version) × (with_segments v n ≡ some w))

  -- The error is neither the panic nor the failure to cut the version.
  abbrev IsBenign : {A : Type 0} → Fallible A → Type 0
  IsBenign (ok a) = Unit
  IsBenign (err panic) = ⊥
  IsBenign (err could_not_pin) = ⊥
  IsBenign (err _) = Unit

  IsBenign-if :
      {A : Type 0} (b : Bool) (x y : Fallible A)
      → IsBenign x
      → IsBenign y
      → IsBenign (if b then x else y)
  IsBenign-if true x y h k = h
  IsBenign-if false x y h k = k

  IsBenign-bind :
      {A B : Type 0} (m : Fallible A) (f : A → Fallible B)
      → IsBenign m
      → ((a : A) → IsBenign (f a))
      → IsBenign (m >>= f)
  IsBenign-bind (ok a) f h k = k a
  IsBenign-bind (err panic) f h k = h
  IsBenign-bind (err could_not_pin) f h k = h
  IsBenign-bind (err match_spec) f h k = tt
  IsBenign-bind (err empty_pin_expression) f h k = tt
  IsBenign-bind (err build_specifier_with_exact) f h k = tt
  IsBenign-bind (err (version_bump e)) f h k = tt

  bump-IsBenign : (v : Version) (segment : ℤ) → IsBenign (bump lib v segment)
  unfolding bump
  bump-IsBenign v segment = elim (Result-cases (bump_segment v segment)) [
    | inl (bumped, e) ↦ rw (e, bump) tt
    | inr (x, e) ↦ rw (e, bump) tt
  ]

  -- The subtraction of `increment` does not overflow.
  abbrev HasPred : ℤ → Type 0
  HasPred n = (m : ℤ) × (pred_i32 n ≡ some m)

  cut_and_bump-IsBenign :
      CanCut
      → (v : Version) (k : ℕ) (n : ℤ) → 0 < k
      → HasPred n
      → IsBenign (elim (with_segments v (min (segment_count v) k)) [
        | none ↦ err panic
        | some cut ↦ elim (pred_i32 n) [ none ↦ err panic | some s ↦ bump lib cut s ]
      ])
  cut_and_bump-IsBenign can v k n h (m, p) =
      let count = can v in
      let (w, e) = count.1 (min (segment_count v) k) (omega arith) (omega arith) in
      rw (e, p) (bump-IsBenign w m)

  increment-IsBenign :
      CanCut
      → (v : Version) (n : ℤ) → (n ≡ pos 0) ⊎ ((0 < as_usize n) × HasPred n)
      → IsBenign (increment lib v n)
  unfolding increment
  increment-IsBenign can v n (inl z) = rw (z) tt
  increment-IsBenign can v n (inr (u, p)) =
      IsBenign-if (is_zero n) _ _ tt (cut_and_bump-IsBenign can v (as_usize n) n u p)

  pos-HasPred : (n : ℕ) → 0 < n → HasPred (pos n)
  unfolding pred_i32
  pos-HasPred zero h = absurd (omega arith)
  pos-HasPred (suc n) h = (pos n, refl)

  negsuc-HasPred : (n : ℕ) → n ≢ half_range - 1 → HasPred (negsuc n)
  unfolding pred_i32
  negsuc-HasPred n h = elim (Bool-cases (n == half_range - 1)) [
    | inl e ↦ absurd (h (ground arith))
    | inr e ↦ (negsuc (suc n), rw (e, pred_i32) refl)
  ]

  as_i32_cases :
      (n : ℕ)
      → n % 2 ^ 32 ≢ 2 ^ 31
      → (as_i32 n ≡ pos 0) ⊎ ((0 < as_usize (as_i32 n)) × HasPred (as_i32 n))
  unfolding as_i32 as_usize pred_i32
  as_i32_cases n h = elim (Bool-cases (ltb (n % 2 ^ 32) (2 ^ 31))) [
    | inl l ↦ elim (ℕ-cases (n % 2 ^ 32)) [
      | inl z ↦ inl (rw z refl)
      | inr p ↦ inr (rw l (p, pos-HasPred _ p))
    ]
    | inr l ↦ inr (rw l (omega arith, negsuc-HasPred _ (λ e. h (ground arith))))
  ]

  cut_to-IsBenign :
      CanCut
      → (v : Version) (e : PinExpression) (k : Version → Fallible (List Text))
      → ((w : Version) → IsBenign (k w))
      → IsBenign (cut_to lib v e >>= k)
  unfolding cut_to
  cut_to-IsBenign can v e k h = elim (Bool-cases (pin_digits lib e == 0)) [
    | inl z ↦ rw (z, cut_to) tt
    | inr z ↦
        let count = can v in
        let (w, c) =
          count.1 (min (pin_digits lib e) (segment_count v)) (ground arith) (omega arith) in
        rw (z, cut_to) (rw c (h w))
  ]

  at_least-IsBenign :
      CanCut → (v : Version) (l : Option (PinBound lib)) → IsBenign (at_least lib v l)
  unfolding at_least
  at_least-IsBenign can v none = tt
  at_least-IsBenign can v (some (version b)) = tt
  at_least-IsBenign can v (some (expression e)) = cut_to-IsBenign can v e _ (λ w. tt)

  -- The number of `x`s of an upper bound is not cast to the least i32.
  abbrev pub IsInRange : Option (PinBound lib) → Type 0
  IsInRange none = Unit
  IsInRange (some (version b)) = Unit
  IsInRange (some (expression e)) = pin_digits lib e % 2 ^ 32 ≢ 2 ^ 31

  below-IsBenign :
      CanCut → (v : Version) (u : Option (PinBound lib)) → IsInRange u → IsBenign (below lib v u)
  unfolding below bumped_at
  below-IsBenign can v none r = tt
  below-IsBenign can v (some (version b)) r = tt
  below-IsBenign can v (some (expression e)) r = elim (Bool-cases (pin_digits lib e == 0)) [
    | inl z ↦ rw (z, below, bumped_at) tt
    | inr z ↦
        rw (z, below, bumped_at)
          (IsBenign-bind (increment lib v (as_i32 (pin_digits lib e))) _
            (increment-IsBenign can v _ (as_i32_cases (pin_digits lib e) r)) (λ w. tt))
  ]

  parse-IsBenign : (s : Text) → IsBenign (parse lib s)
  unfolding parse
  parse-IsBenign s = elim (Option-cases (parse_spec s)) [
    | inl e ↦ rw (e, parse) tt
    | inr (m, e) ↦ rw (e, parse) tt
  ]

  requested-IsBenign :
      CanCut
      → (v : Version) (pin : Pin lib) → IsInRange pin.args.upper_bound
      → IsBenign (requested lib v pin)
  unfolding requested
  requested-IsBenign can v pin r =
      IsBenign-bind (at_least lib v pin.args.lower_bound) _ (at_least-IsBenign can v _) (λ lower.
        IsBenign-bind (below lib v pin.args.upper_bound) _ (below-IsBenign can v _ r) (λ upper. tt))

  IsBenign→ne :
      {A : Type 0} (r : Fallible A) → IsBenign r → (r ≢ err panic) × (r ≢ err could_not_pin)
  IsBenign→ne r h = (λ e. rw e at h, λ e. rw e at h)

  -- If every version has a segment and can be cut to any positive number of its segments, and the
  -- number of `x`s of the upper bound is not 2^31 modulo 2^32, which is cast to the least i32,
  -- `apply` neither panics in `increment` nor fails to cut the version.
  pub apply_total :
      CanCut
      → (v : Version) (pin : Pin lib) (build_string : Text) → IsInRange pin.args.upper_bound
      → (apply lib pin v build_string ≢ err panic)
        × (apply lib pin v build_string ≢ err could_not_pin)
  apply_total can v pin build_string r = IsBenign→ne _ (
      rw (apply-eq-requested lib) (
        IsBenign-if (is_some pin.args.build && pin.args.exact) _ _ tt (
          IsBenign-if pin.args.exact _ _ (parse-IsBenign _) (
            IsBenign-bind (requested lib v pin) (parse lib) (requested-IsBenign can v pin r)
              parse-IsBenign))))
