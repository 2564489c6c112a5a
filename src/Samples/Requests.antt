-- ===== src/Samples/Requests.antt =====
-- A package library with versions of numbered segments, pins, and rendered recipes.
use rattler_build.Prelude.{
  ℕ, zero, suc, ◌≤◌, ◌<◌, ◌≡◌, ◌≢◌, refl, Option, none, some, List, [], ◌∷◌, ◌++◌, map, Text,
  Result, ok, err, ◌>>=◌, codes, length, Bool, true, false, if◌then◌else◌, arith,
}
use rattler_build.Prelude.Int.{ℤ, pos, negsuc}
use rattler_build.Prelude.Strings.{join, decimal}
use rattler_build.Prelude.Maps.{text_keyed}
use rattler_build.Keys.{normalized_keyed}
use rattler_build.Pins.{Versions, Pin, default_args, expression, panic, could_not_pin}
use rattler_build.Pins.Apply.{apply, parse, pin_digits}
use rattler_build.Pins.Bounds.{requested, apply-eq-requested}
use rattler_build.Pins.Total.{CanCut, apply_total}

pub record Numbered : Type 0 where
  pub first : ℕ
  pub rest : List ℕ
  pub alpha : Bool

-- The first `n` of the numbers.
unfoldable pub front : ℕ → List ℕ → Option (List ℕ)
front zero l = some []
front (suc n) [] = none
front (suc n) (x ∷ l) = elim (front n l) [ none ↦ none | some t ↦ some (x ∷ t) ]

unfoldable pub bumped : ℕ → List ℕ → Option (List ℕ)
bumped n [] = none
bumped zero (x ∷ l) = some (suc x ∷ l)
bumped (suc n) (x ∷ l) = elim (bumped n l) [ none ↦ none | some t ↦ some (x ∷ t) ]

front_total : (n : ℕ) (l : List ℕ) → n ≤ length l → (t : List ℕ) × (front n l ≡ some t)
unfolding front
front_total zero l h = ([], refl)
front_total (suc n) [] h = absurd (omega arith)
front_total (suc n) (x ∷ l) h = let (t, e) = front_total n l (omega arith) in (x ∷ t, rw e refl)

abbrev cut : Numbered → ℕ → Option Numbered
cut v zero = none
cut v (suc n) = elim (front n v.rest) [ none ↦ none | some t ↦ some (record v { rest = t }) ]

abbrev bump_at : Numbered → ℤ → Result (Unit {0}) Numbered
bump_at v (negsuc n) = err tt
bump_at v (pos zero) = ok (record v { first = suc v.first })
bump_at v (pos (suc n)) = elim (bumped n v.rest) [
  | none ↦ err tt
  | some t ↦ ok (record v { rest = t })
]

abbrev show : Numbered → Text
show v =
    join (codes ".") (map decimal (v.first ∷ v.rest) ++ (if v.alpha then codes "0a0" ∷ [] else []))

abbrev pub numbered : Versions
numbered = record {
  Version = Numbered;
  MatchSpec = Text;
  BumpError = Unit {0};
  invalid_segment = tt;
  display = show;
  parse_version = λ s. none;
  parse_spec = λ s. some s;
  segment_count = λ v. suc (length v.rest);
  with_segments = cut;
  bump_segment = bump_at;
  with_alpha = λ v. record v { alpha = true };
  remove_local = λ v. v;
}

cut_total :
    (v : Numbered) (n : ℕ) → 0 < n → n ≤ suc (length v.rest) → (w : Numbered) × (cut v n ≡ some w)
cut_total v zero p q = absurd (omega arith)
cut_total v (suc n) p q =
    let (t, e) = front_total n v.rest (omega arith) in (record v { rest = t }, rw (e, cut) refl)

numbered-CanCut : CanCut numbered
numbered-CanCut v = (omega arith, cut_total v)

abbrev pub v1_23 : Numbered
v1_23 = record { first = 1; rest = 23 ∷ 4 ∷ []; alpha = false }

abbrev pub minor_pin : Pin numbered
minor_pin = record {
  name = codes "foo";
  args = record (default_args numbered) {
    lower_bound = some (expression (record { text = codes "x.x.x" }));
    upper_bound = some (expression (record { text = codes "x.x" }));
  };
}

minor_pin_applied :
    apply numbered minor_pin v1_23 (codes "h1_0") ≡ ok (codes "foo >=1.23.4,<1.24.0a0")
unfolding apply front bumped decimal join
minor_pin_applied = refl

apply-eq-requested_example :
    apply numbered minor_pin v1_23 (codes "h1_0")
    ≡ (requested numbered v1_23 minor_pin >>= parse numbered)
apply-eq-requested_example = apply-eq-requested numbered v1_23 minor_pin (codes "h1_0")

apply_total_example :
    (apply numbered minor_pin v1_23 (codes "h1_0") ≢ err panic)
    × (apply numbered minor_pin v1_23 (codes "h1_0") ≢ err could_not_pin)
unfolding pin_digits
apply_total_example =
    apply_total numbered numbered-CanCut v1_23 minor_pin (codes "h1_0") (λ e. omega arith)
