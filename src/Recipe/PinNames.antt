-- ===== src/Recipe/PinNames.antt =====
-- The names that order the outputs cover every output that is pinned exactly.
use rattler_build.Prelude.{
  ◌≡◌, refl, Bool, true, false, Option, none, some, List, [], ◌∷◌, ◌++◌, Text, keep, collect_some,
  arith, All, All-append, All-split, All-collect_some, OnSome, text_eq_refl, if◌then◌else◌,
}
use rattler_build.Prelude.Maps.{contains, contains-append, text_keyed}
use rattler_build.Pins.{Versions, Pin}
use rattler_build.Recipe.Requirements.{
  Specs, Dependency, spec, pin_subpackage, pin_compatible, Requirements, name, all_requirements,
  run_exports_and_constraints, subpackage_pin, subpackage_name, all_pin_subpackages,
  exact_pin_subpackages, extract_dependency_names,
}

abbrev IsWithin : List Text → List Text → Type 0
IsWithin names xs = (n : Text) → contains xs n ≡ true → contains names n ≡ true

IsWithin-append :
    (names xs ys : List Text) → IsWithin names (xs ++ ys) → IsWithin names xs × IsWithin names ys
IsWithin-append names xs ys h = (
  λ n e. h n (rw (contains-append, e) refl),
  λ n e. h n (ground (arith, contains-append xs ys n)),
)

All-keep {ℓ} :
    {A : Type ℓ} (P : A → Type 0) (p : A → Bool) (xs : List A) → All P xs → All P (keep p xs)
All-keep P p [] h = tt
All-keep P p (x ∷ xs) h = elim (p x) as (λ b. All P (if b then x ∷ keep p xs else keep p xs)) [
  | true ↦ (h.0, All-keep P p xs h.1)
  | false ↦ All-keep P p xs h.1
]

module _ (lib : Versions) (specs : Specs lib) (names : List Text) where
  -- The name of a subpackage pin is among `names`.
  abbrev Covered : Dependency lib specs → Type 0
  Covered d = OnSome (λ pin. contains names pin.name ≡ true) (subpackage_pin lib specs d)

  tail-IsWithin : (n : Text) (xs : List Text) → IsWithin names (n ∷ xs) → IsWithin names xs
  unfolding contains
  tail-IsWithin n xs h m e = h m (ground arith)

  head-IsWithin : (n : Text) (xs : List Text) → IsWithin names (n ∷ xs) → contains names n ≡ true
  unfolding contains
  head-IsWithin n xs h = h n (ground (arith, text_eq_refl n))

  later-IsWithin :
      (o : Option Text) (xs : List Text)
      → IsWithin names (elim o [ none ↦ xs | some n ↦ n ∷ xs ])
      → IsWithin names xs
  later-IsWithin none xs h = h
  later-IsWithin (some n) xs h = tail-IsWithin n xs h

  name-Covered :
      (ds : List (Dependency lib specs))
      → IsWithin names (collect_some (name lib specs) ds)
      → All Covered ds
  unfolding name
  name-Covered [] h = tt
  name-Covered (spec s ∷ ds) h = (tt, name-Covered ds (later-IsWithin (specs.exact_name s) _ h))
  name-Covered (pin_subpackage pin ∷ ds) h =
      (head-IsWithin _ _ h, name-Covered ds (tail-IsWithin _ _ h))
  name-Covered (pin_compatible pin ∷ ds) h = (tt, name-Covered ds (tail-IsWithin _ _ h))

  subpackage-Covered :
      (ds : List (Dependency lib specs))
      → IsWithin names (collect_some (subpackage_name lib specs) ds)
      → All Covered ds
  subpackage-Covered [] h = tt
  subpackage-Covered (spec s ∷ ds) h = (tt, subpackage-Covered ds h)
  subpackage-Covered (pin_subpackage pin ∷ ds) h =
      (head-IsWithin _ _ h, subpackage-Covered ds (tail-IsWithin _ _ h))
  subpackage-Covered (pin_compatible pin ∷ ds) h = (tt, subpackage-Covered ds h)

module _ (lib : Versions) (specs : Specs lib) where
  -- Each section of the requirements feeds one of the two lists of names.
  all_requirements-Covered :
      (r : Requirements lib specs)
      → All
          (Covered lib specs (extract_dependency_names lib specs r))
          (all_requirements lib specs r)
  unfolding extract_dependency_names all_requirements
  all_requirements-Covered r =
      let names = extract_dependency_names lib specs r in
      let (direct, exported) =
        IsWithin-append names (collect_some (name lib specs) (r.build ++ r.host)) _ (λ n e. e) in
      let P = Covered lib specs names in
      let first = name-Covered lib specs names (r.build ++ r.host) direct in
      let rest =
        subpackage-Covered lib specs names (run_exports_and_constraints lib specs r) exported in
      let (build, host) = All-split P r.build r.host first in
      let (noarch, c1) = All-split P r.run_exports.noarch _ rest in
      let (strong, c2) = All-split P r.run_exports.strong _ c1 in
      let (strong_constraints, c3) = All-split P r.run_exports.strong_constraints _ c2 in
      let (weak, c4) = All-split P r.run_exports.weak _ c3 in
      let (weak_constraints, c5) = All-split P r.run_exports.weak_constraints _ c4 in
      let (run_constraints, run) = All-split P r.run_constraints r.run c5 in
      All-append P r.build _ build (
        All-append P r.host _ host (
          All-append P r.run _ run (
            All-append P r.run_constraints _ run_constraints (
              All-append P r.run_exports.weak _ weak (
                All-append P r.run_exports.weak_constraints _ weak_constraints (
                  All-append P r.run_exports.strong _ strong (
                    All-append P r.run_exports.strong_constraints _ strong_constraints noarch)))))))

  -- The name of every exact subpackage pin of the requirements is among the dependency names that
  -- the sort goes by.
  pub exact_pin_subpackages-contained :
      (r : Requirements lib specs)
      → All
          (λ (pin : Pin lib). contains (extract_dependency_names lib specs r) pin.name ≡ true)
          (exact_pin_subpackages lib specs r)
  unfolding exact_pin_subpackages
  exact_pin_subpackages-contained r =
      All-keep _ (λ pin. pin.args.exact) (all_pin_subpackages lib specs r)
        (All-collect_some _ (subpackage_pin lib specs) (all_requirements lib specs r)
          (all_requirements-Covered r))
