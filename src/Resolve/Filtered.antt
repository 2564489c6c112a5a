-- ===== src/Resolve/Filtered.antt =====
-- What the filter of run exports gives: the specs of the packages that are not ignored, in order.
use rattler_build.Prelude.{
  ◌⊎◌, ◌≡◌, refl, sym, ap, ◌∙◌, inl, inr, Bool, true, false, ◌&&◌, ◌||◌, Bool-cases, Option, none,
  some, List, [], ◌∷◌, ◌++◌, map, Text, Result, ok, err, ◌>>=◌, >>=-eq-ok, Result-cases,
  ok-injective, collect, collect_some, all, if◌then◌else◌, arith,
}
use rattler_build.Prelude.Permuted.{flat_map}
use rattler_build.Prelude.Maps.{contains, text_keyed}
use rattler_build.Pins.{Versions}
use rattler_build.Recipe.Requirements.{Specs, IgnoreRunExports}
use rattler_build.Resolve.{Matching, RunExportsJson, DependencyInfo}
use rattler_build.Resolve.Exports.{
  FilteredRunExports, should_include, to_spec, to_specs, as_dependency, dependencies,
  extend_filtered,
}

module _ (lib : Versions) (matching : Matching lib) (specs : Specs lib)
    (ignore_run_exports : IgnoreRunExports lib specs) (from_env : Text) where
  open matching use {SpecError, parse_lenient}

  abbrev pub is_included : lib.MatchSpec → Bool
  is_included m = should_include lib matching specs ignore_run_exports from_env m

  -- The spec that a text adds, if it adds one.
  abbrev pub included : Text → Option lib.MatchSpec
  included s = elim (parse_lenient s) [
    | ok m ↦ if is_included m then some m else none
    | err e ↦ none
  ]

  abbrev pub infos : Text → List Text → List (DependencyInfo lib)
  infos pkg ss =
      map (as_dependency lib matching specs ignore_run_exports from_env pkg)
        (collect_some included ss)

  abbrev pub is_ignored : Text → Bool
  is_ignored pkg = contains ignore_run_exports.from_package pkg

  abbrev pub entry_exports :
      (RunExportsJson → List Text) → Text × RunExportsJson → List (DependencyInfo lib)
  entry_exports select (pkg, e) = if is_ignored pkg then [] else infos pkg (select e)

  -- The dependencies that one kind of run exports gives.
  abbrev pub exported :
      (RunExportsJson → List Text) → List (Text × RunExportsJson) → List (DependencyInfo lib)
  exported select entries = flat_map (entry_exports select) entries

  abbrev pub is_spec : Text → Bool
  is_spec s = elim (parse_lenient s) [ ok m ↦ true | err e ↦ false ]

  abbrev pub all_specs : RunExportsJson → Bool
  all_specs e =
      all is_spec e.noarch
      && (all is_spec e.strong
          && (all is_spec e.strong_constrains
              && (all is_spec e.weak && all is_spec e.weak_constrains)))

  -- Whether all texts of a package can be parsed, or are not looked at.
  abbrev pub is_readable : Text × RunExportsJson → Bool
  is_readable (pkg, e) = is_ignored pkg || all_specs e

  abbrev dependencies_of : Text → List Text → Result SpecError (List (DependencyInfo lib))
  dependencies_of = dependencies lib matching specs ignore_run_exports from_env

  abbrev specs_of : List Text → Result SpecError (List lib.MatchSpec)
  specs_of = to_specs lib matching specs ignore_run_exports from_env

  abbrev Outcome : List Text → Type 0
  Outcome ss =
      ((all is_spec ss ≡ true) × (specs_of ss ≡ ok (collect_some included ss)))
      ⊎ ((all is_spec ss ≡ false) × ((e : SpecError) × (specs_of ss ≡ err e)))

  abbrev of : Text → Option (Result SpecError lib.MatchSpec)
  of = to_spec lib matching specs ignore_run_exports from_env

  to_spec_cases :
      (s : Text)
      → ((is_spec s ≡ false) × (e : SpecError) × (of s ≡ some (err e)))
        ⊎ ((is_spec s ≡ true)
            × (((included s ≡ none) × (of s ≡ none))
                ⊎ ((m : lib.MatchSpec) × (included s ≡ some m) × (of s ≡ some (ok m)))))
  unfolding to_spec
  to_spec_cases s = elim (Result-cases (parse_lenient s)) [
    | inr (e, p) ↦ inl (rw (p, is_spec) refl, e, rw (p, to_spec) refl)
    | inl (m, p) ↦ elim (Bool-cases (is_included m)) [
      | inl i ↦
          inr (rw (p, is_spec) refl, inr (m, rw (p, i, included) refl, rw (p, i, to_spec) refl))
      | inr i ↦ inr (rw (p, is_spec) refl, inl (rw (p, i, included) refl, rw (p, i, to_spec) refl))
    ]
  ]

  abbrev add : {A : Type 0} → Option A → List A → List A
  add o xs = elim o [ none ↦ xs | some x ↦ x ∷ xs ]

  specs_step :
      (s : Text) (ss : List Text) (o : Option (Result SpecError lib.MatchSpec))
      → of s ≡ o
      → specs_of (s ∷ ss) ≡ collect (λ r. r) (add o (collect_some of ss))
  unfolding to_specs
  specs_step s ss o p = ap (λ o. collect (λ r. r) (add o (collect_some of ss))) p

  included_step :
      (s : Text) (ss : List Text) (o : Option lib.MatchSpec)
      → included s ≡ o
      → add o (collect_some included ss) ≡ collect_some included (s ∷ ss)
  included_step s ss o p = ap (λ o. add o (collect_some included ss)) (sym p)

  to_specs-Outcome : (ss : List Text) → Outcome ss
  unfolding to_specs collect
  to_specs-Outcome [] = inl (refl, refl)
  to_specs-Outcome (s ∷ ss) = elim (to_spec_cases s) [
    | inl (a, e, p) ↦ inr (rw a refl, (e, specs_step s ss _ p))
    | inr (a, inl (i, p)) ↦ elim (to_specs-Outcome ss) [
      | inl (b, q) ↦
          inl (rw (a, b) refl, specs_step s ss _ p ∙ (q ∙ ap ok (included_step s ss _ i)))
      | inr (b, (e, q)) ↦ inr (rw (a, b) refl, (e, specs_step s ss _ p ∙ q))
    ]
    | inr (a, inr (m, i, p)) ↦ elim (to_specs-Outcome ss) [
      | inl (b, q) ↦ inl (
        rw (a, b) refl,
        specs_step s ss _ p
            ∙ (ap (λ r. r >>= λ ys. ok (m ∷ ys)) q ∙ ap ok (included_step s ss _ i)),
      )
      | inr (b, (e, q)) ↦
          inr (rw (a, b) refl, (e, specs_step s ss _ p ∙ ap (λ r. r >>= λ ys. ok (m ∷ ys)) q))
    ]
  ]

  dependencies_of_ok :
      (pkg : Text) (ss : List Text) (ds : List (DependencyInfo lib))
      → dependencies_of pkg ss ≡ ok ds
      → (all is_spec ss ≡ true) × (ds ≡ infos pkg ss)
  unfolding dependencies
  dependencies_of_ok pkg ss ds h = elim (to_specs-Outcome ss) [
    | inl (a, q) ↦ (a, sym (ok-injective (rw q at h)))
    | inr (a, (e, q)) ↦ absurd (let p = rw q at h in cc)
  ]

  dependencies_read :
      (pkg : Text) (ss : List Text)
      → all is_spec ss ≡ true
      → dependencies_of pkg ss ≡ ok (infos pkg ss)
  unfolding dependencies
  dependencies_read pkg ss r = elim (to_specs-Outcome ss) [
    | inl (a, q) ↦ rw q refl
    | inr (a, (e, q)) ↦ absurd cc
  ]

  -- The exports of every kind are given by a list for each.
  abbrev pub IsFiltered :
      FilteredRunExports lib → ((RunExportsJson → List Text) → List (DependencyInfo lib)) → Type 0
  IsFiltered f lists =
      (f.noarch ≡ lists (λ e. e.noarch))
      × (f.strong ≡ lists (λ e. e.strong))
      × (f.strong_constraints ≡ lists (λ e. e.strong_constrains))
      × (f.weak ≡ lists (λ e. e.weak))
      × (f.weak_constraints ≡ lists (λ e. e.weak_constrains))

  abbrev pub extend_of :
      FilteredRunExports lib → Text → RunExportsJson → Result SpecError (FilteredRunExports lib)
  extend_of = extend_filtered lib matching specs ignore_run_exports from_env

  abbrev pub built :
      FilteredRunExports lib
      → (noarch strong strong_constraints weak weak_constraints : List (DependencyInfo lib))
      → FilteredRunExports lib
  built f noarch strong strong_constraints weak weak_constraints = record {
    noarch = f.noarch ++ noarch;
    strong = f.strong ++ strong;
    strong_constraints = f.strong_constraints ++ strong_constraints;
    weak = f.weak ++ weak;
    weak_constraints = f.weak_constraints ++ weak_constraints;
  }

  built_cong :
      (f : FilteredRunExports lib) {n s c w v n' s' c' w' v' : List (DependencyInfo lib)}
      → n ≡ n'
      → s ≡ s'
      → c ≡ c'
      → w ≡ w'
      → v ≡ v'
      → built f n s c w v ≡ built f n' s' c' w' v'
  built_cong f p q r t u = λ i. built f (p i) (q i) (r i) (t i) (u i)

  abbrev pub extended : FilteredRunExports lib → Text → RunExportsJson → FilteredRunExports lib
  extended f pkg e =
      built f (infos pkg e.noarch) (infos pkg e.strong) (infos pkg e.strong_constrains)
        (infos pkg e.weak) (infos pkg e.weak_constrains)

  pub extend_filtered_ok :
      (f f' : FilteredRunExports lib) (pkg : Text) (e : RunExportsJson)
      → extend_of f pkg e ≡ ok f'
      → (all_specs e ≡ true) × (f' ≡ extended f pkg e)
  unfolding extend_filtered
  extend_filtered_ok f f' pkg e h =
      let (n, p, h1) = >>=-eq-ok (dependencies_of pkg e.noarch) _ h in
      let (s, q, h2) = >>=-eq-ok (dependencies_of pkg e.strong) _ h1 in
      let (c, r, h3) = >>=-eq-ok (dependencies_of pkg e.strong_constrains) _ h2 in
      let (w, t, h4) = >>=-eq-ok (dependencies_of pkg e.weak) _ h3 in
      let (v, u, h5) = >>=-eq-ok (dependencies_of pkg e.weak_constrains) _ h4 in
      let (a1, b1) = dependencies_of_ok pkg e.noarch n p in
      let (a2, b2) = dependencies_of_ok pkg e.strong s q in
      let (a3, b3) = dependencies_of_ok pkg e.strong_constrains c r in
      let (a4, b4) = dependencies_of_ok pkg e.weak w t in
      let (a5, b5) = dependencies_of_ok pkg e.weak_constrains v u in
      (rw (a1, a2, a3, a4, a5) refl, sym (ok-injective h5) ∙ built_cong f b1 b2 b3 b4 b5)

  pub extend_filtered_read :
      (f : FilteredRunExports lib) (pkg : Text) (e : RunExportsJson)
      → all_specs e ≡ true
      → extend_of f pkg e ≡ ok (extended f pkg e)
  unfolding extend_filtered
  extend_filtered_read f pkg e h =
      rw
        (
          dependencies_read pkg e.noarch (ground arith),
          dependencies_read pkg e.strong (ground arith),
          dependencies_read pkg e.strong_constrains (ground arith),
          dependencies_read pkg e.weak (ground arith),
          dependencies_read pkg e.weak_constrains (ground arith),
        )
        refl
