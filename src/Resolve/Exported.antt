-- ===== src/Resolve/Exported.antt =====
-- What `filter_run_exports` gives, and that it does not turn on the order of the hash map.
use rattler_build.Prelude.{
  ◌⊎◌, ◌≡◌, refl, sym, ap, ◌∙◌, inl, inr, Bool, true, false, not, Bool-cases, List, [], ◌∷◌, ◌++◌,
  append_assoc, append-nil, Text, Result, ok, err, >>=-eq-ok, Result-cases, ok-injective, all, Perm,
  arith,
}
use rattler_build.Prelude.Permuted.{flat_map-Perm, all-Perm}
use rattler_build.Prelude.Maps.{retain, text_keyed}
use rattler_build.Pins.{Versions}
use rattler_build.Recipe.Requirements.{Specs, IgnoreRunExports}
use rattler_build.Resolve.{Matching, RunExportsJson, DependencyInfo}
use rattler_build.Resolve.Exports.{FilteredRunExports, filter_loop, no_exports, filter_run_exports}
use rattler_build.Resolve.Filtered.{
  is_ignored, infos, all_specs, is_readable, exported, extend_filtered_ok, extend_filtered_read,
}

module _ (lib : Versions) (matching : Matching lib) (specs : Specs lib)
    (ignore_run_exports : IgnoreRunExports lib specs) (from_env : Text) where
  open matching use {SpecError}

  abbrev pub Entries : Type 0
  Entries = List (Text × RunExportsJson)

  abbrev ignored : Text → Bool
  ignored = is_ignored lib matching specs ignore_run_exports from_env

  abbrev pub given : (RunExportsJson → List Text) → Entries → List (DependencyInfo lib)
  given = exported lib matching specs ignore_run_exports from_env

  abbrev readable : Text × RunExportsJson → Bool
  readable = is_readable lib matching specs ignore_run_exports from_env

  abbrev pub filtered : Entries → Result SpecError (FilteredRunExports lib)
  filtered = filter_run_exports lib matching specs ignore_run_exports from_env

  -- Every list of the result is what the entries give.
  abbrev pub IsExported : FilteredRunExports lib → Entries → Type 0
  IsExported r entries =
      (r.noarch ≡ given (λ e. e.noarch) entries)
      × (r.strong ≡ given (λ e. e.strong) entries)
      × (r.strong_constraints ≡ given (λ e. e.strong_constrains) entries)
      × (r.weak ≡ given (λ e. e.weak) entries)
      × (r.weak_constraints ≡ given (λ e. e.weak_constrains) entries)

  -- The lists of exports are others with what the entries give behind them.
  abbrev pub IsExtended : FilteredRunExports lib → FilteredRunExports lib → Entries → Type 0
  IsExtended f r entries =
      (r.noarch ≡ f.noarch ++ given (λ e. e.noarch) entries)
      × (r.strong ≡ f.strong ++ given (λ e. e.strong) entries)
      × (r.strong_constraints ≡ f.strong_constraints ++ given (λ e. e.strong_constrains) entries)
      × (r.weak ≡ f.weak ++ given (λ e. e.weak) entries)
      × (r.weak_constraints ≡ f.weak_constraints ++ given (λ e. e.weak_constrains) entries)

  abbrev loop : FilteredRunExports lib → Entries → Result SpecError (FilteredRunExports lib)
  loop = filter_loop lib matching specs ignore_run_exports from_env

  shift :
      (f x g : List (DependencyInfo lib)) {r f' : List (DependencyInfo lib)}
      → r ≡ f' ++ g
      → f' ≡ f ++ x
      → r ≡ f ++ (x ++ g)
  shift f x g p q = p ∙ (ap (λ l. l ++ g) q ∙ append_assoc f x g)

  loop_ok :
      (f r : FilteredRunExports lib) (entries : Entries)
      → loop f entries ≡ ok r
      → (all readable entries ≡ true) × IsExtended f r entries
  unfolding filter_loop
  loop_ok f r [] h =
      let e = ok-injective h in
      (
        refl,
        (
          sym (append-nil _ ∙ ap (λ f. f.noarch) e),
          sym (append-nil _ ∙ ap (λ f. f.strong) e),
          sym (append-nil _ ∙ ap (λ f. f.strong_constraints) e),
          sym (append-nil _ ∙ ap (λ f. f.weak) e),
          sym (append-nil _ ∙ ap (λ f. f.weak_constraints) e),
        ),
      )
  loop_ok f r ((pkg, e) ∷ entries) h = elim (Bool-cases (ignored pkg)) [
    | inl i ↦ rw i (loop_ok f r entries (rw (i, filter_loop) at h))
    | inr i ↦
        let (f', p, h') = >>=-eq-ok _ _ (rw (i, filter_loop) at h) in
        let (a, q) =
          extend_filtered_ok lib matching specs ignore_run_exports from_env f f' pkg e p in
        let (b, (n, s, c, w, v)) = loop_ok f' r entries h' in
        rw (i, a, b)
          (
            refl,
            (
              shift f.noarch _ _ n (ap (λ f. f.noarch) q),
              shift f.strong _ _ s (ap (λ f. f.strong) q),
              shift f.strong_constraints _ _ c (ap (λ f. f.strong_constraints) q),
              shift f.weak _ _ w (ap (λ f. f.weak) q),
              shift f.weak_constraints _ _ v (ap (λ f. f.weak_constraints) q),
            ),
          )
  ]

  loop_read :
      (entries : Entries) (f : FilteredRunExports lib)
      → all readable entries ≡ true
      → (r : FilteredRunExports lib) × (loop f entries ≡ ok r)
  unfolding filter_loop
  loop_read [] f h = (f, refl)
  loop_read ((pkg, e) ∷ entries) f h = elim (Bool-cases (ignored pkg)) [
    | inl i ↦ rw (i, filter_loop) (loop_read entries f (let q = rw i at h in q))
    | inr i ↦
        let a : all_specs lib matching specs ignore_run_exports from_env e ≡ true = ground arith in
        let b : all readable entries ≡ true = ground arith in
        let q = extend_filtered_read lib matching specs ignore_run_exports from_env f pkg e a in
        rw (i, filter_loop, q) (loop_read entries _ b)
  ]

  abbrev kept : Entries → Entries
  kept entries = retain (λ pkg e. not (ignored pkg)) entries

  -- The entries that `retain` drops would have been passed over.
  readable-kept : (entries : Entries) → all readable (kept entries) ≡ all readable entries
  unfolding retain
  readable-kept [] = refl
  readable-kept ((pkg, e) ∷ entries) = ground (arith, readable-kept entries)

  given-kept :
      (select : RunExportsJson → List Text) (entries : Entries)
      → given select (kept entries) ≡ given select entries
  unfolding retain
  given-kept select [] = refl
  given-kept select ((pkg, e) ∷ entries) = elim (Bool-cases (ignored pkg)) [
    | inl i ↦ rw i (given-kept select entries)
    | inr i ↦ rw i (
        rw i (
          ap (λ l. infos lib matching specs ignore_run_exports from_env pkg (select e) ++ l)
            (given-kept select entries)))
  ]

  -- Either every text of the packages that are not ignored can be parsed, and the filter gives
  -- for each kind the specs of these packages that it includes, in order, or it fails.
  pub filter_run_exports-IsExported :
      (entries : Entries)
      → ((all readable entries ≡ true)
          × ((r : FilteredRunExports lib) × (filtered entries ≡ ok r) × IsExported r entries))
        ⊎ ((all readable entries ≡ false) × ((e : SpecError) × (filtered entries ≡ err e)))
  unfolding filter_run_exports
  filter_run_exports-IsExported entries = elim (Result-cases (filtered entries)) [
    | inl (r, h) ↦
        let (a, (n, s, c, w, v)) =
          loop_ok (no_exports lib matching specs ignore_run_exports from_env) r (kept entries) h in
        inl (
          sym (readable-kept entries) ∙ a,
          (
            r,
            h,
            (
              n ∙ given-kept _ entries,
              s ∙ given-kept _ entries,
              c ∙ given-kept _ entries,
              w ∙ given-kept _ entries,
              v ∙ given-kept _ entries,
            ),
          ),
        )
    | inr (e, h) ↦ elim (Bool-cases (all readable entries)) [
      | inr a ↦ inr (a, (e, h))
      | inl a ↦
          let (r, h') =
            loop_read (kept entries) (no_exports lib matching specs ignore_run_exports from_env)
              (readable-kept entries ∙ a) in
          absurd cc
    ]
  ]

  -- Results that are equal up to the order of their lists, whichever error it is that they have.
  abbrev pub Same :
      Result SpecError (FilteredRunExports lib) → Result SpecError (FilteredRunExports lib) → Type 0
  Same (ok r) (ok r') =
      Perm r.noarch r'.noarch
      × Perm r.strong r'.strong
      × Perm r.strong_constraints r'.strong_constraints
      × Perm r.weak r'.weak
      × Perm r.weak_constraints r'.weak_constraints
  Same (err e) (err e') = Unit
  Same (ok r) (err e') = ⊥
  Same (err e) (ok r') = ⊥

  given-Perm :
      (select : RunExportsJson → List Text) {m n : Entries} {x y : List (DependencyInfo lib)}
      → x ≡ given select m
      → y ≡ given select n
      → Perm m n
      → Perm x y
  given-Perm select p q h = rw (p, q) (flat_map-Perm _ h)

  -- If the entries of the run exports are permuted, the filter gives the same dependencies of
  -- each kind up to order, or fails as before.
  pub filter_run_exports-Same : (m n : Entries) → Perm m n → Same (filtered m) (filtered n)
  filter_run_exports-Same m n h = elim (filter_run_exports-IsExported m) [
    | inl (a, (r, p, (x1, x2, x3, x4, x5))) ↦ elim (filter_run_exports-IsExported n) [
      | inl (b, (r', q, (y1, y2, y3, y4, y5))) ↦
          rw (p, q)
            (
              given-Perm _ x1 y1 h,
              given-Perm _ x2 y2 h,
              given-Perm _ x3 y3 h,
              given-Perm _ x4 y4 h,
              given-Perm _ x5 y5 h,
            )
      | inr (b, _) ↦ absurd (let e = all-Perm readable h in cc)
    ]
    | inr (a, (e, p)) ↦ elim (filter_run_exports-IsExported n) [
      | inl (b, _) ↦ absurd (let e = all-Perm readable h in cc)
      | inr (b, (e', q)) ↦ rw (p, q) tt
    ]
  ]
