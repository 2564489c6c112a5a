-- ===== src/Recipe/Expand/Extension.antt =====
-- Expansion only adds bindings: each combination that comes out extends one that went in, and what
-- is declared final has no further key to discover.
use rattler_build.Prelude.{
  ℕ, zero, suc, ◌≡◌, subst, ◌&&◌, not, true, false, some, is_some, List, [], ◌∷◌, ◌++◌, Text,
  Result, ok, >>=-eq-ok, if◌then◌else◌, collect_some, arith, All, All-append, All-weaken,
  All-collect_some, Any, any, OnSome, inl, inr, Bool-cases, Option-cases, text_eq_iff,
}
use rattler_build.Prelude.Maps.{
  lookup, insert, lookup-insert, lookup_key, contains, contains_key, key_eq,
}
use rattler_build.Keys.{NormalizedKey, normalize, normalized_keyed}
use rattler_build.Variants.Combination.{Assignment, Values}
use rattler_build.Variants.Config.{VariantConfig, get}
use rattler_build.Recipe.Expand.{
  insert_key, new_keys, discover, key_values, with_values, with_each, cross,
  expand_combination_with_keys, place, process, iterate, deduplicate, expand_variants_tree, Rounds,
  same_entries, max_iterations,
}

module _ {V : Type 0} where
  -- `c` binds all that `b` binds, to the same values.
  pub record Extends (b c : Assignment V) : Type 0 where
    pub at : (k : NormalizedKey) (v : V) → lookup k b ≡ some v → lookup k c ≡ some v

  pub Extends-refl : (b : Assignment V) → Extends b b
  Extends-refl b = record { at = λ k v e. e }

  pub Extends-trans : (a b c : Assignment V) → Extends a b → Extends b c → Extends a c
  Extends-trans a b c h g = record { at = λ k v e. g.at k v (h.at k v e) }

  abbrev IsFresh : Assignment V → NormalizedKey → Type 0
  IsFresh b k = contains_key b k ≡ false

  insert-Extends :
      (b c : Assignment V) (k : NormalizedKey) (v : V)
      → IsFresh b k
      → Extends b c
      → Extends b (insert k v c)
  insert-Extends b c k v fresh h = record {
    at = λ j w e. elim (Bool-cases (key_eq k j)) [
      | inl q ↦
          let p = (text_eq_iff (normalize k) (normalize j)).0 q in
          let same = lookup_key k j b p in absurd (ground arith)
      | inr q ↦ rw (lookup-insert, q) (h.at j w e)
    ];
  }

  with_values-Extends :
      (b c : Assignment V) (k : NormalizedKey) (values : List V)
      → IsFresh b k
      → Extends b c
      → All (Extends b) (with_values k values c)
  unfolding with_values
  with_values-Extends b c k [] fresh h = tt
  with_values-Extends b c k (v ∷ values) fresh h =
      (insert-Extends b c k v fresh h, with_values-Extends b c k values fresh h)

  with_each-Extends :
      (b : Assignment V) (k : NormalizedKey) (values : List V) (cs : List (Assignment V))
      → IsFresh b k
      → All (Extends b) cs
      → All (Extends b) (with_each k values cs)
  unfolding with_each
  with_each-Extends b k values [] fresh h = tt
  with_each-Extends b k values (c ∷ cs) fresh h =
      All-append (Extends b) _ _ (with_values-Extends b c k values fresh h.0)
        (with_each-Extends b k values cs fresh h.1)

  cross-Extends :
      (b : Assignment V) (kvs : List (Values V)) (cs : List (Assignment V))
      → All (λ (e : Values V). IsFresh b e.0) kvs
      → All (Extends b) cs
      → All (Extends b) (cross kvs cs)
  unfolding cross
  cross-Extends b [] cs fresh h = h
  cross-Extends b ((k, values) ∷ kvs) cs fresh h =
      cross-Extends b kvs (with_each k values cs) fresh.1
        (with_each-Extends b k values cs fresh.0 h)

  module _ (config : VariantConfig V) where
    key_values-IsFresh :
        (b : Assignment V) (k : NormalizedKey)
        → IsFresh b k
        → OnSome (λ (e : Values V). IsFresh b e.0) (key_values config k)
    unfolding key_values
    key_values-IsFresh b k fresh = elim (Option-cases (get config k)) [
      | inl e ↦ rw (e, key_values) tt
      | inr (values, e) ↦ rw (e, key_values) fresh
    ]

    expand-Extends :
        (b : Assignment V) (ks : List NormalizedKey)
        → All (IsFresh b) ks
        → All (Extends b) (expand_combination_with_keys b ks config)
    unfolding expand_combination_with_keys
    expand-Extends b [] fresh = (Extends-refl b, tt)
    expand-Extends b (k ∷ ks) fresh =
        (elim (collect_some (key_values config) (k ∷ ks))
            as (λ kvs.
              (All (λ (e : Values V). IsFresh b e.0) kvs
                → All (Extends b)
                    (elim kvs [ [] ↦ b ∷ [] | kv ∷ rest ↦ cross (kv ∷ rest) (b ∷ []) ]))) [
                      | [] ↦ λ _. (Extends-refl b, tt)
                      | kv ∷ rest ↦ λ f. cross-Extends b (kv ∷ rest) (b ∷ []) f (Extends-refl b, tt)
                    ])
          (All-collect_some _ (key_values config) (k ∷ ks)
            (All-weaken (IsFresh b) _ (k ∷ ks) (key_values-IsFresh b) fresh))

    insert_key-IsFresh :
        (b : Assignment V) (k : NormalizedKey) (ks : List NormalizedKey)
        → IsFresh b k
        → All (IsFresh b) ks
        → All (IsFresh b) (insert_key k ks)
    unfolding insert_key
    insert_key-IsFresh b k ks fresh h =
        elim (contains ks k) as (λ t. All (IsFresh b) (if t then ks else ks ++ k ∷ [])) [
          | true ↦ h
          | false ↦ All-append (IsFresh b) ks (k ∷ []) h (fresh, tt)
        ]

    -- A discovered key is not bound yet.
    new_keys-IsFresh :
        (b : Assignment V) (specs : List Text) (ks : List NormalizedKey)
        → All (IsFresh b) ks
        → All (IsFresh b) (new_keys config b specs ks)
    unfolding new_keys
    new_keys-IsFresh b [] ks h = h
    new_keys-IsFresh b (spec ∷ specs) ks h =
        let k : NormalizedKey = record { text = spec } in
        new_keys-IsFresh b specs _
          (elim (Bool-cases (is_some (get config k) && not (contains_key b k))) [
            | inl t ↦ rw t (insert_key-IsFresh b k ks (ground arith) h)
            | inr t ↦ rw t h
          ])

    module _ {E : Type 0} (free_specs : Assignment V → Result E (List Text)) where
      discover-IsFresh :
          (b : Assignment V) (ks : List NormalizedKey)
          → discover free_specs config b ≡ ok ks
          → All (IsFresh b) ks
      unfolding discover
      discover-IsFresh b ks h =
          let (specs, _, e) = >>=-eq-ok (free_specs b) _ h in
          subst (All (IsFresh b)) (let p : new_keys config b specs [] ≡ ks = cc in p)
            (new_keys-IsFresh b specs [] tt)

      -- `c` extends one of the initial combinations.
      abbrev pub Grown : List (Assignment V) → Assignment V → Type 0
      Grown initial c = Any (λ b. Extends b c) initial

      Grown-trans :
          (initial : List (Assignment V)) (b c : Assignment V)
          → Grown initial b
          → Extends b c
          → Grown initial c
      Grown-trans [] b c g h = g
      Grown-trans (a ∷ initial) b c (inl g) h = inl (Extends-trans a b c g h)
      Grown-trans (a ∷ initial) b c (inr g) h = inr (Grown-trans initial b c g h)

      abbrev IsFinal : Assignment V → Type 0
      IsFinal c = discover free_specs config c ≡ ok []

      -- What the rounds keep: everything extends an initial combination, and the final ones have
      -- no key left to discover.
      abbrev IsGood : List (Assignment V) → Rounds free_specs → Type 0
      IsGood initial (final, next) =
          All (λ c. Grown initial c × IsFinal c) final × All (Grown initial) next

      place-IsGood :
          (initial : List (Assignment V)) (c : Assignment V) (ks : List NormalizedKey)
          (r : Rounds free_specs)
          → discover free_specs config c ≡ ok ks
          → Grown initial c
          → IsGood initial r
          → IsGood initial (place free_specs config c ks r)
      place-IsGood initial c [] (final, next) e g (f, n) =
          (All-append _ final (c ∷ []) f ((g, e), tt), n)
      place-IsGood initial c (k ∷ ks) (final, next) e g (f, n) = (
        f,
        All-append (Grown initial) next _ n (
            All-weaken (Extends c) (Grown initial) _ (λ d h. Grown-trans initial c d g h)
              (expand-Extends c (k ∷ ks) (discover-IsFresh c (k ∷ ks) e))),
      )

      process-IsGood :
          (initial cs : List (Assignment V)) (r r' : Rounds free_specs)
          → process free_specs config cs r ≡ ok r'
          → All (Grown initial) cs
          → IsGood initial r
          → IsGood initial r'
      unfolding process
      process-IsGood initial [] r r' e g h = subst (IsGood initial) (let p : r ≡ r' = cc in p) h
      process-IsGood initial (c ∷ cs) r r' e g h =
          let (ks, d, e') = >>=-eq-ok (discover free_specs config c) _ e in
          process-IsGood initial cs (place free_specs config c ks r) r' e' g.1
            (place-IsGood initial c ks r d g.0 h)

      iterate-IsGood :
          (n : ℕ) (initial cs final : List (Assignment V)) (r : Rounds free_specs)
          → iterate free_specs n config cs final ≡ ok r
          → All (Grown initial) cs
          → All (λ c. Grown initial c × IsFinal c) final
          → IsGood initial r
      unfolding iterate
      iterate-IsGood n initial [] final r e g h =
          subst (IsGood initial) (let p : (final, []) ≡ r = cc in p) (h, tt)
      iterate-IsGood zero initial (c ∷ cs) final r e g h =
          subst (IsGood initial) (let p : (final, c ∷ cs) ≡ r = cc in p) (h, g)
      iterate-IsGood (suc n) initial (c ∷ cs) final r e g h =
          let (r', p, e') = >>=-eq-ok (process free_specs config (c ∷ cs) (final, [])) _ e in
          let good = process-IsGood initial (c ∷ cs) (final, []) r' p g (h, tt) in
          iterate-IsGood n initial r'.1 r'.0 r e' good.1 good.0

      Grown-self : (cs : List (Assignment V)) → All (Grown cs) cs
      Grown-self [] = tt
      Grown-self (c ∷ cs) =
          (inl (Extends-refl c), All-weaken (Grown cs) _ cs (λ d g. inr g) (Grown-self cs))

      module _ (to_text : V → Text) where
        deduplicate-All :
            (P : Assignment V → Type 0) (seen cs : List (Assignment V))
            → All P cs
            → All P (deduplicate to_text seen cs)
        unfolding deduplicate
        deduplicate-All P seen [] h = tt
        deduplicate-All P seen (c ∷ cs) h =
            elim (any (same_entries to_text c) seen)
              as (λ b. All P (
                if b
                then deduplicate to_text (if b then seen else c ∷ seen) cs
                else c ∷ deduplicate to_text (if b then seen else c ∷ seen) cs)) [
                  | true ↦ deduplicate-All P seen cs h.1
                  | false ↦ (h.0, deduplicate-All P (c ∷ seen) cs h.1)
                ]

        rounds :
            (initial r : List (Assignment V))
            → expand_variants_tree to_text free_specs initial config ≡ ok r
            → (w : Rounds free_specs) × (iterate free_specs max_iterations config initial [] ≡ ok w)
              × IsGood initial w
              × (deduplicate to_text [] (w.0 ++ w.1) ≡ r)
        unfolding expand_variants_tree
        rounds initial r e =
            let (w, i, e') = >>=-eq-ok (iterate free_specs max_iterations config initial []) _ e in
            let good =
              iterate-IsGood max_iterations initial initial [] w i (Grown-self initial) tt in
            let p : deduplicate to_text [] (w.0 ++ w.1) ≡ r = cc in (w, i, good, p)

        -- If the expansion succeeds, every combination in its result has all the bindings of one
        -- of the initial combinations, with the same values.
        pub expand_variants_tree-Grown :
            (initial r : List (Assignment V))
            → expand_variants_tree to_text free_specs initial config ≡ ok r
            → All (Grown initial) r
        expand_variants_tree-Grown initial r e =
            let (w, i, (f, n), p) = rounds initial r e in
            subst (All (Grown initial)) p (
              deduplicate-All (Grown initial) [] (w.0 ++ w.1) (
                All-append (Grown initial) w.0 w.1 (All-weaken _ (Grown initial) w.0 (λ c h. h.0) f)
                  n))

        -- If the expansion succeeds and its loop leaves nothing to process within the iteration
        -- limit, no combination in its result has a further key to discover.
        pub expand_variants_tree-discover :
            (initial r final : List (Assignment V))
            → expand_variants_tree to_text free_specs initial config ≡ ok r
            → iterate free_specs max_iterations config initial [] ≡ ok (final, [])
            → All (λ c. discover free_specs config c ≡ ok []) r
        expand_variants_tree-discover initial r final e j =
            let (w, i, (f, n), p) = rounds initial r e in
            let q : w.1 ≡ [] = cc in
            subst (All IsFinal) p (
              deduplicate-All IsFinal [] (w.0 ++ w.1)
                (All-append IsFinal w.0 w.1 (All-weaken _ IsFinal w.0 (λ c h. h.1) f) (rw q tt)))
