-- ===== src/Recipe/Topology/Passes.antt =====
-- The passes of the sort: what one round keeps, and what a pass without a change leaves behind.
use rattler_build.Prelude.{
  ℕ, zero, suc, ◌+◌, ◌≤◌, ◌<◌, ◌≡◌, refl, sym, ap, ◌∙◌, subst, ◌||◌, Bool, true, false, List, [],
  ◌∷◌, ◌++◌, length, length-append, all, All, All-weaken, get_elem?, collect_some, arith, inl, inr,
  ◌⊎◌, Bool-cases, lt_or_le, Perm,
}
use mathlib.Core.List.Perm
use rattler_build.Recipe.Topology.Loop.{is_added, mark, SortState, visit, visit_all}
use rattler_build.Recipe.Topology.Marks.{
  member, select, trues, length-mark, is_added-mark, trues-mark, select-mark, collect_some-append,
  perm-append_one, get_elem?-below,
}

-- Whatever an index depends on stands before it: in `seen`, or earlier in the list.
abbrev pub Ordered : (ℕ → List ℕ) → List ℕ → List ℕ → Type 0
Ordered deps seen [] = Unit
Ordered deps seen (i ∷ is) = All (λ d. member seen d ≡ true) (deps i) × Ordered deps (i ∷ seen) is

all→All : (p : ℕ → Bool) (xs : List ℕ) → all p xs ≡ true → All (λ x. p x ≡ true) xs
all→All p [] h = tt
all→All p (x ∷ xs) h = (ground arith, all→All p xs (ground arith))

pub All→all : (p : ℕ → Bool) (xs : List ℕ) → All (λ x. p x ≡ true) xs → all p xs ≡ true
All→all p [] h = refl
All→all p (x ∷ xs) h = ground (arith, All→all p xs h.1)

member-append_one : (xs : List ℕ) (i : ℕ) → member (xs ++ i ∷ []) i ≡ true
unfolding member
member-append_one [] i = ground arith
member-append_one (x ∷ xs) i = ground (arith, member-append_one xs i)

member-append_left : (xs : List ℕ) (i j : ℕ) → member xs j ≡ true → member (xs ++ i ∷ []) j ≡ true
unfolding member
member-append_left [] i j h = cc
member-append_left (x ∷ xs) i j h = ground (arith, member-append_left xs i j)

Ordered-append :
    (deps : ℕ → List ℕ) (seen xs : List ℕ) (i : ℕ)
    → Ordered deps seen xs
    → All (λ d. (member seen d || member xs d) ≡ true) (deps i)
    → Ordered deps seen (xs ++ i ∷ [])
unfolding member
Ordered-append deps seen [] i o h =
    (All-weaken _ (λ d. member seen d ≡ true) (deps i) (λ d e. ground arith) h, tt)
Ordered-append deps seen (x ∷ xs) i o h = (
  o.0,
  Ordered-append deps (x ∷ seen) xs i o.1 (
      All-weaken _ (λ d. (member (x ∷ seen) d || member xs d) ≡ true) (deps i) (λ d e. ground arith)
        h),
)

module _ {A : Type 0} (items : List A) (deps : ℕ → List ℕ) where
  abbrev n : ℕ
  n = length items

  pub record Inv (s : SortState) : Type 0 where
    pub size : length s.added ≡ n
    pub count : trues s.added ≡ length s.sorted
    pub seen : (i : ℕ) → is_added s.added i ≡ true → member s.sorted i ≡ true
    pub ordered : Ordered deps [] s.sorted
    pub perm : Perm (collect_some (get_elem? items) s.sorted) (select items s.added)

  -- Adding an index whose dependencies are all added keeps the invariant.
  Inv-add :
      (s : SortState) (i : ℕ) (c : Bool)
      → Inv s
      → i < n
      → is_added s.added i ≡ false
      → all (is_added s.added) (deps i) ≡ true
      → Inv (record { sorted = s.sorted ++ i ∷ []; added = mark s.added i; changed = c })
  unfolding member
  Inv-add s i c v lt fresh ready =
      let (x, e) = get_elem?-below items i lt in
      record {
        size = length-mark s.added i ∙ v.size;
        count = omega (
          arith,
          trues-mark s.added i fresh (omega (arith, v.size)),
          v.count,
          length-append s.sorted (i ∷ []),
        );
        seen = λ j h. elim (is_added-mark s.added i j h) [
          | inl p ↦ rw (← p) (member-append_one s.sorted i)
          | inr p ↦ member-append_left s.sorted i j (v.seen j p)
        ];
        ordered =
            Ordered-append deps [] s.sorted i v.ordered
              (All-weaken _ _ (deps i) (λ d h. v.seen d h) (all→All _ (deps i) ready));
        perm = rw (collect_some-append (get_elem? items) s.sorted i x e) (
            Perm.trans (perm-append_one x _)
              (Perm.trans (Perm.cons x v.perm) (select-mark items s.added i x fresh v.size e)));
      }

  visit-Inv : (i : ℕ) (s : SortState) → Inv s → i < n → Inv (visit deps i s)
  unfolding visit
  visit-Inv i s v lt = elim (Bool-cases (is_added s.added i)) [
    | inl a ↦ rw (a, visit) v
    | inr a ↦ elim (Bool-cases (all (is_added s.added) (deps i))) [
      | inl r ↦ rw (a, r, visit) (Inv-add s i true v lt a r)
      | inr r ↦ rw (a, r, visit) v
    ]
  ]

  -- A round leaves the state as it is, or adds one more index.
  visit_cases :
      (i : ℕ) (s : SortState)
      → Inv s
      → i < n
      → ((visit deps i s ≡ s)
          × ((is_added s.added i ≡ true) ⊎ (all (is_added s.added) (deps i) ≡ false)))
        ⊎ (((visit deps i s).changed ≡ true) × (trues (visit deps i s).added ≡ suc (trues s.added)))
  unfolding visit
  visit_cases i s v lt = elim (Bool-cases (is_added s.added i)) [
    | inl a ↦ inl (rw (a, visit) refl, inl a)
    | inr a ↦ elim (Bool-cases (all (is_added s.added) (deps i))) [
      | inl r ↦
          inr (
            rw (a, r, visit) refl,
            rw (a, r, visit) (trues-mark s.added i a (omega (arith, v.size))),
          )
      | inr r ↦ inl (rw (a, r, visit) refl, inr r)
    ]
  ]

  pub visit_all-Inv :
      (left i : ℕ) (s : SortState) → Inv s → left + i ≤ n → Inv (visit_all deps left i s)
  unfolding visit_all
  visit_all-Inv zero i s v h = v
  visit_all-Inv (suc left) i s v h =
      visit_all-Inv left (suc i) (visit deps i s) (visit-Inv i s v (omega arith)) (omega arith)

  abbrev pub Settled : SortState → ℕ → Type 0
  Settled s i = (is_added s.added i ≡ true) ⊎ (all (is_added s.added) (deps i) ≡ false)

  -- A pass adds an index, or every index that it passed is settled.
  pub visit_all_cases :
      (left i : ℕ) (s : SortState)
      → Inv s
      → left + i ≤ n
      → ((visit_all deps left i s ≡ s) × ((j : ℕ) → i ≤ j → j < left + i → Settled s j))
        ⊎ (((visit_all deps left i s).changed ≡ true)
            × (trues s.added < trues (visit_all deps left i s).added))
  unfolding visit_all
  visit_all_cases zero i s v h = inl (refl, λ j p q. absurd (omega arith))
  visit_all_cases (suc left) i s v h = elim (visit_cases i s v (omega arith)) [
    | inl (e, settled) ↦
        let t = ap (visit_all deps left (suc i)) e in
        elim (visit_all_cases left (suc i) s v (omega arith)) [
          | inl (e', rest) ↦ inl (
            t ∙ e',
            λ j p q. elim (lt_or_le (suc i) (suc j)) [
              | inl l ↦ rest j (omega arith) (omega arith)
              | inr l ↦ subst (Settled s) (let r : i ≡ j = omega arith in r) settled
            ],
          )
          | inr grew ↦ inr (
              subst (λ (u : SortState). (u.changed ≡ true) × (trues s.added < trues u.added))
                (sym t) grew)
        ]
    | inr (c, t) ↦
        elim (visit_all_cases left (suc i) (visit deps i s) (visit-Inv i s v (omega arith))
          (omega arith)) [
            | inl (e', _) ↦ inr (rw e' c, rw e' (omega arith))
            | inr (c', t') ↦ inr (c', omega arith)
          ]
  ]
