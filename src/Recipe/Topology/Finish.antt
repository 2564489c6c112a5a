-- ===== src/Recipe/Topology/Finish.antt =====
-- Where every dependency has a smaller rank, the loop ends with every index added.
use rattler_build.Prelude.{
  ℕ, zero, suc, ◌+◌, ◌≤◌, ◌<◌, ◌≡◌, refl, ap, ◌&&◌, ltb, Bool, true, false, Option, some, List, [],
  ◌∷◌, length, all, All, All-weaken, arith, inl, inr, ◌⊎◌, Bool-cases,
}
use mathlib.Core.List.Perm
use rattler_build.Recipe.Topology.Loop.{
  is_added, unmarked, SortState, visit_all, sort_loop, stable_order,
}
use rattler_build.Recipe.Topology.Marks.{select, trues, trues-le, trues-full}
use rattler_build.Recipe.Topology.Passes.{Inv, Settled, All→all, visit_all_cases, visit_all-Inv}

module _ {A : Type 0} (items : List A) (deps : ℕ → List ℕ) where
  abbrev n : ℕ
  n = length items

  abbrev pub AllAdded : SortState → Type 0
  AllAdded s = (i : ℕ) → i < n → is_added s.added i ≡ true

  -- A finished run: the order it returns, and what is known of it.
  abbrev pub Finishes : Option (List ℕ) → Type 0
  Finishes r = (s : SortState) × (r ≡ some s.sorted) × Inv items deps s × AllAdded s

  -- The dependencies of an index are indices of a smaller rank.
  module _ (rank : ℕ → ℕ)
      (falls : (i : ℕ) → i < n → All (λ d. (d < n) × (rank d < rank i)) (deps i)) where
    -- Where every index is settled, all are added: the dependencies of one that is not would
    -- hold another of smaller rank.
    Settled-AllAdded :
        (s : SortState) (r i : ℕ)
        → ((j : ℕ) → j < n → Settled items deps s j)
        → rank i < r
        → i < n
        → is_added s.added i ≡ true
    Settled-AllAdded s zero i settled h l = absurd (omega arith)
    Settled-AllAdded s (suc r) i settled h l =
        let deps_added : all (is_added s.added) (deps i) ≡ true = All→all _ (deps i) (
          All-weaken _ (λ d. is_added s.added d ≡ true) (deps i)
            (λ d p. Settled-AllAdded s r d settled (omega (arith, p.1)) p.0) (falls i l)) in
        elim (settled i l) [ inl a ↦ a | inr b ↦ cc ]

    unchanged-Inv :
        (s : SortState) (c : Bool) → Inv items deps s → Inv items deps (record s { changed = c })
    unchanged-Inv s c v = record {
      size = v.size;
      count = v.count;
      seen = v.seen;
      ordered = v.ordered;
      perm = v.perm;
    }

    -- Either the last pass changed something and there is fuel for all that is left, or it did
    -- not, and everything is added.
    abbrev IsReady : ℕ → SortState → Type 0
    IsReady fuel s =
        ((s.changed ≡ true) × (suc n < trues s.added + fuel))
        ⊎ ((s.changed ≡ false) × AllAdded s × (0 < fuel))

    full-AllAdded : (s : SortState) → Inv items deps s → n ≤ length s.sorted → AllAdded s
    full-AllAdded s v h i l =
        trues-full s.added i (omega (arith, v.size, v.count)) (omega (arith, v.size))

    next-IsReady :
        (fuel : ℕ) (s : SortState)
        → Inv items deps s
        → suc n < trues s.added + suc fuel
        → length s.sorted < n
        → IsReady fuel (visit_all deps n 0 (record s { changed = false }))
    next-IsReady fuel s v f l =
        let s0 : SortState = record s { changed = false } in
        let v0 = unchanged-Inv s false v in
        elim (visit_all_cases items deps n 0 s0 v0 (omega arith)) [
          | inl (e, settled) ↦ rw e (
              inr (
                refl,
                λ i p.
                    Settled-AllAdded s0 (suc (rank i)) i
                      (λ j q. settled j (omega arith) (omega arith)) (omega arith) p,
                omega (arith, v.count),
              ))
          | inr (c, t) ↦ inl (c, omega arith)
        ]

    -- With enough fuel the loop ends, and every index is added when it does.
    sort_loop-Finishes :
        (fuel : ℕ) (s : SortState)
        → Inv items deps s
        → IsReady fuel s
        → Finishes (sort_loop deps fuel n s)
    unfolding sort_loop
    sort_loop-Finishes zero s v (inl h) = absurd (omega (arith, trues-le s.added, v.size, h.1))
    sort_loop-Finishes zero s v (inr h) = absurd (omega (arith, h.2))
    sort_loop-Finishes (suc fuel) s v h = elim (Bool-cases (s.changed && ltb (length s.sorted) n)) [
      | inl b ↦
          let f : suc n < trues s.added + suc fuel = elim h [
            | inl w ↦ w.1
            | inr w ↦ absurd (ground arith)
          ] in
          let l : length s.sorted < n = ground arith in
          rw b (
            sort_loop-Finishes fuel (visit_all deps n 0 (record s { changed = false }))
              (visit_all-Inv items deps n 0 _ (unchanged-Inv s false v) (omega arith))
              (next-IsReady fuel s v f l))
      | inr b ↦ rw b (s, refl, v, elim h [ inl w ↦ full-AllAdded s v (ground arith) | inr w ↦ w.1 ])
    ]

    unmarked-facts : (k : ℕ) → (length (unmarked k) ≡ k) × (trues (unmarked k) ≡ 0)
    unfolding unmarked trues
    unmarked-facts zero = (refl, refl)
    unmarked-facts (suc k) = let (l, t) = unmarked-facts k in (ap suc l, t)

    is_added-unmarked : (k i : ℕ) → is_added (unmarked k) i ≡ false
    unfolding unmarked is_added
    is_added-unmarked zero i = refl
    is_added-unmarked (suc k) zero = refl
    is_added-unmarked (suc k) (suc i) = is_added-unmarked k i

    select-unmarked : (xs : List A) (k : ℕ) → select xs (unmarked k) ≡ []
    unfolding unmarked select
    select-unmarked [] k = refl
    select-unmarked (x ∷ xs) zero = refl
    select-unmarked (x ∷ xs) (suc k) = select-unmarked xs k

    -- From the empty state, the loop ends with everything added.
    pub stable_order-Finishes : Finishes (stable_order deps n)
    unfolding stable_order
    stable_order-Finishes =
        let (l, t) = unmarked-facts n in
        sort_loop-Finishes (suc (suc n))
          (record { sorted = []; added = unmarked n; changed = true })
          (record {
            size = l;
            count = t;
            seen = λ i h. absurd (let e = is_added-unmarked n i in cc);
            ordered = tt;
            perm = rw (select-unmarked items n) (Perm.refl []);
          })
          (inl (refl, omega arith))
