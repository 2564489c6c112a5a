-- ===== src/Recipe/Topology/Loop.antt =====
-- The loop of `stable_topological_sort`, over the indices of the variants. `deps i` are the
-- variants that satisfy the dependencies of variant `i`.
use rattler_build.Prelude.{
  ℕ, zero, suc, ◌&&◌, ltb, Bool, true, false, Option, none, some, List, [], ◌∷◌, ◌++◌,
  if◌then◌else◌, length, all,
}

-- `added[idx]` and `added[idx] = true`
unfoldable pub is_added : List Bool → ℕ → Bool
is_added [] i = false
is_added (b ∷ added) zero = b
is_added (b ∷ added) (suc i) = is_added added i

unfoldable pub mark : List Bool → ℕ → List Bool
mark [] i = []
mark (b ∷ added) zero = true ∷ added
mark (b ∷ added) (suc i) = b ∷ mark added i

-- `vec![false; n]`
unfoldable pub unmarked : ℕ → List Bool
unmarked zero = []
unmarked (suc n) = false ∷ unmarked n

pub record SortState : Type 0 where
  pub sorted : List ℕ
  pub added : List Bool
  pub changed : Bool

module _ (deps : ℕ → List ℕ) where
  -- One round of the `for` loop.
  unfoldable pub visit : ℕ → SortState → SortState
  unfolding is_added mark
  visit idx s =
      if is_added s.added idx
      then s
      else if all (is_added s.added) (deps idx)
      then record { sorted = s.sorted ++ idx ∷ []; added = mark s.added idx; changed = true }
      else s

  -- `for idx in idx..idx + left`
  unfoldable pub visit_all : ℕ → ℕ → SortState → SortState
  unfolding visit
  visit_all zero idx s = s
  visit_all (suc left) idx s = visit_all left (suc idx) (visit idx s)

  -- The `while` loop over `n` variants; `none` is the end of the fuel.
  unfoldable pub sort_loop : ℕ → ℕ → SortState → Option (List ℕ)
  unfolding visit_all
  sort_loop zero n s = none
  sort_loop (suc fuel) n s =
      let rest = sort_loop fuel n (visit_all n 0 (record s { changed = false })) in
      if s.changed && ltb (length s.sorted) n then rest else some s.sorted

  unfoldable pub stable_order : ℕ → Option (List ℕ)
  unfolding sort_loop unmarked
  stable_order n =
      sort_loop (suc (suc n)) n (record { sorted = []; added = unmarked n; changed = true })
