-- ===== src/Prelude/Sort.antt =====
-- `sort_by_key` and `sort_by_cached_key` with a text as the key: the stable sort.
use Prim.Native.Nat.{suc, Ordering}
use mathlib.Core.Path.{◌≡◌, refl, ap, ◌∙◌}
use mathlib.Core.Logic.{◌≢◌}
use mathlib.Core.List.{List, [], ◌∷◌, Perm}
use mathlib.Core.List.Perm
use native.Mathlib.Omega.{arith}
use rattler_build.Prelude.Texts.{Text, text_compare, text_compare_flip}
use rattler_build.Prelude.Lists.{All, length}

module _ {A : Type 0} (sort_key : A → Text) where
  insert_by : A → List A → List A
  insert_by x [] = x ∷ []
  insert_by x (y ∷ ys) =
      let rest = insert_by x ys in
      elim (text_compare (sort_key x) (sort_key y)) [ Ordering.gt ↦ y ∷ rest | _ ↦ x ∷ y ∷ ys ]

  unfoldable pub sort_by : List A → List A
  unfolding insert_by
  sort_by [] = []
  sort_by (x ∷ xs) = insert_by x (sort_by xs)

  length-insert_by : (x : A) (ys : List A) → length (insert_by x ys) ≡ suc (length ys)
  unfolding insert_by
  length-insert_by x [] = refl
  length-insert_by x (y ∷ ys) = ground (arith, length-insert_by x ys)

  pub length-sort_by : (xs : List A) → length (sort_by xs) ≡ length xs
  unfolding sort_by
  length-sort_by [] = refl
  length-sort_by (x ∷ xs) = length-insert_by x (sort_by xs) ∙ ap suc (length-sort_by xs)

  All-insert_by : (P : A → Type 0) (x : A) (ys : List A) → P x → All P ys → All P (insert_by x ys)
  unfolding insert_by
  All-insert_by P x [] p h = (p, tt)
  All-insert_by P x (y ∷ ys) p h =
      elim (text_compare (sort_key x) (sort_key y))
        as (λ c. All P (elim c [ Ordering.gt ↦ y ∷ insert_by x ys | _ ↦ x ∷ y ∷ ys ])) [
          | Ordering.gt ↦ (h.0, All-insert_by P x ys p h.1)
          | _ ↦ (p, h)
        ]

  pub All-sort_by : (P : A → Type 0) (xs : List A) → All P xs → All P (sort_by xs)
  unfolding sort_by
  All-sort_by P [] h = tt
  All-sort_by P (x ∷ xs) h = All-insert_by P x (sort_by xs) h.0 (All-sort_by P xs h.1)

  insert_by-perm : (x : A) (ys : List A) → Perm (insert_by x ys) (x ∷ ys)
  unfolding insert_by
  insert_by-perm x [] = Perm.refl _
  insert_by-perm x (y ∷ ys) =
      elim (text_compare (sort_key x) (sort_key y))
        as (λ c. Perm (elim c [ Ordering.gt ↦ y ∷ insert_by x ys | _ ↦ x ∷ y ∷ ys ]) (x ∷ y ∷ ys)) [
          | Ordering.gt ↦ Perm.trans (Perm.cons y (insert_by-perm x ys)) (Perm.swap x y ys)
          | _ ↦ Perm.refl _
        ]

  -- Sorting keeps every element, as often as it stood there.
  pub sort_by-perm : (xs : List A) → Perm (sort_by xs) xs
  unfolding sort_by
  sort_by-perm [] = Perm.refl _
  sort_by-perm (x ∷ xs) = Perm.trans (insert_by-perm x (sort_by xs)) (Perm.cons x (sort_by-perm xs))

module _ {A : Type 0} (sort_key : A → Text) (P : A → Type 0) where
  All-of_insert_by : (x : A) (ys : List A) → All P (insert_by sort_key x ys) → P x × All P ys
  unfolding insert_by
  All-of_insert_by x [] h = h
  All-of_insert_by x (y ∷ ys) h =
      (elim (text_compare (sort_key x) (sort_key y))
          as (λ c.
            (All P (elim c [ Ordering.gt ↦ y ∷ insert_by sort_key x ys | _ ↦ x ∷ y ∷ ys ])
              → P x × All P (y ∷ ys))) [
                | Ordering.gt ↦ λ h. let (p, q) = All-of_insert_by x ys h.1 in (p, (h.0, q))
                | _ ↦ λ h. h
              ])
        h

  -- What holds of a sorted list held of the list.
  pub All-of_sort_by : (xs : List A) → All P (sort_by sort_key xs) → All P xs
  unfolding sort_by
  All-of_sort_by [] h = tt
  All-of_sort_by (x ∷ xs) h =
      let (p, q) = All-of_insert_by x (sort_by sort_key xs) h in (p, All-of_sort_by xs q)

module _ {A : Type 0} (sort_key : A → Text) where
  -- No element has a greater key than the next.
  abbrev pub IsOrdered : List A → Type 0
  IsOrdered [] = Unit
  IsOrdered (x ∷ []) = Unit
  IsOrdered (x ∷ y ∷ ys) =
      (text_compare (sort_key x) (sort_key y) ≢ Ordering.gt) × IsOrdered (y ∷ ys)

  lt_ne_gt : (s t : Text) → text_compare s t ≡ Ordering.gt → text_compare t s ≢ Ordering.gt
  lt_ne_gt s t h e = let f = text_compare_flip s t h in cc

  insert_by-IsOrdered_below :
      (x y : A) (ys : List A)
      → text_compare (sort_key x) (sort_key y) ≡ Ordering.gt
      → IsOrdered (y ∷ ys)
      → IsOrdered (y ∷ insert_by sort_key x ys)
  unfolding insert_by
  insert_by-IsOrdered_below x y [] g h = (lt_ne_gt (sort_key x) (sort_key y) g, tt)
  insert_by-IsOrdered_below x y (z ∷ zs) g h =
      (elim (text_compare (sort_key x) (sort_key z))
          as (λ c.
            (text_compare (sort_key x) (sort_key z) ≡ c
              → IsOrdered
                  (y ∷ elim c [ Ordering.gt ↦ z ∷ insert_by sort_key x zs | _ ↦ x ∷ z ∷ zs ]))) [
                    | Ordering.gt ↦ λ e. (h.0, insert_by-IsOrdered_below x z zs e h.1)
                    | Ordering.lt ↦ λ e. (lt_ne_gt (sort_key x) (sort_key y) g, ((λ f. cc), h.1))
                    | Ordering.eq ↦ λ e. (lt_ne_gt (sort_key x) (sort_key y) g, ((λ f. cc), h.1))
                  ])
        refl

  insert_by-IsOrdered : (x : A) (ys : List A) → IsOrdered ys → IsOrdered (insert_by sort_key x ys)
  unfolding insert_by
  insert_by-IsOrdered x [] h = tt
  insert_by-IsOrdered x (y ∷ ys) h =
      (elim (text_compare (sort_key x) (sort_key y))
          as (λ c.
            (text_compare (sort_key x) (sort_key y) ≡ c
              → IsOrdered
                  (elim c [ Ordering.gt ↦ y ∷ insert_by sort_key x ys | _ ↦ x ∷ y ∷ ys ]))) [
                    | Ordering.gt ↦ λ e. insert_by-IsOrdered_below x y ys e h
                    | Ordering.lt ↦ λ e. ((λ f. cc), h)
                    | Ordering.eq ↦ λ e. ((λ f. cc), h)
                  ])
        refl

  pub sort_by-IsOrdered : (xs : List A) → IsOrdered (sort_by sort_key xs)
  unfolding sort_by
  sort_by-IsOrdered [] = tt
  sort_by-IsOrdered (x ∷ xs) = insert_by-IsOrdered x (sort_by sort_key xs) (sort_by-IsOrdered xs)
