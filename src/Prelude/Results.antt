-- ===== src/Prelude/Results.antt =====
-- Fallible code: `Result<A, E>`, with the error type first.
use mathlib.Core.Path.{◌≡◌, refl, subst, ap, ◌∙◌}
use mathlib.Core.List.{List, [], ◌∷◌, ◌++◌}
use rattler_build.Prelude.Lists.{All, Any, All-weaken}
use mathlib.Core.Logic.{◌⊎◌, inl, inr}

pub data Result (E : Type 0) (A : Type 0) : Type 0 where
  ok : A → Result E A
  err : E → Result E A

module _ {E A : Type 0} where
  -- `?` hands the error on.
  infixl 5 ◌>>=◌
  abbrev pub ◌>>=◌ : {B : Type 0} (m : Result E A) (next : A → Result E B) → Result E B
  err reason >>= next = err reason
  ok value >>= next = next value

  pub >>=-eq-ok :
      {B : Type 0} (m : Result E A) (next : A → Result E B) {result : B}
      → (m >>= next) ≡ ok result
      → (value : A) × (m ≡ ok value) × (next value ≡ ok result)
  >>=-eq-ok (err reason) next h = cc
  >>=-eq-ok (ok value) next h = (value, refl, h)

  pub Result-cases : (r : Result E A) → ((a : A) × (r ≡ ok a)) ⊎ ((e : E) × (r ≡ err e))
  Result-cases (ok a) = inl (a, refl)
  Result-cases (err e) = inr (e, refl)

  pub ok-injective : {a b : A} → ◌≡◌ {A = Result E A} (ok a) (ok b) → a ≡ b
  ok-injective h = cc

module _ {E B : Type 0} where
  infixl 5 ◌>>◌
  abbrev pub ◌>>◌ : (check : Result E (Unit {0})) (rest : Result E B) → Result E B
  check >> rest = check >>= (λ _. rest)

-- `iter().map(f).collect()`: the results, or the first error.
unfoldable pub collect : {E A B : Type 0} → (A → Result E B) → List A → Result E (List B)
collect f [] = ok []
collect f (x ∷ xs) = f x >>= λ y. collect f xs >>= λ ys. ok (y ∷ ys)

-- Two lists of one length, whose items are related in order.
abbrev pub Pairwise : {A B : Type 0} → (A → B → Type 0) → List A → List B → Type 0
Pairwise R [] [] = Unit
Pairwise R [] (y ∷ ys) = ⊥
Pairwise R (x ∷ xs) [] = ⊥
Pairwise R (x ∷ xs) (y ∷ ys) = R x y × Pairwise R xs ys

module _ {E A B : Type 0} (f : A → Result E B) where
  pub collect-Pairwise :
      (xs : List A) (ys : List B) → collect f xs ≡ ok ys → Pairwise (λ x y. f x ≡ ok y) xs ys
  unfolding collect
  collect-Pairwise [] [] h = tt
  collect-Pairwise [] (y ∷ ys) h = absurd cc
  collect-Pairwise (x ∷ xs) ys h =
      let (y, e, h') = >>=-eq-ok (f x) _ h in
      let (zs, e', h'') = >>=-eq-ok (collect f xs) _ h' in
      subst (Pairwise (λ x y. f x ≡ ok y) (x ∷ xs)) (ok-injective h'')
        (e, collect-Pairwise xs zs e')

  pub All-collect :
      (P : B → Type 0) (xs : List A) (ys : List B)
      → ((x : A) (y : B) → f x ≡ ok y → P y)
      → collect f xs ≡ ok ys
      → All P ys
  unfolding collect
  All-collect P [] ys p h = subst (All P) (ok-injective h) tt
  All-collect P (x ∷ xs) ys p h =
      let (y, e, h') = >>=-eq-ok (f x) _ h in
      let (zs, e', h'') = >>=-eq-ok (collect f xs) _ h' in
      subst (All P) (ok-injective h'') (p x y e, All-collect P xs zs p e')

  -- Every item has its result among the results.
  pub collect-Any :
      (xs : List A) (ys : List B)
      → collect f xs ≡ ok ys
      → All (λ x. (y : B) × (f x ≡ ok y) × Any (λ z. z ≡ y) ys) xs
  unfolding collect
  collect-Any [] ys h = tt
  collect-Any (x ∷ xs) ys h =
      let (y, e, h') = >>=-eq-ok (f x) _ h in
      let (zs, e', h'') = >>=-eq-ok (collect f xs) _ h' in
      subst (λ l. All (λ x. (y : B) × (f x ≡ ok y) × Any (λ z. z ≡ y) l) (x ∷ xs))
        (ok-injective h'')
        (
          (y, e, inl refl),
          All-weaken (λ x. (y : B) × (f x ≡ ok y) × Any (λ z. z ≡ y) zs)
              (λ x. (v : B) × (f x ≡ ok v) × Any (λ z. z ≡ v) (y ∷ zs)) xs
              (λ x (v, p, a). (v, p, inr a)) (collect-Any xs zs e'),
        )

  -- The first item that fails.
  pub collect-eq-err :
      (xs : List A) (reason : E)
      → collect f xs ≡ err reason
      → (before : List A) × (x : A) × (after : List A) × (xs ≡ before ++ x ∷ after)
        × (f x ≡ err reason)
        × ((ys : List B) × (collect f before ≡ ok ys))
  unfolding collect
  collect-eq-err [] reason h = absurd cc
  collect-eq-err (x ∷ xs) reason h = elim (Result-cases (f x)) [
    | inr (e, r) ↦ ([], x, xs, refl, r ∙ (let q = rw r at h in cc), ([], refl))
    | inl (y, r) ↦ elim (Result-cases (collect f xs)) [
      | inl (ys, s) ↦ absurd (let q = rw (r, s) at h in cc)
      | inr (e, s) ↦
          let q : e ≡ reason = (let q = rw (r, s) at h in cc) in
          let (before, z, after, p, t, (zs, u)) = collect-eq-err xs reason (s ∙ ap err q) in
          (x ∷ before, z, after, ap (λ l. x ∷ l) p, t, (y ∷ zs, rw (r, u) refl))
    ]
  ]
