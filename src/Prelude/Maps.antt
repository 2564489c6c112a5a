-- ===== src/Prelude/Maps.antt =====
-- `BTreeMap`: an association list that is kept in the order of its keys. Keys are compared by a
-- text that stands for them (`Ord` and `Eq` of the key type).
use rattler_build.Prelude.Tests.{if◌then◌else◌, is_some}
use rattler_build.Prelude.Texts.{
  Text, text_eq, text_eq_iff, text_eq_refl, text_compare, text_compare_iff,
}
use rattler_build.Prelude.Lists.{All, OnSome}
use Prim.Native.Nat.{Ordering}
use mathlib.Core.Path.{◌≡◌, refl}
use mathlib.Core.Bool.{Bool, true, false, ◌||◌}
use mathlib.Core.Option.{Option, none, some}
use mathlib.Core.List.{List, [], ◌∷◌, ◌++◌}
use native.Mathlib.Omega.{arith}

pub record Keyed {ℓ} (K : Type ℓ) : Type ℓ where
  pub key : K → Text

instance abbrev pub text_keyed : Keyed Text
text_keyed = record { key = λ t. t }

module _ {K : Type 0} ⦃o : Keyed K⦄ where
  abbrev pub key_eq : K → K → Bool
  key_eq j k = text_eq (o.key j) (o.key k)

  -- `contains` of a slice or a set of keys
  unfoldable pub contains : List K → K → Bool
  contains [] k = false
  contains (j ∷ js) k = key_eq j k || contains js k

  pub contains-append :
      (xs ys : List K) (k : K) → contains (xs ++ ys) k ≡ contains xs k || contains ys k
  unfolding contains
  contains-append [] ys k = refl
  contains-append (x ∷ xs) ys k = ground (arith, contains-append xs ys k)

  contains_later :
      (i : K) (ks l : List K)
      → All (λ k. contains ks k ≡ true) l
      → All (λ k. contains (i ∷ ks) k ≡ true) l
  unfolding contains
  contains_later i ks [] h = tt
  contains_later i ks (k ∷ l) h = (ground arith, contains_later i ks l h.1)

  pub contains_self : (ks : List K) → All (λ k. contains ks k ≡ true) ks
  unfolding contains
  contains_self [] = tt
  contains_self (k ∷ ks) =
      (ground (arith, text_eq_refl (o.key k)), contains_later k ks ks (contains_self ks))

  -- Only the text of a key matters to a test of membership.
  pub contains_key_eq : (ks : List K) (j k : K) → o.key j ≡ o.key k → contains ks j ≡ contains ks k
  unfolding contains
  contains_key_eq [] j k e = refl
  contains_key_eq (i ∷ ks) j k e = rw e (ground (arith, contains_key_eq ks j k e))

module _ {K V : Type 0} ⦃o : Keyed K⦄ where
  unfoldable pub lookup : K → List (K × V) → Option V
  lookup k [] = none
  lookup k ((j, v) ∷ m) = if key_eq j k then some v else lookup k m

  abbrev pub contains_key : List (K × V) → K → Bool
  contains_key m k = is_some (lookup k m)

  -- `insert`: a key that is there already stays as it is spelled, and its value is replaced.
  unfoldable pub insert : K → V → List (K × V) → List (K × V)
  insert k v [] = (k, v) ∷ []
  insert k v ((j, w) ∷ m) =
      let rest = insert k v m in
      elim (text_compare (o.key k) (o.key j)) [
        | Ordering.lt ↦ (k, v) ∷ (j, w) ∷ m
        | Ordering.eq ↦ (j, v) ∷ m
        | Ordering.gt ↦ (j, w) ∷ rest
      ]

  -- `extend`: the entries are inserted one by one, the later ones win.
  unfoldable pub extend : List (K × V) → List (K × V) → List (K × V)
  extend m [] = m
  extend m ((k, v) ∷ es) = extend (insert k v m) es

  -- `retain`
  unfoldable pub retain : (K → V → Bool) → List (K × V) → List (K × V)
  retain p [] = []
  retain p ((k, v) ∷ m) = let rest = retain p m in if p k v then (k, v) ∷ rest else rest

  -- The last value that a list of entries has for a key.
  unfoldable pub last_value : K → List (K × V) → Option V
  last_value k [] = none
  last_value k ((j, v) ∷ es) = elim (last_value k es) [
    | none ↦ (if key_eq j k then some v else none)
    | some w ↦ some w
  ]

  pub lookup-insert :
      (k j : K) (v : V) (m : List (K × V))
      → lookup j (insert k v m) ≡ (if key_eq k j then some v else lookup j m)
  unfolding lookup insert
  lookup-insert k j v [] = refl
  lookup-insert k j v ((i, w) ∷ m) = ground (
    arith,
    lookup-insert k j v m,
    text_eq_iff (o.key k) (o.key j),
    text_eq_iff (o.key i) (o.key j),
    text_compare_iff (o.key k) (o.key i),
  )

  -- What a map holds after `extend`: the last new value, or what it held before.
  pub lookup-extend :
      (j : K) (m es : List (K × V))
      → lookup j (extend m es) ≡ elim (last_value j es) [ none ↦ lookup j m | some v ↦ some v ]
  unfolding extend last_value
  lookup-extend j m [] = refl
  lookup-extend j m ((k, v) ∷ es) =
      ground (arith, lookup-extend j (insert k v m) es, lookup-insert k j v m)

  -- Inserting keeps a property of the entries, if it does not turn on how a key is spelled.
  module _ (P : K × V → Type 0) where
    pub All-insert :
        (k : K) (v : V) (m : List (K × V))
        → ((j : K) → o.key j ≡ o.key k → P (j, v))
        → All P m
        → All P (insert k v m)
    unfolding insert
    All-insert k v [] p h = (p k refl, tt)
    All-insert k v ((j, w) ∷ m) p h =
        (elim (text_compare (o.key k) (o.key j))
            as (λ c.
              (text_compare (o.key k) (o.key j) ≡ c
                → All P (elim c [
                  | Ordering.lt ↦ (k, v) ∷ (j, w) ∷ m
                  | Ordering.eq ↦ (j, v) ∷ m
                  | Ordering.gt ↦ (j, w) ∷ insert k v m
                ]))) [
                  | Ordering.lt ↦ λ e. (p k refl, h)
                  | Ordering.eq ↦
                      λ e. (p j (ground (arith, text_compare_iff (o.key k) (o.key j))), h.1)
                  | Ordering.gt ↦ λ e. (h.0, All-insert k v m p h.1)
                ])
          refl

    pub All-extend :
        (m es : List (K × V))
        → ((k j : K) (v : V) → o.key j ≡ o.key k → P (k, v) → P (j, v))
        → All P m
        → All P es
        → All P (extend m es)
    unfolding extend
    All-extend m [] p h g = h
    All-extend m ((k, v) ∷ es) p h g =
        All-extend (insert k v m) es p (All-insert k v m (λ j e. p k j v e g.0) h) g.1

  pub lookup-All :
      (P : K × V → Type 0) (k : K) (m : List (K × V))
      → All P m
      → OnSome (λ v. (j : K) × P (j, v)) (lookup k m)
  unfolding lookup
  lookup-All P k [] h = tt
  lookup-All P k ((j, v) ∷ m) h =
      elim (key_eq j k)
        as (λ b. OnSome (λ w. (i : K) × P (i, w)) (if b then some v else lookup k m)) [
          | true ↦ (j, h.0)
          | false ↦ lookup-All P k m h.1
        ]

  -- Only the text of a key matters to a lookup.
  pub lookup_key : (j k : K) (m : List (K × V)) → o.key j ≡ o.key k → lookup j m ≡ lookup k m
  unfolding lookup
  lookup_key j k [] e = refl
  lookup_key j k ((i, v) ∷ m) e = rw e (ground (arith, lookup_key j k m e))

  lookup_empty : (k : K) → lookup k [] ≡ none
  unfolding lookup
  lookup_empty k = refl

  pub contains_key-append :
      (k : K) (m n : List (K × V)) → contains_key (m ++ n) k ≡ contains_key m k || contains_key n k
  unfolding lookup
  contains_key-append k [] n = refl
  contains_key-append k ((j, v) ∷ m) n = ground (arith, contains_key-append k m n)

  is_some-last_value : (k : K) (es : List (K × V)) → is_some (last_value k es) ≡ contains_key es k
  unfolding last_value lookup
  is_some-last_value k [] = refl
  is_some-last_value k ((j, v) ∷ es) = ground (arith, is_some-last_value k es)

  -- A map made of entries has their keys.
  pub contains_key-extend :
      (k : K) (es : List (K × V)) → contains_key (extend [] es) k ≡ contains_key es k
  contains_key-extend k es =
      rw lookup-extend (ground (arith, is_some-last_value k es, lookup_empty k))
