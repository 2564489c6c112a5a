-- ===== src/Conditionals/Used.antt =====
-- Which variables a list with conditionals uses.
use rattler_build.Prelude.{
  ◌≡◌, ◌≢◌, refl, ap, ap₂, ◌∙◌, List, [], ◌∷◌, Text, Bool, true, false, ◌||◌, Bool-cases, inl, inr,
  arith, text_eq, text_eq_iff, text_compare, text_compare-eq, any, any-append, Ordering,
}
use rattler_build.Prelude.Sort.{sort_by, sort_by-perm, sort_by-IsOrdered, IsOrdered}
use rattler_build.Prelude.Permuted.{any-Perm}
use rattler_build.Conditionals.{
  Variables, concrete, template, Item, value, conditional, Conditional, branches, Items, nil, cons,
  Else, no_else, else_value, dedup, dedup_after, sort_dedup, item_variables, conditional_variables,
  nested_variables, else_variables, used_variables,
}

-- The texts are listed in the order of `str`, each once.
abbrev pub IsIncreasing : List Text → Type 0
IsIncreasing [] = Unit
IsIncreasing (x ∷ []) = Unit
IsIncreasing (x ∷ y ∷ ys) = (text_compare x y ≡ Ordering.lt) × IsIncreasing (y ∷ ys)

abbrev identity : Text → Text
identity v = v

lt_of_le :
    (x y : Text)
    → text_compare x y ≢ Ordering.gt
    → text_eq x y ≡ false
    → text_compare x y ≡ Ordering.lt
lt_of_le x y h n =
    (elim (text_compare x y) as (λ c. (text_compare x y ≡ c → c ≡ Ordering.lt)) [
      | Ordering.lt ↦ λ e. refl
      | Ordering.eq ↦ λ e.
          absurd (let t : text_eq x y ≡ true = (text_eq_iff x y).1 (text_compare-eq x y e) in cc)
      | Ordering.gt ↦ λ e. absurd (h e)
    ])
      refl

dedup_after-IsIncreasing :
    (v : Text) (vs : List Text) → IsOrdered identity (v ∷ vs) → IsIncreasing (v ∷ dedup_after v vs)
unfolding dedup_after
dedup_after-IsIncreasing v [] h = tt
dedup_after-IsIncreasing v (w ∷ vs) h =
    let rest = dedup_after-IsIncreasing w vs h.1 in
    elim (Bool-cases (text_eq v w)) [
      | inl e ↦ let p : v ≡ w = (text_eq_iff v w).0 e in rw (dedup_after, e) (rw p rest)
      | inr e ↦ rw (dedup_after, e) (lt_of_le v w h.0 e, rest)
    ]

dedup-IsIncreasing : (vs : List Text) → IsOrdered identity vs → IsIncreasing (dedup vs)
unfolding dedup
dedup-IsIncreasing [] h = tt
dedup-IsIncreasing (v ∷ vs) h = dedup_after-IsIncreasing v vs h

module _ (x : Text) where
  any-dedup_after :
      (v : Text) (vs : List Text)
      → text_eq x v || any (text_eq x) (dedup_after v vs) ≡ text_eq x v || any (text_eq x) vs
  unfolding dedup_after
  any-dedup_after v [] = refl
  any-dedup_after v (w ∷ vs) = elim (Bool-cases (text_eq v w)) [
    | inl e ↦
        let p : v ≡ w = (text_eq_iff v w).0 e in
        rw (dedup_after, e) (rw p (any-dedup_after w vs ∙ ground arith))
    | inr e ↦ rw (dedup_after, e) (ap (λ b. text_eq x v || b) (any-dedup_after w vs))
  ]

  any-dedup : (vs : List Text) → any (text_eq x) (dedup vs) ≡ any (text_eq x) vs
  unfolding dedup
  any-dedup [] = refl
  any-dedup (v ∷ vs) = any-dedup_after v vs

  any-sort_dedup : (vs : List Text) → any (text_eq x) (sort_dedup vs) ≡ any (text_eq x) vs
  unfolding sort_dedup
  any-sort_dedup vs =
      any-dedup (sort_by identity vs) ∙ any-Perm (text_eq x) (sort_by-perm identity vs)

module _ {T : Type 0} (variables : Variables) (x : Text) where
  open variables use {expression_variables, template_variables}

  -- The text stands among the variables of a template or a condition of the list.
  unfoldable mutual
    pub item_mentions : Item T → Bool
    item_mentions (value (concrete v)) = false
    item_mentions (value (template t)) = any (text_eq x) (template_variables t.source)
    item_mentions (conditional c) = conditional_mentions c

    pub conditional_mentions : Conditional T → Bool
    conditional_mentions (branches condition then_items else_items) =
        any (text_eq x) (expression_variables condition.source)
        || (mentions then_items || else_mentions else_items)

    pub else_mentions : Else T → Bool
    else_mentions no_else = false
    else_mentions (else_value items) = mentions items

    pub mentions : Items T → Bool
    mentions nil = false
    mentions (cons item items) = item_mentions item || mentions items

  mutual
    unfolding item_variables item_mentions

    item-mentions :
        (item : Item T) → any (text_eq x) (item_variables variables item) ≡ item_mentions item
    item-mentions (value (concrete v)) = refl
    item-mentions (value (template t)) = refl
    item-mentions (conditional c) = conditional-mentions c

    conditional-mentions :
        (c : Conditional T)
        → any (text_eq x) (conditional_variables variables c) ≡ conditional_mentions c
    conditional-mentions (branches condition then_items else_items) =
        any-sort_dedup x _
        ∙ any-append (text_eq x) (expression_variables condition.source) _
        ∙ ap (λ b. any (text_eq x) (expression_variables condition.source) || b)
            (any-append (text_eq x) (nested_variables variables then_items)
                (else_variables variables else_items)
              ∙ ap₂ (λ a b. a || b) (items-mentions then_items) (else-mentions else_items))

    else-mentions : (e : Else T) → any (text_eq x) (else_variables variables e) ≡ else_mentions e
    else-mentions no_else = refl
    else-mentions (else_value items) = items-mentions items

    items-mentions :
        (items : Items T) → any (text_eq x) (nested_variables variables items) ≡ mentions items
    items-mentions nil = refl
    items-mentions (cons item items) =
        any-append (text_eq x) (item_variables variables item) (nested_variables variables items)
        ∙ ap₂ (λ a b. a || b) (item-mentions item) (items-mentions items)

module _ {T : Type 0} (variables : Variables) (items : Items T) where
  -- The used variables of a list with conditionals are in the order of `str`, each once, and they
  -- are just the variables that are found in its templates and conditions, in both branches and
  -- at every depth.
  pub used_variables_lem :
      IsIncreasing (used_variables variables items)
      × ((x : Text) → any (text_eq x) (used_variables variables items) ≡ mentions variables x items)
  unfolding used_variables sort_dedup
  used_variables_lem = (
    dedup-IsIncreasing (sort_by identity (nested_variables variables items))
        (sort_by-IsOrdered identity (nested_variables variables items)),
    λ x. any-sort_dedup x (nested_variables variables items) ∙ items-mentions variables x items,
  )
