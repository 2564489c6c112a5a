-- ===== src/Samples/Hashes.antt =====
-- A JSON encoding of keys, with every character escaped, and of two values.
use rattler_build.Prelude.{
  ◌≡◌, refl, ap₂, List, [], ◌∷◌, ◌++◌, map, Text, codes, Bool, true, false, arith, text_eq,
  text_compare,
}
use rattler_build.Prelude.Maps.{lookup, insert, text_keyed}
use rattler_build.Keys.{NormalizedKey, normalize}
use rattler_build.Recipe.Hash.{hash_input, hash_prefix}
use rattler_build.Recipe.Hash.Input.{
  cons-head, cons-tail, IsStringCode, IsValueCode, entry, hash_input-injective,
}
use rattler_build.Samples.Matrix.{python, numpy}

unfoldable pub quoted : Text → Text
quoted [] = b'\"' ∷ []
quoted (c ∷ s) = b'\\' ∷ c ∷ quoted s

abbrev pub quote : Text → Text
quote s = b'\"' ∷ quoted s

-- A quote without a backslash stands only at the end.
quoted-injective : (x y s t : Text) → quoted x ++ s ≡ quoted y ++ t → (x ≡ y) × (s ≡ t)
unfolding quoted
quoted-injective [] [] s t h = (refl, cons-tail h)
quoted-injective [] (d ∷ y) s t h = absurd (let n = cons-head h in omega arith)
quoted-injective (c ∷ x) [] s t h = absurd (let n = cons-head h in omega arith)
quoted-injective (c ∷ x) (d ∷ y) s t h =
    let (p, q) = quoted-injective x y s t (cons-tail (cons-tail h)) in
    (ap₂ ◌∷◌ (cons-head (cons-tail h)) p, q)

abbrev pub to_json : Bool → Text
to_json true = codes "true"
to_json false = codes "false"

quote-IsStringCode : IsStringCode quote
quote-IsStringCode = (λ x. (quoted x, refl), λ x y s t h. quoted-injective x y s t (cons-tail h))

to_json-IsValueCode : IsValueCode to_json
to_json-IsValueCode true true s t p q h = (refl, cons-tail (cons-tail (cons-tail (cons-tail h))))
to_json-IsValueCode false false s t p q h =
    (refl, cons-tail (cons-tail (cons-tail (cons-tail (cons-tail h)))))
to_json-IsValueCode true false s t p q h = absurd (let n = cons-head h in omega arith)
to_json-IsValueCode false true s t p q h = absurd (let n = cons-head h in omega arith)

abbrev dashed : List (NormalizedKey × Bool)
dashed = (record { text = codes "c-compiler" }, true) ∷ (python, false) ∷ []

abbrev underscored : List (NormalizedKey × Bool)
underscored = (record { text = codes "c_compiler" }, true) ∷ (python, false) ∷ []

same_input : hash_input quote to_json dashed ≡ hash_input quote to_json underscored
unfolding hash_input normalize
same_input = refl

hash_input-injective_example :
    map (entry quote to_json) dashed ≡ map (entry quote to_json) underscored
hash_input-injective_example =
    hash_input-injective quote to_json quote-IsStringCode to_json-IsValueCode dashed underscored
      same_input

-- The prefixes stand in a fixed order, whatever the order of the keys.
prefix_example :
    hash_prefix
      (λ (s : Text). s)
      ((python, codes "3.11.* *_cpython") ∷ (numpy, codes "1.26") ∷ [])
      false
    ≡ codes "np126py311"
unfolding hash_prefix text_eq lookup insert text_compare normalize
prefix_example = refl
