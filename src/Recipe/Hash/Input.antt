-- ===== src/Recipe/Hash/Input.antt =====
-- The text that is hashed determines the variant, up to the spelling of its keys.
use rattler_build.Prelude.{
  ℕ, ◌≡◌, ◌≢◌, refl, ap, ap₂, ◌∙◌, sym, List, [], ◌∷◌, ◌++◌, map, Text, codes, arith,
}
use rattler_build.Keys.{NormalizedKey, normalize}
use rattler_build.Recipe.Hash.{json_entry, json_entries, hash_input}

pub cons-head : {x y : ℕ} {s t : Text} → x ∷ s ≡ y ∷ t → x ≡ y
cons-head h = cc

pub cons-tail : {x y : ℕ} {s t : Text} → x ∷ s ≡ y ∷ t → s ≡ t
cons-tail h = cc

-- What may stand behind a value in a JSON object.
pub data IsEnd : Text → Type 0 where
  comma : (s : Text) → IsEnd (b',' ∷ s)
  brace : (s : Text) → IsEnd (b'}' ∷ s)

-- A JSON string starts with a quote and ends where its encoding says.
abbrev pub IsStringCode : (Text → Text) → Type 0
IsStringCode json_string =
    ((x : Text) → (r : Text) × (json_string x ≡ b'\"' ∷ r))
    × ((x y s t : Text) → json_string x ++ s ≡ json_string y ++ t → (x ≡ y) × (s ≡ t))

-- A JSON value in an object ends at the comma or the brace behind it.
abbrev pub IsValueCode : {V : Type 0} → (V → Text) → Type 0
IsValueCode {V} to_json =
    (x y : V) (s t : Text) → IsEnd s → IsEnd t → to_json x ++ s ≡ to_json y ++ t → (x ≡ y) × (s ≡ t)

module _ {V : Type 0} (json_string : Text → Text) (to_json : V → Text) where
  -- The entries of a variant by their normalized keys.
  abbrev pub entry : NormalizedKey × V → Text × V
  entry (k, v) = (normalize k, v)

  json_entries-IsEnd :
      (variant : List (NormalizedKey × V)) → IsEnd (json_entries json_string to_json variant)
  unfolding json_entries json_entry
  json_entries-IsEnd [] = brace []
  json_entries-IsEnd ((k, v) ∷ variant) = comma _

  module _ (strings : IsStringCode json_string) (values : IsValueCode to_json) where
    json_entry-injective :
        (separator : Text) (d e : NormalizedKey × V) (s t : Text)
        → IsEnd s
        → IsEnd t
        → json_string (normalize d.0) ++ (codes ": " ++ (to_json d.1 ++ s))
          ≡ json_string (normalize e.0) ++ (codes ": " ++ (to_json e.1 ++ t))
        → (entry d ≡ entry e) × (s ≡ t)
    json_entry-injective separator (j, v) (k, w) s t p q h =
        let (keys, rest) = strings.1 (normalize j) (normalize k) _ _ h in
        let (v≡w, s≡t) = values v w s t p q cc in (ap₂ (λ x y. (x, y)) keys v≡w, s≡t)

    json_entries-injective :
        (a b : List (NormalizedKey × V))
        → json_entries json_string to_json a ≡ json_entries json_string to_json b
        → map entry a ≡ map entry b
    unfolding json_entries json_entry
    json_entries-injective [] [] h = refl
    json_entries-injective [] (e ∷ b) h = absurd (cc)
    json_entries-injective (d ∷ a) [] h = absurd (cc)
    json_entries-injective (d ∷ a) (e ∷ b) h =
        let (x, y) =
          json_entry-injective (codes ", ") d e _ _ (json_entries-IsEnd a) (json_entries-IsEnd b)
            cc in
        ap₂ ◌∷◌ x (json_entries-injective a b y)

    -- The empty object is shorter than any other.
    brace_ne-string :
        (k : NormalizedKey) (s : Text) → codes "{}" ≢ codes "{" ++ (json_string (normalize k) ++ s)
    brace_ne-string k s h =
        let (r, q) = strings.0 (normalize k) in
        let p : codes "}" ≡ b'\"' ∷ (r ++ s) = cons-tail h ∙ ap (λ t. t ++ s) q in
        absurd (let n = cons-head p in omega arith)

    entries-injective :
        (d e : NormalizedKey × V) (a b : List (NormalizedKey × V))
        → json_entry json_string to_json [] d (json_entries json_string to_json a)
          ≡ json_entry json_string to_json [] e (json_entries json_string to_json b)
        → map entry (d ∷ a) ≡ map entry (e ∷ b)
    unfolding json_entry
    entries-injective d e a b h =
        let (x, y) =
          json_entry-injective [] d e _ _ (json_entries-IsEnd a) (json_entries-IsEnd b) h in
        ap₂ ◌∷◌ x (json_entries-injective a b y)

    -- If the encoded keys and values can be told from what follows them, two variants with the
    -- same hash input have the same values under the same normalized keys.
    pub hash_input-injective :
        (a b : List (NormalizedKey × V))
        → hash_input json_string to_json a ≡ hash_input json_string to_json b
        → map entry a ≡ map entry b
    unfolding hash_input json_entry
    hash_input-injective [] [] h = refl
    hash_input-injective [] ((k, v) ∷ b) h = absurd (brace_ne-string k _ h)
    hash_input-injective ((k, v) ∷ a) [] h = absurd (brace_ne-string k _ (sym h))
    hash_input-injective (d ∷ a) (e ∷ b) h = entries-injective d e a b (cons-tail h)
