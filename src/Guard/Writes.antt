-- ===== src/Guard/Writes.antt =====
-- What a write of a state leaves in the guard file, whichever part of it fails.
use rattler_build.Prelude.{
  ℕ, zero, suc, ◌≡◌, refl, ap, ◌≢◌, ◌⊎◌, inl, inr, Option, none, some, [], ◌∷◌, ◌++◌, Text, Result,
  ok, err, length, codes, Option-cases,
}
use native.Mathlib.Nat.{zero-add}
use rattler_build.Guard.{
  GuardState, installing, ready, File, Json, resize, drop, take, write_at, Faults, write_state,
  read_state,
}

-- What is documented of `serde_json`: a state that was written is read again; a state is a string
-- in snake case; no input and a lone quote are not JSON, and a string that starts with `i` is no
-- other string.
pub record IsJson (json : Json) : Type 0 where
  pub round_trip : (state : GuardState) → json.from_slice (json.to_vec state) ≡ some state
  pub installing_text : json.to_vec installing ≡ codes "\"installing\""
  pub ready_text : json.to_vec ready ≡ codes "\"ready\""
  pub empty_text : json.from_slice [] ≡ none
  pub lone_quote : json.from_slice (b'"' ∷ []) ≡ none
  pub other_text : (t : Text) → json.from_slice (b'"' ∷ b'i' ∷ t) ≢ some ready

resize-append : (bytes rest : Text) → resize (length bytes) (bytes ++ rest) ≡ bytes
unfolding resize
resize-append [] rest = refl
resize-append (b ∷ bytes) rest = ap (λ t. b ∷ t) (resize-append bytes rest)

take_all : (bytes : Text) → take (length bytes) bytes ≡ bytes
unfolding take
take_all [] = refl
take_all (b ∷ bytes) = ap (λ t. b ∷ t) (take_all bytes)

-- The content after some bytes of a text were written over another from its start.
abbrev pub torn : ℕ → Text → Text → Text
torn k bytes t = take k bytes ++ drop (length (take k bytes)) t

abbrev pub Outcome : {IoError : Type 0} (bytes t : Text) → Result IoError File × Text → Type 0
Outcome {IoError} bytes t r =
    ((file : File) × (r.0 ≡ ok file) × (r.1 ≡ bytes))
    ⊎ ((e : IoError) × (r.0 ≡ err e) × ((r.1 ≡ bytes) ⊎ ((k : ℕ) × (r.1 ≡ torn k bytes t))))

module _ {IoError : Type 0} where
  write-Outcome :
      (seek : Option IoError) (write : Option (ℕ × IoError)) (len flush : Option IoError)
      (bytes : Text) (file : File) (t : Text)
      → Outcome bytes t (
          write_state
            (record {
              seek_error = seek;
              write_error = write;
              set_len_error = len;
              flush_error = flush;
            })
            bytes
            file
            t)
  unfolding write_state write_at resize take drop
  write-Outcome (some e) write len flush bytes file t = inr (e, refl, inr (0, refl))
  write-Outcome none (some (k, e)) len flush bytes file t = inr (e, refl, inr (k, rw zero-add refl))
  write-Outcome none none (some e) flush bytes file t =
      inr (e, refl, inr (length bytes, rw (take_all bytes, zero-add) refl))
  write-Outcome none none none (some e) bytes file t =
      inr (e, refl, inl (rw zero-add (resize-append bytes (drop (length bytes) t))))
  write-Outcome none none none none bytes file t =
      inl (_, refl, rw zero-add (resize-append bytes (drop (length bytes) t)))

  pub write_state-Outcome :
      (faults : Faults IoError) (bytes : Text) (file : File) (t : Text)
      → Outcome bytes t (write_state faults bytes file t)
  write_state-Outcome faults =
      write-Outcome faults.seek_error faults.write_error faults.set_len_error faults.flush_error

-- The empty content, or one that starts with a quote.
abbrev pub IsQuoted : Text → Type 0
IsQuoted [] = Unit
IsQuoted (b ∷ t) = b ≡ b'"'

pub torn-IsQuoted :
    (k : ℕ) (bytes t : Text) → IsQuoted bytes → IsQuoted t → IsQuoted (torn k bytes t)
unfolding take drop
torn-IsQuoted zero bytes t b q = q
torn-IsQuoted (suc k) [] t b q = q
torn-IsQuoted (suc k) (c ∷ bytes) t b q = b

module _ (json : Json) where
  module _ (h : IsJson json) where
    -- A file that reads ready after part of `installing` was written over it did so before.
    pub torn-ready :
        (k : ℕ) (t : Text)
        → IsQuoted t
        → json.from_slice (torn k (codes "\"installing\"") t) ≡ some ready
        → json.from_slice t ≡ some ready
    unfolding take drop
    torn-ready zero t q e = e
    torn-ready (suc zero) [] q e = let l = h.lone_quote in cc
    torn-ready (suc zero) (b ∷ t) q e = rw q e
    torn-ready (suc (suc k)) t q e = absurd (h.other_text _ e)

  pub read_ready : (t : Text) → read_state json t ≡ ready → json.from_slice t ≡ some ready
  unfolding read_state
  read_ready t e = elim (Option-cases (json.from_slice t)) [
    | inl n ↦ absurd (let q = rw (n, read_state) at e in cc)
    | inr (state, n) ↦ let q = rw (n, read_state) at e in cc
  ]
