-- ===== src/Guard.antt =====
-- crates/rattler_prefix_guard/src/lib.rs: the guard file of a prefix. `Prefixes` has the steps that
-- processes take on a prefix, `Promise` what they may rely on.
pub mod Writes
pub mod Prefixes
pub mod Sound
pub mod Promise
pub mod Recovery
pub mod Lost
use rattler_build.Prelude.{
  ℕ, zero, suc, ◌+◌, Bool, true, false, not, Option, none, some, List, [], ◌∷◌, ◌++◌, Text, Result,
  ok, err, length, if◌then◌else◌,
}

pub data GuardState : Type 0 where
  unknown : GuardState
  installing : GuardState
  ready : GuardState

-- The derived `PartialEq`.
unfoldable pub state_eq : GuardState → GuardState → Bool
state_eq unknown unknown = true
state_eq installing installing = true
state_eq ready ready = true
state_eq unknown installing = false
state_eq unknown ready = false
state_eq installing unknown = false
state_eq installing ready = false
state_eq ready unknown = false
state_eq ready installing = false

-- An open file that holds the lock: the position of the next read or write.
pub record File : Type 0 where
  pub offset : ℕ

pub record WriteGuard : Type 0 where
  pub file : Option File
  pub state : GuardState

-- What `serde_json` makes of a state, and of the bytes of a file.
pub record Json : Type 0 where
  pub to_vec : GuardState → Text
  pub from_slice : Text → Option GuardState

-- `File::set_len`: the first bytes of the content, filled up with zeros.
unfoldable pub resize : ℕ → Text → Text
resize zero t = []
resize (suc n) [] = 0 ∷ resize n []
resize (suc n) (b ∷ t) = b ∷ resize n t

-- What follows the first `n` bytes.
unfoldable pub drop : ℕ → Text → Text
drop zero t = t
drop (suc n) [] = []
drop (suc n) (b ∷ t) = drop n t

-- The first `n` bytes, or all.
unfoldable pub take : ℕ → Text → Text
take zero t = []
take (suc n) [] = []
take (suc n) (b ∷ t) = b ∷ take n t

-- A write to the file at a position.
unfoldable pub write_at : ℕ → Text → Text → Text
unfolding resize drop
write_at pos bytes t = resize pos t ++ (bytes ++ drop (pos + length bytes) t)

-- The errors that the operating system reports in the course of one write of a state. A write
-- that fails leaves a number of its bytes in the file.
pub record Faults (IoError : Type 0) : Type 0 where
  pub seek_error : Option IoError
  pub write_error : Option (ℕ × IoError)
  pub set_len_error : Option IoError
  pub flush_error : Option IoError

-- An operation on the file: its result, and the content of the file after it.
abbrev pub Op : Type 0 → Type 0
Op IoError = Result IoError File × Text

-- `serde_json::from_slice(&bytes).unwrap_or(GuardState::Unknown)`
unfoldable pub read_state : Json → Text → GuardState
read_state json t = elim (json.from_slice t) [ none ↦ unknown | some state ↦ state ]

unfoldable pub is_ready : WriteGuard → Bool
unfolding state_eq
is_ready guard = state_eq guard.state ready

module _ {IoError : Type 0} where
  infixl 5 ◌then◌
  abbrev pub ◌then◌ : Op IoError → (File → Text → Op IoError) → Op IoError
  (err e, t) then next = (err e, t)
  (ok file, t) then next = next file t

  abbrev seek_start : Option IoError → File → Text → Op IoError
  seek_start none file t = (ok (record { offset = 0 }), t)
  seek_start (some e) file t = (err e, t)

  abbrev write_all : Option (ℕ × IoError) → Text → File → Text → Op IoError
  write_all none bytes file t =
      (ok (record { offset = file.offset + length bytes }), write_at file.offset bytes t)
  write_all (some (written, e)) bytes file t = (err e, write_at file.offset (take written bytes) t)

  abbrev set_len : Option IoError → ℕ → File → Text → Op IoError
  set_len none n file t = (ok file, resize n t)
  set_len (some e) n file t = (err e, t)

  abbrev flush : Option IoError → File → Text → Op IoError
  flush none file t = (ok file, t)
  flush (some e) file t = (err e, t)

  -- The blocking task of `begin` and `finish`.
  unfoldable pub write_state : Faults IoError → Text → File → Text → Op IoError
  unfolding write_at take
  write_state faults bytes file t = seek_start faults.seek_error file t then λ file t.
      (write_all faults.write_error bytes file t then λ file t.
      (set_len faults.set_len_error (length bytes) file t then λ file t.
      flush faults.flush_error file t))

  module _ (json : Json) where
    open json use {to_vec}

    -- `AsyncWriteGuard::new`, of a file that was just opened.
    unfoldable pub new : Option IoError → Text → Result IoError WriteGuard
    unfolding read_state
    new none t =
        ok (record { file = some (record { offset = length t }); state = read_state json t })
    new (some e) t = err e

    -- The end of `begin`: the file is back in place only if all was written.
    abbrev pub begun : WriteGuard → Op IoError → Result IoError (Unit {0}) × (WriteGuard × Text)
    begun guard (ok file, t) = (ok tt, (record { file = some file; state = installing }, t))
    begun guard (err e, t) = (err e, (record guard { file = none }, t))

    -- `begin`, with the error of a file that is gone.
    unfoldable pub begin :
        IoError
        → Faults IoError
        → WriteGuard
        → Text
        → Result IoError (Unit {0}) × (WriteGuard × Text)
    unfolding state_eq write_state
    begin consumed faults guard t =
        if not (state_eq guard.state installing)
        then elim guard.file [
          | none ↦ (err consumed, (guard, t))
          | some file ↦ begun guard (write_state faults (to_vec installing) file t)
        ]
        else (ok tt, (guard, t))

    abbrev pub finished : Op IoError → Result IoError (Unit {0}) × Text
    finished (ok file, t) = (ok tt, t)
    finished (err e, t) = (err e, t)

    -- `finish`, which consumes the guard.
    unfoldable pub finish : Faults IoError → WriteGuard → Text → Result IoError (Unit {0}) × Text
    unfolding state_eq write_state
    finish faults guard t =
        if state_eq guard.state installing
        then elim guard.file [
          | none ↦ (ok tt, t)
          | some file ↦ finished (write_state faults (to_vec ready) file t)
        ]
        else (ok tt, t)
