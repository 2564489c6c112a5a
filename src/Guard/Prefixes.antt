-- ===== src/Guard/Prefixes.antt =====
-- What processes do to the guard file of one prefix, as steps, and what holds after any of them.
use rattler_build.Prelude.{
  ◌≡◌, Bool, true, false, ◌||◌, Option, none, some, [], Text, Result, ok, err, OnSome,
}
use rattler_build.Guard.{
  installing, ready, state_eq, WriteGuard, Json, Faults, read_state, new, begin, finish,
}
use rattler_build.Guard.Writes.{IsQuoted}

-- The content of the guard file, the guard that the last process to lock it has, and whether the
-- process that last had an installation begun also finished it.
pub record Prefix : Type 0 where
  pub content : Text
  pub holder : Option WriteGuard
  pub installed : Bool

abbrev pub prefix : Text → Option WriteGuard → Bool → Prefix
prefix t holder installed = record { content = t; holder = holder; installed = installed }

-- The lock is free if there is no guard, or if the guard has lost its file.
abbrev pub is_free : Option WriteGuard → Bool
is_free none = true
is_free (some guard) = elim guard.file [ none ↦ true | some file ↦ false ]

module _ (json : Json) where
  abbrev pub HolderSound : Text → WriteGuard → Type 0
  HolderSound t guard =
      (guard.file ≡ none → state_eq guard.state installing ≡ false)
      × OnSome (λ file. guard.state ≡ read_state json t) guard.file

  pub record IsSound (p : Prefix) : Type 0 where
    pub quoted : IsQuoted p.content
    pub promised : json.from_slice p.content ≡ some ready → p.installed ≡ true
    pub holder_sound : OnSome (HolderSound p.content) p.holder

-- A prefix before any process has locked it, with an empty guard file.
abbrev pub fresh : Prefix
fresh = prefix [] none false

-- The prefix after a call of `begin`. What was installed counts no longer if it succeeds.
abbrev pub after_begin :
    {IoError : Type 0} → Bool → Result IoError (Unit {0}) × (WriteGuard × Text) → Prefix
after_begin installed (ok tt, (guard, t)) = prefix t (some guard) false
after_begin installed (err e, (guard, t)) = prefix t (some guard) installed

module _ {IoError : Type 0} (json : Json) (consumed : IoError) where
  -- `write` once the lock is free, `begin`, `finish`, and a guard that is dropped or whose process
  -- ends. A process that finishes an installation that it began has installed the prefix.
  pub data Step : Prefix → Prefix → Type 0 where
    acquire :
        (t : Text) (holder : Option WriteGuard) (installed : Bool) (guard : WriteGuard)
        → is_free holder ≡ true
        → new {IoError = IoError} json none t ≡ ok guard
        → Step (prefix t holder installed) (prefix t (some guard) installed)
    start :
        (t : Text) (guard : WriteGuard) (installed : Bool) (faults : Faults IoError)
        → Step
            (prefix t (some guard) installed)
            (after_begin installed (begin json consumed faults guard t))
    complete :
        (t : Text) (guard : WriteGuard) (installed : Bool) (faults : Faults IoError)
        → Step (prefix t (some guard) installed) (
            prefix
              (finish json faults guard t).1
              none
              (installed || state_eq guard.state installing))
    release :
        (t : Text) (guard : WriteGuard) (installed : Bool)
        → Step (prefix t (some guard) installed) (prefix t none installed)

  pub data Reach (p : Prefix) : Prefix → Type 0 where
    here : Reach p p
    next : {q r : Prefix} → Reach p q → Step q r → Reach p r
