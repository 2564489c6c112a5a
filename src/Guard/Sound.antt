-- ===== src/Guard/Sound.antt =====
-- Every step keeps what the guard file and the guard are to one another.
use rattler_build.Prelude.{
  ◌∙◌, ℕ, ◌≡◌, refl, sym, ap, ◌⊎◌, inl, inr, Bool, true, false, ◌||◌, Bool-cases, Option, none,
  some, Text, Result, ok, err, ok-injective, OnSome, codes, arith, Option-cases, subst,
}
use rattler_build.Guard.{
  GuardState, unknown, installing, ready, state_eq, File, WriteGuard, Json, Faults, write_state,
  read_state, new, is_ready, begin, begun, finish, finished,
}
use rattler_build.Guard.Writes.{
  IsJson, IsQuoted, torn, Outcome, write_state-Outcome, torn-IsQuoted, torn-ready, read_ready,
}
use rattler_build.Guard.Prefixes.{
  Prefix, prefix, HolderSound, IsSound, after_begin, Step, acquire, start, complete, release, Reach,
  here, next, fresh,
}

eq_ready : (state : GuardState) → state_eq state ready ≡ true → state ≡ ready
unfolding state_eq
eq_ready unknown e = cc
eq_ready installing e = cc
eq_ready ready e = refl

module _ {IoError : Type 0} (json : Json) (consumed : IoError) where
  module _ (h : IsJson json) where
    fresh-IsSound : IsSound json fresh
    fresh-IsSound = record {
      quoted = tt;
      promised = λ e. let l = h.empty_text in cc;
      holder_sound = tt;
    }

    holder_of_new :
        (t : Text) (guard : WriteGuard)
        → new {IoError = IoError} json none t ≡ ok guard
        → HolderSound json t guard
    unfolding new
    holder_of_new t guard e = subst (HolderSound json t) (ok-injective e) ((λ n. cc), refl)

    state_of_file :
        (guard : WriteGuard) (t : Text)
        → new {IoError = IoError} json none t ≡ ok guard
        → guard.state ≡ read_state json t
    unfolding new
    state_of_file guard t e = subst (λ g. g.state ≡ read_state json t) (ok-injective e) refl

    acquire-IsSound :
        (t : Text) (holder : Option WriteGuard) (installed : Bool) (guard : WriteGuard)
        → new {IoError = IoError} json none t ≡ ok guard
        → IsSound json (prefix t holder installed)
        → IsSound json (prefix t (some guard) installed)
    acquire-IsSound t holder installed guard e s = record {
      quoted = s.quoted;
      promised = s.promised;
      holder_sound = holder_of_new t guard e;
    }

    written-IsQuoted : (t : Text) → t ≡ json.to_vec installing → IsQuoted t
    written-IsQuoted t e = subst IsQuoted (sym (e ∙ h.installing_text)) refl

    not-ready :
        (t : Text) {P : Type 0} → t ≡ json.to_vec installing → json.from_slice t ≡ some ready → P
    not-ready t e r = let p = h.round_trip installing in absurd cc

    read_written : (t : Text) → t ≡ json.to_vec installing → installing ≡ read_state json t
    unfolding read_state
    read_written t e = rw (e, h.round_trip installing, read_state) refl

    -- A guard that found an interrupted installation.
    started-IsSound :
        (t : Text) (guard : WriteGuard) (installed : Bool)
        → IsSound json (prefix t (some guard) installed)
        → state_eq guard.state installing ≡ true
        → IsSound json (prefix t (some guard) false)
    unfolding read_state state_eq
    started-IsSound t guard installed s e = record {
      quoted = s.quoted;
      promised = λ r. elim (Option-cases guard.file) [
        | inl n ↦ absurd (let m = s.holder_sound.0 n in cc)
        | inr (file, n) ↦
            let p : OnSome (λ f. guard.state ≡ read_state json t) (some file) =
              subst (OnSome (λ f. guard.state ≡ read_state json t)) n s.holder_sound.1 in
            let q : read_state json t ≡ ready = rw (r, read_state) refl in
            let x : state_eq guard.state installing ≡ false = rw (p, q) refl in absurd cc
      ];
      holder_sound = s.holder_sound;
    }

    -- The content after a write of `installing` that did not come through.
    failed-IsSound :
        (t t' : Text) (guard : WriteGuard) (installed : Bool)
        → IsSound json (prefix t (some guard) installed)
        → state_eq guard.state installing ≡ false
        → ((t' ≡ json.to_vec installing) ⊎ ((k : ℕ) × (t' ≡ torn k (json.to_vec installing) t)))
        → IsSound json (prefix t' (some (record guard { file = none })) installed)
    failed-IsSound t t' guard installed s n (inl e) = record {
      quoted = written-IsQuoted t' e;
      promised = λ r. not-ready t' e r;
      holder_sound = ((λ _. n), tt);
    }
    failed-IsSound t t' guard installed s n (inr (k, e)) =
        let q = e ∙ ap (λ b. torn k b t) h.installing_text in
        record {
          quoted =
              subst IsQuoted (sym q) (torn-IsQuoted k (codes "\"installing\"") t refl s.quoted);
          promised =
              λ r. s.promised (torn-ready json h k t s.quoted (ap json.from_slice (sym q) ∙ r));
          holder_sound = ((λ _. n), tt);
        }

    begun-IsSound :
        (t : Text) (guard : WriteGuard) (installed : Bool) (r : Result IoError File × Text)
        → IsSound json (prefix t (some guard) installed)
        → state_eq guard.state installing ≡ false
        → Outcome (json.to_vec installing) t r
        → IsSound json (after_begin installed (begun json guard r))
    begun-IsSound t guard installed (ok file, t') s n (inl (f, _, e)) = record {
      quoted = written-IsQuoted t' e;
      promised = λ r. not-ready t' e r;
      holder_sound = ((λ x. cc), read_written t' e);
    }
    begun-IsSound t guard installed (ok file, t') s n (inr (_, x, e)) = absurd cc
    begun-IsSound t guard installed (err _, t') s n (inl (_, x, e)) = absurd cc
    begun-IsSound t guard installed (err _, t') s n (inr (_, _, e)) =
        failed-IsSound t t' guard installed s n e

    begin-IsSound :
        (t : Text) (guard : WriteGuard) (installed : Bool) (faults : Faults IoError)
        → IsSound json (prefix t (some guard) installed)
        → IsSound json (after_begin installed (begin json consumed faults guard t))
    unfolding begin
    begin-IsSound t guard installed faults s = elim (Bool-cases (state_eq guard.state installing)) [
      | inl e ↦ rw e (started-IsSound t guard installed s e)
      | inr e ↦ elim (Option-cases guard.file) [
        | inl n ↦ rw (e, n) s
        | inr (file, n) ↦
            rw (e, n) (begun-IsSound t guard installed _ s e (write_state-Outcome faults _ file t))
      ]
    ]

    finished-IsQuoted :
        (t : Text) (r : Result IoError File × Text)
        → IsQuoted t
        → Outcome (json.to_vec ready) t r
        → IsQuoted (finished json r).1
    finished-IsQuoted t (ok file, t') q (inl (_, _, e)) =
        subst IsQuoted (sym (e ∙ h.ready_text)) refl
    finished-IsQuoted t (ok file, t') q (inr (_, x, e)) = absurd cc
    finished-IsQuoted t (err _, t') q (inl (_, x, e)) = absurd cc
    finished-IsQuoted t (err _, t') q (inr (_, _, inl e)) =
        subst IsQuoted (sym (e ∙ h.ready_text)) refl
    finished-IsQuoted t (err _, t') q (inr (_, _, inr (k, e))) =
        subst IsQuoted (sym (e ∙ ap (λ b. torn k b t) h.ready_text))
          (torn-IsQuoted k (codes "\"ready\"") t refl q)

    finish-IsSound :
        (t : Text) (guard : WriteGuard) (installed : Bool) (faults : Faults IoError)
        → IsSound json (prefix t (some guard) installed)
        → IsSound json (
            prefix
              (finish json faults guard t).1
              none
              (installed || state_eq guard.state installing))
    unfolding finish
    finish-IsSound t guard installed faults s =
        elim (Bool-cases (state_eq guard.state installing)) [
          | inl e ↦ elim (Option-cases guard.file) [
            | inl n ↦ absurd (let m = s.holder_sound.0 n in cc)
            | inr (file, n) ↦
                rw (e, n)
                  (record {
                    quoted =
                        finished-IsQuoted t (write_state faults (json.to_vec ready) file t) s.quoted
                          (write_state-Outcome faults (json.to_vec ready) file t);
                    promised = λ r. ground arith;
                    holder_sound = tt;
                  })
          ]
          | inr e ↦ rw e (record {
            quoted = s.quoted;
            promised = λ r. let p = s.promised r in ground arith;
            holder_sound = tt;
          })
        ]

    pub Step-IsSound : {p q : Prefix} → Step json consumed p q → IsSound json p → IsSound json q
    Step-IsSound (acquire t holder installed guard f e) s =
        acquire-IsSound t holder installed guard e s
    Step-IsSound (start t guard installed faults) s = begin-IsSound t guard installed faults s
    Step-IsSound (complete t guard installed faults) s = finish-IsSound t guard installed faults s
    Step-IsSound (release t guard installed) s = record {
      quoted = s.quoted;
      promised = s.promised;
      holder_sound = tt;
    }

    pub Reach-IsSound : {p : Prefix} → Reach json consumed fresh p → IsSound json p
    Reach-IsSound here = fresh-IsSound
    Reach-IsSound (next r st) = Step-IsSound st (Reach-IsSound r)

    -- If the JSON of the guard states is as documented, then after any steps of processes on a
    -- fresh prefix, failed writes included, a process that locks it and is told that it is ready
    -- finds it installed: the last installation that was begun was also finished.
    pub ready-installed :
        {p : Prefix} (guard : WriteGuard)
        → Reach json consumed fresh p
        → new {IoError = IoError} json none p.content ≡ ok guard
        → is_ready guard ≡ true
        → p.installed ≡ true
    unfolding new is_ready
    ready-installed guard r e i =
        let p = holder_of_new _ guard e in
        (Reach-IsSound r).promised
          (read_ready json _ (sym (state_of_file guard _ e) ∙ eq_ready guard.state i))
