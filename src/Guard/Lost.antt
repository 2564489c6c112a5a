-- ===== src/Guard/Lost.antt =====
-- A guard whose `begin` failed.
use rattler_build.Prelude.{
  ◌≡◌, refl, sym, ap, ◌∙◌, inl, inr, false, Bool-cases, Option-cases, none, Text, Result, ok, err,
}
use rattler_build.Guard.{installing, state_eq, File, WriteGuard, Json, Faults, begin, begun, finish}

module _ {IoError : Type 0} (json : Json) (consumed : IoError) where
  abbrev IsLost : WriteGuard → Type 0
  IsLost guard = (guard.file ≡ none) × (state_eq guard.state installing ≡ false)

  begun-IsLost :
      (guard guard' : WriteGuard) (e : IoError) (r : Result IoError File × Text) (t' : Text)
      → state_eq guard.state installing ≡ false
      → begun json guard r ≡ (err e, (guard', t'))
      → IsLost guard'
  begun-IsLost guard guard' e (ok file, t) t' n h = absurd (let q = ap (λ r. r.0) h in cc)
  begun-IsLost guard guard' e (err _, t) t' n h =
      let q = ap (λ r. r.1.0) h in
      (sym (ap (λ g. g.file) q), ap (λ g. state_eq g.state installing) (sym q) ∙ n)

  begin-IsLost :
      (faults : Faults IoError) (guard guard' : WriteGuard) (e : IoError) (t t' : Text)
      → begin json consumed faults guard t ≡ (err e, (guard', t'))
      → IsLost guard'
  unfolding begin
  begin-IsLost faults guard guard' e t t' h = elim (Bool-cases (state_eq guard.state installing)) [
    | inl s ↦ absurd (let q = ap (λ r. r.0) (rw s at h) in cc)
    | inr s ↦ elim (Option-cases guard.file) [
      | inl n ↦
          let q = ap (λ r. r.1.0) (rw (s, n) at h) in
          (sym (ap (λ g. g.file) q) ∙ n, ap (λ g. state_eq g.state installing) (sym q) ∙ s)
      | inr (file, n) ↦ begun-IsLost guard guard' e _ t' s (rw (s, n) at h)
    ]
  ]

  -- After a `begin` that failed, the same guard fails again to begin, with the error of a
  -- consumed file, and reports success when it finishes, and neither changes what the guard file
  -- holds.
  pub begin_failed :
      (faults faults' : Faults IoError) (guard guard' : WriteGuard) (e : IoError) (t t' now : Text)
      → begin json consumed faults guard t ≡ (err e, (guard', t'))
      → (begin json consumed faults' guard' now ≡ (err consumed, (guard', now)))
        × (finish json faults' guard' now ≡ (ok tt, now))
  unfolding begin finish
  begin_failed faults faults' guard guard' e t t' now h =
      let (n, s) = begin-IsLost faults guard guard' e t t' h in
      (rw (s, n) (ap (λ f. (err consumed, (record guard' { file = f }, now))) n), rw s refl)
