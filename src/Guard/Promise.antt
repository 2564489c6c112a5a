-- ===== src/Guard/Promise.antt =====
-- What a process may rely on when it locks a prefix: the abstract view of the guard, that the steps
-- refine it, and that an installation can always be completed.
use rattler_build.Prelude.{
  ◌≡◌, refl, inl, inr, Bool, true, false, ◌||◌, Bool-cases, Option, none, some, Option-cases, Text,
  Result, ok, err, ok-injective, arith,
}
use rattler_build.Guard.{
  GuardState, installing, ready, state_eq, File, WriteGuard, Json, Faults, write_state, unknown,
  new, is_ready, begin, begun,
}
use rattler_build.Guard.Writes.{IsJson}
use rattler_build.Guard.Prefixes.{
  Prefix, prefix, IsSound, after_begin, Step, acquire, start, complete, release, Reach, fresh,
  is_free,
}
use rattler_build.Guard.Sound.{Reach-IsSound, ready-installed}

-- Whether the prefix is installed, and what the process that holds the lock was told, if one does.
pub record View : Type 0 where
  pub installed : Bool
  pub told : Option Bool

abbrev pub view : Bool → Option Bool → View
view installed told = record { installed = installed; told = told }

-- The contract: who locks the prefix is told that it is ready only if it is installed; who begins an
-- installation takes that back; who finishes one installs the prefix and gives up the lock; and a
-- lock that is lost or given up changes nothing.
pub data Contract : View → View → Type 0 where
  locked :
      (installed : Bool) (is_ready : Bool)
      → (is_ready ≡ true → installed ≡ true)
      → Contract (view installed none) (view installed (some is_ready))
  begun_again :
      (installed : Bool) (is_ready : Bool)
      → Contract (view installed (some is_ready)) (view false (some false))
  finished_it :
      (installed : Bool) (is_ready : Bool)
      → Contract (view installed (some is_ready)) (view true none)
  given_up :
      (installed : Bool) (is_ready : Bool)
      → Contract (view installed (some is_ready)) (view installed none)
  unchanged : (v : View) → Contract v v

abbrev told_of : Option WriteGuard → Option Bool
told_of none = none
told_of (some guard) = elim guard.file [ none ↦ none | some file ↦ some (is_ready guard) ]

-- The view of a prefix: a guard without a file holds no lock.
abbrev pub view_of : Prefix → View
view_of p = view p.installed (told_of p.holder)

module _ {IoError : Type 0} (json : Json) (consumed : IoError) (h : IsJson json) where
  told_of_free : (holder : Option WriteGuard) → is_free holder ≡ true → told_of holder ≡ none
  told_of_free none f = refl
  told_of_free (some guard) f = elim (Option-cases guard.file) [
    | inl n ↦ rw n refl
    | inr (file, n) ↦ absurd (let q = rw n at f in cc)
  ]

  acquire-Contract :
      (t : Text) (holder : Option WriteGuard) (installed : Bool) (guard : WriteGuard)
      → is_free holder ≡ true
      → new {IoError = IoError} json none t ≡ ok guard
      → (is_ready guard ≡ true → installed ≡ true)
      → Contract (view_of (prefix t holder installed)) (view_of (prefix t (some guard) installed))
  unfolding new
  acquire-Contract t holder installed guard f e i =
      rw (told_of_free holder f) (elim (Option-cases guard.file) [
        | inl n ↦ absurd (let q = ok-injective e in cc)
        | inr (file, n) ↦ rw n (locked installed (is_ready guard) i)
      ])

  begun-Contract :
      (t : Text) (guard : WriteGuard) (installed : Bool) (b : Bool) (r : Result IoError File × Text)
      → Contract (view installed (some b)) (view_of (after_begin installed (begun json guard r)))
  unfolding is_ready state_eq
  begun-Contract t guard installed b (ok file, t') = begun_again installed b
  begun-Contract t guard installed b (err e, t') = given_up installed b

  not_ready : (state : GuardState) → state_eq state installing ≡ true → state_eq state ready ≡ false
  unfolding state_eq
  not_ready unknown e = refl
  not_ready installing e = refl
  not_ready ready e = cc

  start-Contract :
      (t : Text) (guard : WriteGuard) (installed : Bool) (faults : Faults IoError)
      → IsSound json (prefix t (some guard) installed)
      → Contract
          (view_of (prefix t (some guard) installed))
          (view_of (after_begin installed (begin json consumed faults guard t)))
  unfolding begin is_ready
  start-Contract t guard installed faults s = elim (Bool-cases (state_eq guard.state installing)) [
    | inl e ↦ elim (Option-cases guard.file) [
      | inl n ↦ absurd (let m = s.holder_sound.0 n in cc)
      | inr (file, n) ↦ rw (e, n, not_ready guard.state e) (begun_again installed false)
    ]
    | inr e ↦ elim (Option-cases guard.file) [
      | inl n ↦ rw (e, n) (rw n (unchanged _))
      | inr (file, n) ↦
          rw (e, n)
            (begun-Contract t guard installed (is_ready guard)
              (write_state faults (json.to_vec installing) file t))
    ]
  ]

  complete-Contract :
      (t : Text) (guard : WriteGuard) (installed : Bool) (faults : Faults IoError)
      → IsSound json (prefix t (some guard) installed)
      → Contract
          (view_of (prefix t (some guard) installed))
          (view (installed || state_eq guard.state installing) none)
  complete-Contract t guard installed faults s =
      elim (Bool-cases (state_eq guard.state installing)) [
        | inl e ↦ elim (Option-cases guard.file) [
          | inl n ↦ absurd (let m = s.holder_sound.0 n in cc)
          | inr (file, n) ↦
              let q : installed || true ≡ true = ground arith in
              rw (e, n, q) (finished_it installed (is_ready guard))
        ]
        | inr e ↦
            let q : installed || false ≡ installed = ground arith in
            elim (Option-cases guard.file) [
              | inl n ↦ rw (e, n, q) (unchanged _)
              | inr (file, n) ↦ rw (e, n, q) (given_up installed (is_ready guard))
            ]
      ]

  release-Contract :
      (t : Text) (guard : WriteGuard) (installed : Bool)
      → Contract (view_of (prefix t (some guard) installed)) (view installed none)
  release-Contract t guard installed = elim (Option-cases guard.file) [
    | inl n ↦ rw n (unchanged _)
    | inr (file, n) ↦ rw n (given_up installed (is_ready guard))
  ]

  -- If the JSON of the guard states is as documented, every step on a prefix that steps from a
  -- fresh one lead to is, in the view of the lock and of what its holder was told, a step that
  -- the contract of the guard allows or no change.
  pub Step-Contract :
      {p q : Prefix}
      → Reach json consumed fresh p
      → Step json consumed p q
      → Contract (view_of p) (view_of q)
  Step-Contract r (acquire t holder installed guard f e) =
      acquire-Contract t holder installed guard f e (ready-installed json consumed h guard r e)
  Step-Contract r (start t guard installed faults) =
      start-Contract t guard installed faults (Reach-IsSound json consumed h r)
  Step-Contract r (complete t guard installed faults) =
      complete-Contract t guard installed faults (Reach-IsSound json consumed h r)
  Step-Contract r (release t guard installed) = release-Contract t guard installed
