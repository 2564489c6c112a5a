-- ===== src/Guard/Recovery.antt =====
-- Whatever a guard file holds, and whoever locked it, the next process can complete an installation.
use rattler_build.Prelude.{
  ap₂, ◌≡◌, refl, ap, ◌∙◌, subst, inl, inr, Bool, true, false, ◌||◌, Bool-cases, Option, none, some,
  ◌+◌, length, Text, Result, ok, arith,
}
use rattler_build.Guard.{
  installing, ready, state_eq, File, WriteGuard, Json, Faults, write_state, read_state, new, begin,
  begun, finish, finished,
}
use rattler_build.Guard.Writes.{IsJson, Outcome, write_state-Outcome}
use rattler_build.Guard.Prefixes.{
  after_begin, Prefix, prefix, acquire, start, complete, release, Reach, here, next, is_free,
}

eq_installing : state_eq installing installing ≡ true
unfolding state_eq
eq_installing = refl

module _ {IoError : Type 0} where
  -- A write in which nothing fails.
  abbrev pub no_faults : Faults IoError
  no_faults = record {
    seek_error = none;
    write_error = none;
    set_len_error = none;
    flush_error = none;
  }

  content_of_ok :
      (bytes t : Text) (file : File) (r : Result IoError File × Text)
      → Outcome bytes t r
      → r.0 ≡ ok file
      → r.1 ≡ bytes
  content_of_ok bytes t file r (inl (_, _, e)) o = e
  content_of_ok bytes t file r (inr (_, x, _)) o = absurd cc

  write_succeeds :
      (bytes : Text) (file : File) (t : Text)
      → (file' : File) × (write_state no_faults bytes file t ≡ (ok file', bytes))
  unfolding write_state
  write_succeeds bytes file t =
      let file' : File = record { offset = 0 + length bytes } in
      (
        file',
        ap (λ t. (ok file', t))
            (content_of_ok bytes t _ _ (write_state-Outcome no_faults bytes file t) refl),
      )

  module _ (json : Json) (consumed : IoError) (h : IsJson json) where
    -- The holder of an installing guard finishes.
    complete_from :
        (p : Prefix) (t : Text) (guard : WriteGuard) (file : File) (installed : Bool)
        → guard.file ≡ some file
        → state_eq guard.state installing ≡ true
        → Reach json consumed p (prefix t (some guard) installed)
        → Reach json consumed p (prefix (json.to_vec ready) none true)
    unfolding finish
    complete_from p t guard file installed n e r =
        let (_, w) = write_succeeds (json.to_vec ready) file t in
        let q : installed || true ≡ true = ground arith in
        let c : (finish json no_faults guard t).1 ≡ json.to_vec ready =
          rw (e, n) (ap (λ r. (finished json r).1) w) in
        let s = next r (complete t guard installed no_faults) in
        subst (Reach json consumed p)
          (ap₂ (λ t i. prefix t none i) c (ap (λ b. installed || b) e ∙ q)) s

    -- The holder of a guard begins and finishes.
    install_from :
        (p : Prefix) (t : Text) (guard : WriteGuard) (file : File) (installed : Bool)
        → guard.file ≡ some file
        → Reach json consumed p (prefix t (some guard) installed)
        → Reach json consumed p (prefix (json.to_vec ready) none true)
    unfolding begin
    install_from p t guard file installed n r =
        elim (Bool-cases (state_eq guard.state installing)) [
          | inl e ↦ complete_from p t guard file installed n e r
          | inr e ↦
              let (file', w) = write_succeeds (json.to_vec installing) file t in
              let c : begin json consumed no_faults guard t ≡ (
                ok tt,
                (record { file = some file'; state = installing }, json.to_vec installing),
              ) =
                rw (e, n) (ap (begun json guard) w) in
              complete_from p (json.to_vec installing)
                (record { file = some file'; state = installing }) file' false refl eq_installing
                (subst (Reach json consumed p) (ap (after_begin installed) c)
                  (next r (start t guard installed no_faults)))
        ]

    free_from :
        (p : Prefix) (t : Text) (holder : Option WriteGuard) (installed : Bool)
        → is_free holder ≡ true
        → Reach json consumed p (prefix t holder installed)
        → Reach json consumed p (prefix (json.to_vec ready) none true)
    unfolding new
    free_from p t holder installed f r =
        let file : File = record { offset = length t } in
        let guard : WriteGuard = record { file = some file; state = read_state json t } in
        install_from p t guard file installed refl
          (next r (acquire t holder installed guard f refl))

    pub install :
        (t : Text) (holder : Option WriteGuard) (installed : Bool)
        → Reach json consumed (prefix t holder installed) (prefix (json.to_vec ready) none true)
    install t none installed = free_from _ t none installed refl here
    install t (some guard) installed =
        free_from _ t none installed refl (next here (release t guard installed))

    -- If the JSON of the guard states is as documented, then from any prefix at all, whatever its
    -- guard file holds and whether or not it is locked, there are steps to one that is not
    -- locked, that is installed and whose guard file reads ready.
    pub can_install :
        (p : Prefix)
        → (q : Prefix) × Reach json consumed p q
          × (is_free q.holder ≡ true)
          × (q.installed ≡ true)
          × (json.from_slice q.content ≡ some ready)
    can_install p = (
      prefix (json.to_vec ready) none true,
      install p.content p.holder p.installed,
      refl,
      refl,
      h.round_trip ready,
    )
