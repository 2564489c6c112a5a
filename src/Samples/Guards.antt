-- ===== src/Samples/Guards.antt =====
-- A prefix on a disk where nothing fails, and one where a write fails.
use rattler_build.Prelude.{
  ◌≡◌, ◌≢◌, refl, true, false, none, some, [], ◌∷◌, Text, Option, ok, err, codes, text_eq,
  if◌then◌else◌, Bool-cases, inl, inr,
}
use rattler_build.Guard.{
  GuardState, unknown, installing, ready, WriteGuard, Json, Faults, read_state, new, is_ready,
  begin, finish, write_state, state_eq, write_at, drop, take, resize,
}
use rattler_build.Guard.Writes.{IsJson}
use rattler_build.Guard.Prefixes.{Prefix, prefix, fresh, Reach, acquire, is_free}
use rattler_build.Guard.Sound.{ready-installed}
use rattler_build.Guard.Promise.{Contract, view_of, Step-Contract}
use rattler_build.Guard.Recovery.{no_faults, install, can_install}
use rattler_build.Guard.Lost.{begin_failed}

abbrev to_vec : GuardState → Text
to_vec unknown = codes "\"unknown\""
to_vec installing = codes "\"installing\""
to_vec ready = codes "\"ready\""

abbrev from_slice : Text → Option GuardState
from_slice t =
    if text_eq t (codes "\"ready\"")
    then some ready
    else if text_eq t (codes "\"installing\"")
    then some installing
    else if text_eq t (codes "\"unknown\"")
    then some unknown
    else none

abbrev json : Json
json = record { to_vec = to_vec; from_slice = from_slice }

reads : (state : GuardState) → from_slice (to_vec state) ≡ some state
unfolding text_eq
reads unknown = refl
reads installing = refl
reads ready = refl

other : (t : Text) → from_slice (b'"' ∷ b'i' ∷ t) ≢ some ready
unfolding text_eq
other t e = elim (Bool-cases (text_eq t (codes "nstalling\""))) [
  | inl i ↦ let q = rw i at e in cc
  | inr i ↦ let q = rw i at e in cc
]

json-IsJson : IsJson json
unfolding text_eq
json-IsJson = record {
  round_trip = reads;
  installing_text = refl;
  ready_text = refl;
  empty_text = refl;
  lone_quote = refl;
  other_text = other;
}

abbrev consumed : Text
consumed = codes "File already consumed"

abbrev installed : Prefix
installed = prefix (codes "\"ready\"") none true

installed_reached : Reach json consumed fresh installed
installed_reached = install json consumed json-IsJson [] none false

abbrev told : WriteGuard
told = record { file = some (record { offset = 7 }); state = ready }

told_ready : new {IoError = Text} json none (codes "\"ready\"") ≡ ok told
unfolding new read_state text_eq
told_ready = refl

is_ready_told : is_ready told ≡ true
unfolding is_ready state_eq
is_ready_told = refl

-- The holder of the lock died while it wrote `installing` over `ready`.
abbrev interrupted : Prefix
interrupted = prefix (codes "\"installin") none true

abbrev set_len_fails : Faults Text
set_len_fails = record no_faults { set_len_error = some (codes "disk") }

abbrev lost : WriteGuard
lost = record { file = none; state = ready }

ready-installed_example : installed.installed ≡ true
ready-installed_example =
    ready-installed json consumed json-IsJson told installed_reached told_ready is_ready_told

Step-Contract_example :
    Contract (view_of installed) (view_of (prefix (codes "\"ready\"") (some told) true))
Step-Contract_example =
    Step-Contract json consumed json-IsJson installed_reached
      (acquire (codes "\"ready\"") none true told refl told_ready)

can_install_example :
    (q : Prefix) × Reach json consumed interrupted q
    × (is_free q.holder ≡ true)
    × (q.installed ≡ true)
    × (from_slice q.content ≡ some ready)
can_install_example = can_install json consumed json-IsJson interrupted

-- The file holds the new text, and what is left of the old one.
begin_fails :
    begin json consumed set_len_fails told (codes "\"ready\"...........")
    ≡ (err (codes "disk"), (lost, codes "\"installing\"......"))
unfolding begin write_state write_at take drop resize state_eq
begin_fails = refl

begin_failed_example :
    (begin json consumed no_faults lost [] ≡ (err consumed, (lost, [])))
    × (finish json (no_faults {IoError = Text}) lost [] ≡ (ok tt, []))
begin_failed_example =
    begin_failed json consumed set_len_fails no_faults told lost (codes "disk")
      (codes "\"ready\"...........") (codes "\"installing\"......") [] begin_fails
