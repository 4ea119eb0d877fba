-- ===== src/Acceptance.antt =====
-- internal/core/acceptance.go: the two-step activation of a rule set. The mutex makes every
-- method one atomic step, so a method is a function on the controller's record; `Wait` releases
-- the mutex while it blocks and is two steps, `ready` (which case of its select may be taken)
-- and `wake` (what it does once it has the mutex again).
--
-- Instants are nanoseconds from the zero time, and a length that is not positive is 0. A Go
-- panic (the close of a nil or a closed channel) is `none`.
pub mod Window
pub mod Clock
use easywall.Prelude.{
  ℕ, ◌+◌, ◌-◌, Bool, true, false, not, ◌||◌, Option, none, some, ltb, leb, if◌then◌else◌,
}

-- shared.AcceptanceStatus
pub data Status : Type 0 where
  idle pending accepted rolled_back : Status

-- The reasons a window ends with. `unnamed` is the empty string.
pub data Reason : Type 0 where
  unnamed timeout operator panic core_stopped : Reason

pub record Acceptance : Type 0 where
  pub status : Status
  pub accept_ch : Option Bool  -- none is a nil channel; else whether its one slot is full
  pub cancel_ch : Option Bool  -- none is a nil channel; else whether it is closed
  pub cancelled : Bool
  pub accepted : Bool
  pub duration : ℕ
  pub deadline : ℕ
  pub stopping : Bool
  pub reason : Reason

unfoldable pub new_acceptance : ℕ → Acceptance
new_acceptance duration = record {
  status = idle;
  accept_ch = none;
  cancel_ch = none;
  cancelled = false;
  accepted = false;
  duration = duration;
  deadline = 0;
  stopping = false;
  reason = unnamed;
}

abbrev pub is_pending : Status → Bool
is_pending pending = true
is_pending _ = false

abbrev pub is_rolled_back : Status → Bool
is_rolled_back rolled_back = true
is_rolled_back _ = false

abbrev is_unnamed : Reason → Bool
is_unnamed unnamed = true
is_unnamed _ = false

-- Go's close: it panics on a nil channel and on one that is closed already.
close : Option Bool → Option (Option Bool)
close (some false) = some (some true)
close _ = none

-- The new window, with the length taken over if it is positive.
opened : ℕ → ℕ → Acceptance → Acceptance
opened now length a = record a {
  duration = chosen;
  accept_ch = some false;
  cancel_ch = some false;
  cancelled = false;
  accepted = false;
  status = pending;
  deadline = now + chosen;
  reason = timeout;
}
  where
    chosen : ℕ
    chosen = if ltb 0 length then length else a.duration

-- The window that opens while the daemon stops.
opened_stopping : Acceptance → Option Acceptance
unfolding close
opened_stopping a = elim (close a.cancel_ch) [
  | none ↦ none
  | some ch ↦ some (record a { cancelled = true; reason = core_stopped; cancel_ch = ch })
]

-- Start. It returns nil on every path.
unfoldable pub start : ℕ → ℕ → Acceptance → Option Acceptance
unfolding opened opened_stopping
start now length a =
    if is_pending a.status
    then some a
    else if a.stopping
    then opened_stopping (opened now length a)
    else some (opened now length a)

-- Remaining.
unfoldable pub remaining : ℕ → Acceptance → ℕ
remaining now a =
    if not (is_pending a.status)
    then 0
    else if ltb 0 (a.deadline - now)
    then a.deadline - now
    else 0

-- The three cases of the select in Wait.
pub data Wake : Type 0 where
  by_cancel by_accept by_timer : Wake

abbrev holds : Option Bool → Bool
holds (some b) = b
holds none = false

-- Whether a case of Wait's select can be taken at an instant.
unfoldable pub ready : ℕ → Acceptance → Wake → Bool
ready now a by_cancel = holds a.cancel_ch
ready now a by_accept = holds a.accept_ch
ready now a by_timer = leb a.deadline now

-- What Wait does after its select, and what it returns.
unfoldable pub wake : Acceptance → Acceptance × Bool
wake a = (record a { status = if a.accepted then accepted else rolled_back }, a.accepted)

abbrev is_nil_ch : Option Bool → Bool
is_nil_ch none = true
is_nil_ch (some b) = false

-- cancel: the guard, the reason and the close of the channel, under one lock.
unfoldable pub cancel : ℕ → Reason → Acceptance → Option (Acceptance × Bool)
unfolding close
cancel now why a =
    if not (is_pending a.status)
      || (a.cancelled || (a.accepted || (is_nil_ch a.cancel_ch || leb a.deadline now)))
    then some (a, false)
    else elim (close a.cancel_ch) [
      | none ↦ none
      | some ch ↦ some (
        record a {
          reason = if is_unnamed why then a.reason else why;
          cancelled = true;
          cancel_ch = ch;
        },
        true,
      )
    ]

-- CancelForShutdown takes the lock twice: this is the first half, `cancel _ core_stopped` is
-- the second.
unfoldable pub mark_stopping : Acceptance → Acceptance
mark_stopping a = record a { stopping = true }

-- RecordRolledBack.
unfoldable pub record_rolled_back : Reason → Acceptance → Acceptance
record_rolled_back why a = record a { status = rolled_back; reason = why }

-- A send that does not block: into a full channel, or a nil one, it is the select's default.
abbrev try_send : Option Bool → Option Bool
try_send (some b) = some true
try_send none = none

-- Accept. The send into a full channel falls through to the select's default.
unfoldable pub accept : ℕ → Acceptance → Acceptance × Bool
accept now a =
    if not (is_pending a.status) || (a.cancelled || leb a.deadline now)
    then (a, false)
    else (record a { accepted = true; accept_ch = try_send a.accept_ch }, true)

-- Reset.
unfoldable pub reset : Acceptance → Acceptance
reset a = record a { status = idle }
