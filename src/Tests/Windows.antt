-- ===== src/Tests/Windows.antt =====
-- Windows of internal/core/acceptance.go.
use easywall.Prelude.{ℕ, ◌≡◌, ◌⊎◌, refl, true, false, none, some, [], ◌∷◌, List, if◌then◌else◌}
use easywall.Acceptance.{
  Acceptance, new_acceptance, pending, timeout, cancel, accepted, rolled_back, panic, core_stopped,
  start, accept, wake, mark_stopping,
}
use easywall.Acceptance.Window.{
  Call, starts, accepts, cancels, stops, Told, run, reason_of, step, told_at_start, wake-Told,
}
use easywall.Acceptance.Clock.{IsReady, wake_when_stopping}

abbrev idle_window : Acceptance
idle_window = new_acceptance 60

abbrev calls : List (ℕ × Call)
calls = (110, starts 5) ∷ (120, cancels panic) ∷ (130, accepts) ∷ (140, stops) ∷ []

-- The window that opens at 100 for 60, as it is told.
abbrev open_window : Acceptance × Told
open_window = (
  record {
    status = pending;
    accept_ch = some false;
    cancel_ch = some false;
    cancelled = false;
    accepted = false;
    duration = 60;
    deadline = 160;
    stopping = false;
    reason = timeout;
  },
  record { confirmed = false; ended = none },
)

wake-Told_example :
    (b c : Acceptance) × (t : Told) × (start 100 0 idle_window ≡ some b)
    × (run calls (b, told_at_start false) ≡ some (c, t))
    × ((wake c).1 ≡ t.confirmed)
    × ((wake c).0.status ≡ (if t.confirmed then accepted else rolled_back))
    × ((t.confirmed ≡ false) ⊎ (t.ended ≡ none))
    × ((wake c).0.reason ≡ reason_of t.ended)
unfolding new_acceptance
wake-Told_example = wake-Told 100 0 idle_window calls refl

wake_when_stopping_example :
    (b c : Acceptance) × (t : Told) × (start 100 0 (mark_stopping idle_window) ≡ some b)
    × (run calls (b, told_at_start true) ≡ some (c, t))
    × ((at : ℕ) → IsReady at c)
    × ((wake c).1 ≡ false)
    × ((wake c).0.reason ≡ core_stopped)
unfolding mark_stopping new_acceptance
wake_when_stopping_example = wake_when_stopping 100 0 (mark_stopping idle_window) calls refl refl

-- A panic before the accept: the accept is refused, and Wait returns false.
panic_before_accept :
    run ((120, cancels panic) ∷ (130, accepts) ∷ []) open_window
    ≡ some (
      record open_window.0 { cancelled = true; cancel_ch = some true; reason = panic },
      record { confirmed = false; ended = some panic },
    )
unfolding run step cancel accept
panic_before_accept = refl
