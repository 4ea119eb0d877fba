-- ===== src/Acceptance/Window.antt =====
-- One acceptance window, from Start to the end of Wait, under any interleaving of the calls that
-- other goroutines make meanwhile: what Wait returns against what those callers were told.
use easywall.Prelude.{
  ℕ, ◌≡◌, refl, Bool, true, false, ◌⊎◌, inl, inr, Option, none, some, List, [], ◌∷◌, arith,
  if◌then◌else◌, ltb, Option-cases, ◌∙◌, ◌+◌,
}
use easywall.Acceptance.{
  Acceptance, pending, accepted, rolled_back, Reason, unnamed, timeout, core_stopped, start, cancel,
  mark_stopping, accept, wake, is_pending,
}

-- A call that may arrive while a window is open, at the instant it takes the lock.
pub data Call : Type 0 where
  starts : ℕ → Call
  accepts : Call
  cancels : Reason → Call
  stops : Call

-- What the callers were told: that the window was accepted, and the reason of the cancel that
-- was reported to have ended it.
pub record Told : Type 0 where
  pub confirmed : Bool
  pub ended : Option Reason

unfoldable pub step : ℕ → Call → Acceptance × Told → Option (Acceptance × Told)
step now (starts length) (a, t) = elim (start now length a) [ none ↦ none | some b ↦ some (b, t) ]
step now accepts (a, t) =
    let (b, answer) = accept now a in some (b, if answer then record t { confirmed = true } else t)
step now (cancels why) (a, t) = elim (cancel now why a) [
  | none ↦ none
  | some (b, answer) ↦ some (b, if answer then record t { ended = some why } else t)
]
step now stops (a, t) = some (mark_stopping a, t)

unfoldable pub run : List (ℕ × Call) → Acceptance × Told → Option (Acceptance × Told)
run [] s = some s
run ((now, c) ∷ cs) s = elim (step now c s) [ none ↦ none | some s' ↦ run cs s' ]

-- The reason Wait's caller reads when the window ended unconfirmed.
abbrev pub reason_of : Option Reason → Reason
reason_of none = timeout
reason_of (some unnamed) = timeout
reason_of (some why) = why

abbrev pub is_some : Option Reason → Bool
is_some none = false
is_some (some why) = true

-- An open window and what was told about it belong together.
pub record Agrees (s : Acceptance × Told) : Type 0 where
  pub open_ : s.0.status ≡ pending
  pub accept_ch : s.0.accept_ch ≡ some s.0.accepted
  pub cancel_ch : s.0.cancel_ch ≡ some s.0.cancelled
  pub told_accepted : s.0.accepted ≡ s.1.confirmed
  pub told_cancelled : s.0.cancelled ≡ is_some s.1.ended
  pub one_end : (s.0.accepted ≡ false) ⊎ (s.0.cancelled ≡ false)
  pub why : s.0.reason ≡ reason_of s.1.ended

abbrev pub Steps : Acceptance × Told → Option (Acceptance × Told) → Type 0
Steps s none = ⊥
Steps s (some s') = Agrees s' × (s'.0.deadline ≡ s.0.deadline)

step-Agrees : (now : ℕ) (c : Call) (s : Acceptance × Told) → Agrees s → Steps s (step now c s)
unfolding step start cancel accept mark_stopping
step-Agrees now (starts length) s h = ground arith
step-Agrees now accepts s h = ground arith
step-Agrees now (cancels why) s h = ground arith
step-Agrees now stops s h = ground arith

abbrev pub Runs : Acceptance × Told → Option (Acceptance × Told) → Type 0
Runs s r = (s' : Acceptance × Told) × (r ≡ some s') × Agrees s' × (s'.0.deadline ≡ s.0.deadline)

pub step_total : (now : ℕ) (c : Call) (s : Acceptance × Told) → Agrees s → Runs s (step now c s)
step_total now c s h = elim (Option-cases (step now c s)) [
  | inl e ↦ absurd (rw e at (step-Agrees now c s h))
  | inr (s', e) ↦ let k = rw e at (step-Agrees now c s h) in (s', e, k.0, k.1)
]

pub run_total : (cs : List (ℕ × Call)) (s : Acceptance × Told) → Agrees s → Runs s (run cs s)
unfolding run
run_total [] s h = (s, refl, h, refl)
run_total ((now, c) ∷ cs) s h =
    let (s', e, h', d) = step_total now c s h in
    let (s'', e', h'', d') = run_total cs s' h' in (s'', rw (e, run) e', h'', d' ∙ d)

-- What callers know of a window when it opens: one that opens while the daemon stops has ended.
abbrev pub told_at_start : Bool → Told
told_at_start stopping = record {
  confirmed = false;
  ended = if stopping then some core_stopped else none;
}

-- The length of the window that Start opens.
abbrev pub length_of : ℕ → Acceptance → ℕ
length_of length a = if ltb 0 length then length else a.duration

abbrev Opens : ℕ → Told → Option Acceptance → Type 0
Opens deadline t none = ⊥
Opens deadline t (some b) = Agrees (b, t) × (b.deadline ≡ deadline)

start-Opens :
    (now length : ℕ) (a : Acceptance)
    → is_pending a.status ≡ false
    → Opens (now + length_of length a) (told_at_start a.stopping) (start now length a)
unfolding start
start-Opens now length a h = ground arith

pub start_total :
    (now length : ℕ) (a : Acceptance)
    → is_pending a.status ≡ false
    → (b : Acceptance) × (start now length a ≡ some b)
      × Agrees (b, told_at_start a.stopping)
      × (b.deadline ≡ now + length_of length a)
start_total now length a h = elim (Option-cases (start now length a)) [
  | inl e ↦ absurd (rw e at (start-Opens now length a h))
  | inr (b, e) ↦ let k = rw e at (start-Opens now length a h) in (b, e, k.0, k.1)
]

-- A window opened by Start on a controller with none open, and any calls of other goroutines
-- afterwards: no call panics, Wait returns true exactly if some Accept was told true, no Accept
-- and Cancel are both told true, and a window that ends unconfirmed carries the reason of the
-- cancel that was told true, or a timeout if there was none.
pub wake-Told :
    (now length : ℕ) (a : Acceptance) (cs : List (ℕ × Call))
    → is_pending a.status ≡ false
    → (b c : Acceptance) × (t : Told) × (start now length a ≡ some b)
      × (run cs (b, told_at_start a.stopping) ≡ some (c, t))
      × ((wake c).1 ≡ t.confirmed)
      × ((wake c).0.status ≡ (if t.confirmed then accepted else rolled_back))
      × ((t.confirmed ≡ false) ⊎ (t.ended ≡ none))
      × ((wake c).0.reason ≡ reason_of t.ended)
unfolding wake
wake-Told now length a cs h =
    let (b, e, v, d) = start_total now length a h in
    let ((c, t), e', v', d') = run_total cs (b, told_at_start a.stopping) v in
    (b, c, t, e, e', v'.told_accepted, ground arith, ground arith, v'.why)
