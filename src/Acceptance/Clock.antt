-- ===== src/Acceptance/Clock.antt =====
-- When a window ends: the timer of Wait against the number that Remaining reports, and the
-- shutdown, which must not leave a goroutine blocked in Wait.
use easywall.Prelude.{
  ℕ, ◌-◌, ◌≤◌, ◌<◌, ◌≡◌, ◌↔◌, true, false, ◌⊎◌, inl, inr, Option, none, some, List, [], ◌∷◌, arith,
  subst,
}
use easywall.Acceptance.{
  Acceptance, core_stopped, Wake, by_cancel, by_accept, by_timer, start, cancel, mark_stopping,
  accept, wake, ready, remaining, is_pending,
}
use easywall.Acceptance.Window.{
  Call, starts, accepts, cancels, stops, Told, step, run, Agrees, told_at_start, step_total,
  run_total, start_total,
}

-- In an open window the number on the screen decides: Accept is told true exactly while time
-- remains and nobody has cancelled, and the timer of Wait fires exactly when none remains.
pub accept-remaining :
    (now : ℕ) (a : Acceptance) (t : Told)
    → Agrees (a, t)
    → (((accept now a).1 ≡ true) ↔ ((0 < remaining now a) × (a.cancelled ≡ false)))
      × ((ready now a by_timer ≡ false) ↔ (0 < remaining now a))
      × (remaining now a ≡ a.deadline - now)
unfolding accept remaining ready
accept-remaining now a t h = ground arith

-- Some case of Wait's select can be taken.
abbrev pub IsReady : ℕ → Acceptance → Type 0
IsReady now a = (w : Wake) × (ready now a w ≡ true)

-- The window has ended, by what one of the calls did or by the time.
abbrev HasEnded : ℕ → Acceptance → Type 0
HasEnded now a = (a.cancelled ≡ true) ⊎ (a.accepted ≡ true) ⊎ (a.deadline ≤ now)

abbrev Keeps : ℕ → Option (Acceptance × Told) → Type 0
Keeps now none = Unit {0}
Keeps now (some s) = HasEnded now s.0

step-HasEnded :
    (now at : ℕ) (c : Call) (s : Acceptance × Told)
    → Agrees s
    → HasEnded now s.0
    → Keeps now (step at c s)
unfolding step start cancel accept mark_stopping
step-HasEnded now at (starts length) s h e = ground arith
step-HasEnded now at accepts s h e = ground arith
step-HasEnded now at (cancels why) s h e = ground arith
step-HasEnded now at stops s h e = ground arith

run-HasEnded :
    (now : ℕ) (cs : List (ℕ × Call)) (s s' : Acceptance × Told)
    → Agrees s
    → HasEnded now s.0
    → run cs s ≡ some s'
    → HasEnded now s'.0
unfolding run
run-HasEnded now [] s s' h e r = ground arith
run-HasEnded now ((at, c) ∷ cs) s s' h e r =
    let (s1, e1, h1, d1) = step_total at c s h in
    run-HasEnded now cs s1 s' h1 (rw e1 at (step-HasEnded now at c s h e)) (rw (e1, run) at r)

IsReady-HasEnded : (now : ℕ) (s : Acceptance × Told) → Agrees s → HasEnded now s.0 → IsReady now s.0
unfolding ready
IsReady-HasEnded now s h (inl c) = (by_cancel, ground arith)
IsReady-HasEnded now s h (inr (inl c)) = (by_accept, ground arith)
IsReady-HasEnded now s h (inr (inr c)) = (by_timer, ground arith)

cancel-HasEnded :
    (now : ℕ) (s : Acceptance × Told) → Agrees s → Keeps now (step now (cancels core_stopped) s)
unfolding step cancel
cancel-HasEnded now s h = ground arith

-- Once the second half of CancelForShutdown has run inside an open window, Wait does not block:
-- from that instant on, whatever the other goroutines do, a case of its select can be taken.
pub shutdown_unblocks :
    (now : ℕ) (s : Acceptance × Told) (cs : List (ℕ × Call))
    → Agrees s
    → (s' : Acceptance × Told) × (run ((now, cancels core_stopped) ∷ cs) s ≡ some s')
      × IsReady now s'.0
unfolding run
shutdown_unblocks now s cs h =
    let (s1, e1, h1, d1) = step_total now (cancels core_stopped) s h in
    let (s2, e2, h2, d2) = run_total cs s1 h1 in
    let ended = run-HasEnded now cs s1 s2 h1 (rw e1 at (cancel-HasEnded now s h)) e2 in
    (s2, rw (e1, run) e2, IsReady-HasEnded now s2 h2 ended)

-- The window of a stopping daemon: it has been cancelled, and says why.
abbrev Stopped : Acceptance × Told → Type 0
Stopped s =
    (s.0.cancelled ≡ true)
    × (s.0.accepted ≡ false)
    × (s.0.reason ≡ core_stopped)
    × (s.0.cancel_ch ≡ some true)

abbrev StaysStopped : Option (Acceptance × Told) → Type 0
StaysStopped none = Unit {0}
StaysStopped (some s) = Stopped s

step-Stopped :
    (at : ℕ) (c : Call) (s : Acceptance × Told) → Agrees s → Stopped s → StaysStopped (step at c s)
unfolding step start cancel accept mark_stopping
step-Stopped at (starts length) s h e = ground arith
step-Stopped at accepts s h e = ground arith
step-Stopped at (cancels why) s h e = ground arith
step-Stopped at stops s h e = ground arith

run-Stopped :
    (cs : List (ℕ × Call)) (s s' : Acceptance × Told)
    → Agrees s
    → Stopped s
    → run cs s ≡ some s'
    → Stopped s'
unfolding run
run-Stopped [] s s' h e r = ground arith
run-Stopped ((at, c) ∷ cs) s s' h e r =
    let (s1, e1, h1, d1) = step_total at c s h in
    run-Stopped cs s1 s' h1 (rw e1 at (step-Stopped at c s h e)) (rw (e1, run) at r)

start-Stopped :
    (now length : ℕ) (a b : Acceptance)
    → is_pending a.status ≡ false
    → a.stopping ≡ true
    → start now length a ≡ some b
    → (b.cancelled ≡ true)
      × (b.accepted ≡ false)
      × (b.reason ≡ core_stopped)
      × (b.cancel_ch ≡ some true)
unfolding start
start-Stopped now length a b h st e = ground arith

-- A window that opens after CancelForShutdown has marked the controller ends at once and
-- unconfirmed: whatever calls arrive, Wait can be woken at every instant, returns false, and the
-- reason it leaves is that the core stopped.
pub wake_when_stopping :
    (now length : ℕ) (a : Acceptance) (cs : List (ℕ × Call))
    → is_pending a.status ≡ false
    → a.stopping ≡ true
    → (b c : Acceptance) × (t : Told) × (start now length a ≡ some b)
      × (run cs (b, told_at_start true) ≡ some (c, t))
      × ((at : ℕ) → IsReady at c)
      × ((wake c).1 ≡ false)
      × ((wake c).0.reason ≡ core_stopped)
unfolding wake ready
wake_when_stopping now length a cs h st =
    let (b, e, v, d) = start_total now length a h in
    let v' = subst (λ x. Agrees (b, told_at_start x)) st v in
    let ((c, t), e', _, _) = run_total cs (b, told_at_start true) v' in
    let k =
      run-Stopped cs (b, told_at_start true) (c, t) v' (start-Stopped now length a b h st e) e' in
    (b, c, t, e, e', (λ at. (by_cancel, ground arith)), k.1, k.2)
