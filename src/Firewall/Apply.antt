-- ===== src/Firewall/Apply.antt =====
-- Firewall.Apply of internal/core/firewall.go. The cycle is one straight line with early returns,
-- cut into the functions below; each takes the answers that it gets. Calls that other goroutines
-- make on the acceptance window meanwhile are `calls`: they are atomic steps on the window alone,
-- so they can all stand right behind Start. `none` is a Go panic.
use easywall.Prelude.{ℕ, Bool, true, false, not, Option, none, some, List, [], ◌∷◌, if◌then◌else◌}
use easywall.Text.{Text}
use easywall.Rules.{RulesState}
use easywall.Acceptance.{start, wake, reset}
use easywall.Acceptance.Window.{Call, told_at_start, run}
use easywall.Store.{Io, get_state, backup_current, promote_staged}
use easywall.Firewall.{
  apply_started, apply_accepted, apply_failed, apply_rolledback, apply_refused_panic, build_finding,
  Answer, Panic, is_engaged, has_error, World, log, put_store, mark_unconfirmed, clear_unconfirmed,
  write_table, applied_config, record_applied_config, panic_landed_during_write,
}
use easywall.Firewall.Rollback.{RollbackEnv, has_failed, rollback}

pub data ApplyError : Type 0 where
  apply_in_progress panic_mode failed : ApplyError

-- The answers that an apply gets, in order.
pub record ApplyEnv (C : Type 0) : Type 0 where
  pub panic : Panic  -- at the start
  pub reads : Io  -- of the first GetState
  pub backs_up : Io
  pub live : C
  pub acceptance_on : Bool
  pub reads_applied : Bool
  pub marks : Bool  -- whether the unconfirmed marker can be written
  pub promotes : Io
  pub clears : Bool  -- whether it can be removed
  pub rereads : Io
  pub now : ℕ
  pub length : ℕ
  pub calls : List (ℕ × Call)
  pub write : Answer
  pub panic_now : Panic  -- behind the write
  pub torn : Answer
  pub findings : List Text
  pub records : Bool
  pub ended : ℕ  -- the instant that setLastApply is told
  pub undo : RollbackEnv C

abbrev pub Result : Type 0 → Type 0
Result C = Option (World C × Option ApplyError)

abbrev pub log_findings : {C : Type 0} → List Text → World C → World C
log_findings [] w = w
log_findings (t ∷ ts) w = log_findings ts (log (build_finding t) w)

-- What the window stays as if the cycle ends without a Wait.
abbrev pub reset_window : {C : Type 0} → World C → World C
reset_window w = record w { window = reset w.window }

-- The end of a cycle that was confirmed.
unfoldable pub confirm : {C : Type 0} → ApplyEnv C → World C → World C
confirm e w =
    log apply_accepted (record (clear_unconfirmed e.clears w) { last_apply = some e.ended })

-- From the end of Wait on.
unfoldable pub conclude : {C : Type 0} → ApplyEnv C → RulesState → Option C → World C → World C
unfolding wake
conclude e previous before w =
    let (c, accepted) = wake w.window in
    if accepted
    then confirm e (record w { window = c })
    else rollback e.undo previous before (log apply_rolledback (record w { window = c }))

-- What follows a write that has reported no error and that panic mode has not met.
unfoldable pub settle : {C : Type 0} → ApplyEnv C → RulesState → Option C → World C → World C
settle e previous before w =
    let recorded = record_applied_config e.records e.live (log_findings e.findings w) in
    if not e.acceptance_on
    then log apply_accepted (record (log apply_started recorded) { last_apply = some e.ended })
    else conclude e previous before recorded

-- The write to the kernel, and what follows it.
unfoldable pub write :
    {C : Type 0}
    → ApplyEnv C
    → RulesState
    → Option C
    → RulesState
    → World C
    → World C × Option ApplyError
unfolding panic_landed_during_write
write e previous before updated w =
    let written = write_table e.write updated.current e.live w in
    if has_error e.write
    then (
      rollback e.undo previous before (
          panic_landed_during_write (is_engaged e.panic_now) apply_refused_panic e.torn
            (log apply_failed (reset_window written))),
      some failed,
    )
    else if is_engaged e.panic_now
    then (
      rollback e.undo previous before
          (reset_window (panic_landed_during_write true apply_refused_panic e.torn written)),
      some panic_mode,
    )
    else (settle e previous before written, none)

-- The window opens, and the other goroutines' calls arrive.
unfoldable pub open_window :
    {C : Type 0} → ApplyEnv C → RulesState → Option C → RulesState → World C → Result C
open_window e previous before updated w =
    if not e.acceptance_on
    then some (write e previous before updated w)
    else elim (start e.now e.length w.window) [
      | none ↦ none
      | some b ↦ elim (run e.calls (b, told_at_start w.window.stopping)) [
        | none ↦ none
        | some (c, t) ↦
            some (write e previous before updated (record (log apply_started w) { window = c }))
      ]
    ]

-- PromoteStaged, and the second GetState.
unfoldable pub promote : {C : Type 0} → ApplyEnv C → RulesState → Option C → World C → Result C
unfolding promote_staged get_state
promote e previous before w =
    let (s, err) = promote_staged e.promotes w.store in
    if has_failed err
    then some (log apply_failed (clear_unconfirmed e.clears w), some failed)
    else elim (get_state e.rereads s) [
      | none ↦ some (log apply_failed (put_store s w), some failed)
      | some updated ↦ open_window e previous before updated (put_store s w)
    ]

-- BackupCurrent, and the marker.
unfoldable pub back_up : {C : Type 0} → ApplyEnv C → RulesState → World C → Result C
unfolding backup_current
back_up e previous w =
    let (s, err) = backup_current e.backs_up w.store in
    let before = applied_config e.reads_applied w in
    if has_failed err
    then some (log apply_failed w, some failed)
    else if not e.acceptance_on
    then promote e previous before (put_store s w)
    else if e.marks
    then promote e previous before (mark_unconfirmed before (put_store s w))
    else some (log apply_failed (put_store s w), some failed)

-- apply
unfoldable pub apply : {C : Type 0} → ApplyEnv C → World C → Result C
unfolding get_state
apply e w =
    if is_engaged e.panic
    then some (log apply_refused_panic w, some panic_mode)
    else elim (get_state e.reads w.store) [
      | none ↦ some (log apply_failed w, some failed)
      | some previous ↦ back_up e previous w
    ]

-- Apply: one cycle at a time.
unfoldable pub apply_once : {C : Type 0} → ApplyEnv C → World C → Result C
apply_once e w =
    if w.applying
    then some (w, some apply_in_progress)
    else elim (apply e (record w { applying = true })) [
      | none ↦ none
      | some (w', err) ↦ some (record w' { applying = false }, err)
    ]
