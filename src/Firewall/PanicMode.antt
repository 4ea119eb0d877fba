-- ===== src/Firewall/PanicMode.antt =====
-- Panic mode that is engaged while an apply writes.
use easywall.Prelude.{
  ◌≡◌, refl, true, false, ◌⊎◌, inl, inr, Bool, Option, none, some, arith, ◌∙◌, if-elim, Bool-cases,
}
use easywall.Rules.{RulesState}
use easywall.Store.{get_state, backup_current, promote_staged}
use easywall.Acceptance.{is_pending}
use easywall.Acceptance.Window.{start_total, run_total, told_at_start}
use easywall.Firewall.{
  done, engaged, Action, apply_failed, apply_refused_panic, apply_started, Table, down, World,
  is_engaged, has_error, write_table, panic_landed_during_write, log, Answer, put_store,
  clear_unconfirmed, mark_unconfirmed, applied_config,
}
use easywall.Firewall.Rollback.{RollbackEnv, rollback, revert_file, undo_table}
use easywall.Firewall.Apply.{
  ApplyEnv, ApplyError, failed, panic_mode, Result, reset_window, settle, write, open_window,
  promote, back_up, apply,
}

rollback-engaged :
    {C : Type 0}
    → (e : RollbackEnv C) (p : RulesState) (before : Option C) (w : World C) → e.panic ≡ engaged
    → (rollback e p before w).table ≡ w.table
unfolding rollback revert_file undo_table
rollback-engaged e p before w h = ground arith

landed-down :
    {C : Type 0}
    → (b : Bool) (a : Action) (t : Answer) (w : World C) → b ≡ true
    → t ≡ done
    → (panic_landed_during_write b a t w).table ≡ down
unfolding panic_landed_during_write
landed-down b a t w h d = ground arith

-- Panic mode was engaged before the second look at its marker, and can take the table down.
pub record Lands {C : Type 0} (e : ApplyEnv C) : Type 0 where
  pub panic_now : is_engaged e.panic_now ≡ true
  pub torn : e.torn ≡ done
  pub undo : e.undo.panic ≡ engaged

write-down :
    {C : Type 0}
    → (e : ApplyEnv C) (p : RulesState) (before : Option C) (u : RulesState) (w : World C) → Lands e
    → (write e p before u w).0.table ≡ down
unfolding write
write-down {C = C} e p before u w k =
    let x = write_table e.write u.current e.live w in
    let y : World C = log apply_failed (reset_window x) in
    let bad : World C =
      panic_landed_during_write (is_engaged e.panic_now) apply_refused_panic e.torn y in
    let met : World C = panic_landed_during_write true apply_refused_panic e.torn x in
    let P : World C × Option ApplyError → Type 0 = λ r. r.0.table ≡ down in
    if-elim P (has_error e.write) (rollback e.undo p before bad, some failed) _
      (λ h.
        rollback-engaged e.undo p before bad k.undo
        ∙ landed-down (is_engaged e.panic_now) apply_refused_panic e.torn y k.panic_now k.torn)
      (λ h.
        if-elim P (is_engaged e.panic_now)
          (rollback e.undo p before (reset_window met), some panic_mode) (settle e p before x, none)
          (λ h.
            rollback-engaged e.undo p before (reset_window met) k.undo
            ∙ landed-down true apply_refused_panic e.torn x refl k.torn)
          (λ h. absurd (ground (arith, k.panic_now))))

-- The table was not touched, or it is down.
abbrev pub Calm : {C : Type 0} → Table C → World C × Option ApplyError → Type 0
Calm t x = (x.0.table ≡ t) ⊎ (x.0.table ≡ down)

abbrev Answers : {C : Type 0} → Table C → Result C → Type 0
Answers {C = C} t o = (x : World C × Option ApplyError) × (o ≡ some x) × Calm t x

open_window-Calm :
    {C : Type 0}
    → (e : ApplyEnv C) (p : RulesState) (before : Option C) (u : RulesState) (w : World C) → Lands e
    → is_pending w.window.status ≡ false
    → Answers w.table (open_window e p before u w)
unfolding open_window
open_window-Calm {C = C} e p before u w k idle = elim (Bool-cases e.acceptance_on) [
  | inr off ↦ (write e p before u w, ground arith, inr (write-down e p before u w k))
  | inl on ↦
      let (b, opens, agrees, d) = start_total e.now e.length w.window idle in
      let ((v, t), runs, _, _) = run_total e.calls (b, told_at_start w.window.stopping) agrees in
      let x : World C = record (log apply_started w) { window = v } in
      (write e p before u x, ground (arith, opens, runs), inr (write-down e p before u x k))
]

promote-Calm :
    {C : Type 0}
    → (e : ApplyEnv C) (p : RulesState) (before : Option C) (w : World C) → Lands e
    → is_pending w.window.status ≡ false
    → Answers w.table (promote e p before w)
unfolding promote promote_staged get_state
promote-Calm {C = C} e p before w k idle =
    let promoted = record w.store {
      file = record w.store.file { current = w.store.file.staged };
    } in
    let x : World C = put_store promoted w in
    let cleared : World C = log apply_failed (clear_unconfirmed e.clears w) in
    let kept : cleared.table ≡ w.table = ground arith in
    elim (Bool-cases e.promotes.reads) [
      | inr a ↦ ((cleared, some failed), ground arith, inl kept)
      | inl a ↦ elim (Bool-cases e.promotes.writes) [
        | inr b ↦ ((cleared, some failed), ground arith, inl kept)
        | inl b ↦ elim (Bool-cases e.rereads.reads) [
          | inr d ↦ ((log apply_failed x, some failed), ground arith, inl refl)
          | inl d ↦
              let (y, q, h) = open_window-Calm e p before promoted.file x k idle in
              (y, ground (arith, q), h)
        ]
      ]
    ]

back_up-Calm :
    {C : Type 0}
    → (e : ApplyEnv C) (p : RulesState) (w : World C) → Lands e
    → is_pending w.window.status ≡ false
    → Answers w.table (back_up e p w)
unfolding back_up backup_current
back_up-Calm {C = C} e p w k idle =
    let before = applied_config e.reads_applied w in
    let backed = record w.store { file = record w.store.file { backup = w.store.file.current } } in
    let x : World C = put_store backed w in
    let untouched : World C = log apply_failed w in
    elim (Bool-cases e.backs_up.reads) [
      | inr a ↦ ((untouched, some failed), ground arith, inl refl)
      | inl a ↦ elim (Bool-cases e.backs_up.writes) [
        | inr b ↦ ((untouched, some failed), ground arith, inl refl)
        | inl b ↦ elim (Bool-cases e.acceptance_on) [
          | inr off ↦ let (y, q, h) = promote-Calm e p before x k idle in (y, ground (arith, q), h)
          | inl on ↦ elim (Bool-cases e.marks) [
            | inr d ↦ ((log apply_failed x, some failed), ground arith, inl refl)
            | inl d ↦
                let (y, q, h) = promote-Calm e p before (mark_unconfirmed before x) k idle in
                (y, ground (arith, q), h)
          ]
        ]
      ]
    ]

-- An apply that starts with no window open, with panic mode engaged, or its marker unreadable, at
-- the look behind the write to the kernel, a teardown that succeeds, and the marker there at the
-- rollback's look: whatever else happens, it returns, and the kernel's table is as it was before
-- the apply or it is down; no rules that the apply or its rollback wrote are left in it.
pub apply-Calm :
    {C : Type 0}
    → (e : ApplyEnv C) (w : World C) → Lands e
    → is_pending w.window.status ≡ false
    → (x : World C × Option ApplyError) × (apply e w ≡ some x) × Calm w.table x
unfolding apply get_state
apply-Calm {C = C} e w k idle = elim (Bool-cases (is_engaged e.panic)) [
  | inl a ↦ ((log apply_refused_panic w, some panic_mode), ground arith, inl refl)
  | inr a ↦ elim (Bool-cases e.reads.reads) [
    | inr b ↦ ((log apply_failed w, some failed), ground arith, inl refl)
    | inl b ↦ let (y, q, h) = back_up-Calm e w.store.file w k idle in (y, ground (arith, q), h)
  ]
]
