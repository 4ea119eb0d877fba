-- ===== src/Firewall/Cycle.antt =====
-- An apply at which nothing fails: what is in force at its end.
use easywall.Prelude.{
  ◌≡◌, refl, true, false, ◌⊎◌, inl, inr, Option, none, some, List, [], ◌∷◌, arith, Bool-cases,
}
use easywall.Text.{Text}
use easywall.Rules.{RulesState, is_empty}
use easywall.Store.{get_state, backup_current, promote_staged}
use easywall.Acceptance.{Acceptance, start, wake}
use easywall.Acceptance.Window.{Told, told_at_start, run}
use easywall.Firewall.{
  done, disengaged, apply_started, apply_rolledback, holds, World, log, put_store, mark_unconfirmed,
  write_table, record_applied_config, ever_configured, build_finding,
}
use easywall.Firewall.Apply.{
  ApplyEnv, log_findings, confirm, conclude, settle, write, open_window, promote, back_up, apply,
}
use easywall.Firewall.Enforce.{rollback-table}
use easywall.Firewall.Safe.{named_config}

-- Nothing fails in the apply, and panic mode is off.
pub record Succeeds {C : Type 0} (e : ApplyEnv C) : Type 0 where
  pub acceptance_on : e.acceptance_on ≡ true
  pub panic : e.panic ≡ disengaged
  pub reads : e.reads.reads ≡ true
  pub backs_up : (e.backs_up.reads ≡ true) × (e.backs_up.writes ≡ true)
  pub reads_applied : e.reads_applied ≡ true
  pub marks : e.marks ≡ true
  pub promotes : (e.promotes.reads ≡ true) × (e.promotes.writes ≡ true)
  pub clears : e.clears ≡ true
  pub rereads : e.rereads.reads ≡ true
  pub write : e.write ≡ done
  pub panic_now : e.panic_now ≡ disengaged
  pub undo_reverts : (e.undo.reverts.reads ≡ true) × (e.undo.reverts.writes ≡ true)
  pub undo_clears : e.undo.clears ≡ true
  pub undo_panic : e.undo.panic ≡ disengaged
  pub undo_panic_now : e.undo.panic_now ≡ disengaged
  pub undo_write : e.undo.write ≡ done
  pub undo_records : e.undo.records ≡ true

-- The tried set is in force, in the kernel and in the file, and confirmed.
abbrev pub Confirmed : {C : Type 0} → ApplyEnv C → RulesState → World C → Type 0
Confirmed e f v =
    (v.table ≡ holds f.staged e.live)
    × (v.store.file ≡ record f { current = f.staged; backup = f.current })
    × (v.marker ≡ none)
    × (v.last_apply ≡ some e.ended)

-- The set from before is in force again, with its configuration; the edits stay staged.
abbrev pub Undone : {C : Type 0} → ApplyEnv C → RulesState → Option C → World C → Type 0
Undone e f before v =
    (v.table ≡ holds f.current (named_config true before e.undo.live))
    × (v.applied ≡ some (named_config true before e.undo.live))
    × (v.store.file ≡ record f { backup = f.current })
    × (v.marker ≡ none)

-- What a window that was open for the tried set finds.
abbrev Tried : {C : Type 0} → ApplyEnv C → RulesState → World C → Type 0
Tried e f w =
    (w.table ≡ holds f.staged e.live)
    × (w.store.file ≡ record f { current = f.staged; backup = f.current })

conclude-Confirmed :
    {C : Type 0}
    → (e : ApplyEnv C) (p : RulesState) (before : Option C) (w : World C) → Succeeds e
    → w.window.accepted ≡ true
    → Tried e p w
    → Confirmed e p (conclude e p before w)
unfolding conclude confirm wake
conclude-Confirmed e p before w k a t = ground arith

conclude-Undone :
    {C : Type 0}
    → (e : ApplyEnv C) (p : RulesState) (before : Option C) (w : World C) → Succeeds e
    → is_empty p.current ≡ false
    → w.window.accepted ≡ false
    → Tried e p w
    → Undone e p before (conclude e p before w)
unfolding conclude wake ever_configured
conclude-Undone {C = C} e p before w k full a t =
    let v : World C = log apply_rolledback (record w { window = (wake w.window).0 }) in
    let (tab, app, file, mark, _) =
      rollback-table e.undo p before v k.undo_reverts.0 k.undo_reverts.1 k.undo_clears
        (ground (arith, k.undo_panic)) (ground (arith, k.undo_panic_now)) k.undo_write
        k.undo_records (ground (arith)) in
    ground (arith, tab, app, file, mark)

log_findings-table :
    {C : Type 0} → (ts : List Text) (w : World C) → (log_findings ts w).table ≡ w.table
log_findings-table [] w = refl
log_findings-table (t ∷ ts) w = log_findings-table ts (log (build_finding t) w)

log_findings-store :
    {C : Type 0} → (ts : List Text) (w : World C) → (log_findings ts w).store ≡ w.store
log_findings-store [] w = refl
log_findings-store (t ∷ ts) w = log_findings-store ts (log (build_finding t) w)

log_findings-window :
    {C : Type 0} → (ts : List Text) (w : World C) → (log_findings ts w).window ≡ w.window
log_findings-window [] w = refl
log_findings-window (t ∷ ts) w = log_findings-window ts (log (build_finding t) w)

-- The world that the write finds.
abbrev opened : {C : Type 0} → World C → Acceptance → World C
opened {C = C} w c =
    let backed = record w.store { file = record w.store.file { backup = w.store.file.current } } in
    let marked : World C = mark_unconfirmed w.applied (put_store backed w) in
    let promoted = record backed { file = record backed.file { current = backed.file.staged } } in
    record (log apply_started (put_store promoted marked)) { window = c }

-- The world that the end of Wait finds.
abbrev waited : {C : Type 0} → ApplyEnv C → World C → Acceptance → World C
waited e w c =
    record_applied_config e.records e.live
      (log_findings e.findings (write_table done w.store.file.staged e.live (opened w c)))

write-waited :
    {C : Type 0}
    → (e : ApplyEnv C) (p u : RulesState) (w : World C) (c : Acceptance) → Succeeds e
    → u.current ≡ w.store.file.staged
    → write e p w.applied u (opened w c) ≡ (conclude e p w.applied (waited e w c), none)
unfolding write settle
write-waited e p u w c k h = ground arith

apply-waited :
    {C : Type 0}
    → (e : ApplyEnv C) (w : World C) (b c : Acceptance) (t : Told) → Succeeds e
    → start e.now e.length w.window ≡ some b
    → run e.calls (b, told_at_start w.window.stopping) ≡ some (c, t)
    → apply e w ≡ some (conclude e w.store.file w.applied (waited e w c), none)
unfolding open_window promote back_up apply get_state backup_current promote_staged
apply-waited e w b c t k o r =
    let u : RulesState = record {
      current = w.store.file.staged;
      staged = w.store.file.staged;
      backup = w.store.file.current;
    } in
    ground (arith, write-waited e w.store.file u w c k refl)

-- An apply with the acceptance window switched on, on a host with enforced rules, at which nothing
-- fails and panic mode stays off, and whose window Start and the other goroutines' calls lead to
-- the state c: it returns; if somebody's Accept took effect in c, the
-- kernel and the file hold the set that was staged, with the configuration read by the apply; if
-- not, they hold the set from before, the kernel with the configuration that was in force with
-- it, and the edits are still staged. Either way no error is returned and no marker is left.
pub apply-table :
    {C : Type 0}
    → (e : ApplyEnv C) (w : World C) (b c : Acceptance) (t : Told) → Succeeds e
    → is_empty w.store.file.current ≡ false
    → start e.now e.length w.window ≡ some b
    → run e.calls (b, told_at_start w.window.stopping) ≡ some (c, t)
    → (v : World C) × (apply e w ≡ some (v, none))
      × (((c.accepted ≡ true) × Confirmed e w.store.file v)
          ⊎ ((c.accepted ≡ false) × Undone e w.store.file w.applied v))
apply-table {C = C} e w b c t k full o r =
    let x : World C = waited e w c in
    let y : World C = write_table done w.store.file.staged e.live (opened w c) in
    let tab = log_findings-table e.findings y in
    let sto = log_findings-store e.findings y in
    let win = log_findings-window e.findings y in
    let tried : Tried e w.store.file x = ground (arith, tab, sto) in
    let q = apply-waited e w b c t k o r in
    elim (Bool-cases c.accepted) [
      | inl a ↦ (
        conclude e w.store.file w.applied x,
        q,
        inl (a, conclude-Confirmed e w.store.file w.applied x k (ground (arith, win)) tried),
      )
      | inr a ↦ (
        conclude e w.store.file w.applied x,
        q,
        inr (a, conclude-Undone e w.store.file w.applied x k full (ground (arith, win)) tried),
      )
    ]
