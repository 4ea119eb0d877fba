-- ===== src/Firewall/Enforce.antt =====
-- What is in the kernel at the end of a rollback, of a restore and of a restart behind a crash.
use easywall.Prelude.{
  ℕ, ◌≡◌, true, false, ◌⊎◌, inl, inr, Option, none, some, List, [], ◌∷◌, All, arith, if◌then◌else◌,
  ◌∙◌, ap, sym, subst, ◌↔◌, ◌&&◌,
}
use easywall.Rules.{RulesState, is_empty}
use easywall.Acceptance.{is_pending, accepted}
use easywall.Firewall.{
  done, engaged, disengaged, rollback_skipped, rollback_failed, holds, World, Disk, on_disk,
  is_engaged, is_known_engaged, ever_configured, panic_landed_during_write,
}
use easywall.Firewall.Rollback.{
  RollbackEnv, rollback, revert_file, undo_table, finish_rollback, write_previous,
}
use easywall.Firewall.Apply.{ApplyEnv, ApplyError, apply}
use easywall.Firewall.Restore.{
  RestoreEnv, revert_unconfirmed, enforce, restore_reverted, restore_current,
}
use easywall.Firewall.Safe.{recovered, named_config}
use easywall.Firewall.Crash.{Ends, apply-Ends}

-- A rollback to a configured host's rules at which nothing fails and during which nobody engages
-- panic mode: the kernel holds the previous rules with the configuration that was in force with
-- them, or the live one if that was not recorded; that configuration is recorded again; the
-- enforced set in the file is the backup and the staged set is kept; the marker is gone; and the
-- audit log has no further line.
pub rollback-table :
    {C : Type 0}
    → (e : RollbackEnv C) (p : RulesState) (before : Option C) (w : World C)
    → e.reverts.reads ≡ true
    → e.reverts.writes ≡ true
    → e.clears ≡ true
    → is_known_engaged e.panic ≡ false
    → is_known_engaged e.panic_now ≡ false
    → e.write ≡ done
    → e.records ≡ true
    → ever_configured p w ≡ true
    → let v = rollback e p before w in
      (v.table ≡ holds p.current (named_config true before e.live))
      × (v.applied ≡ some (named_config true before e.live))
      × (v.store.file ≡ record w.store.file { current = w.store.file.backup })
      × (v.marker ≡ none)
      × (v.audit ≡ w.audit)
unfolding rollback revert_file undo_table finish_rollback write_previous ever_configured
    panic_landed_during_write
rollback-table e p before w a b c d f g h i = ground arith

-- A rollback that finds panic mode engaged leaves the kernel and the record of its configuration
-- alone and says so in the audit log, whether or not the file could be reverted; the file is
-- reverted exactly if it could be read and written.
pub rollback_in_panic :
    {C : Type 0}
    → (e : RollbackEnv C) (p : RulesState) (before : Option C) (w : World C) → e.panic ≡ engaged
    → let v = rollback e p before w in
      (v.table ≡ w.table)
      × (v.applied ≡ w.applied)
      × ((v.audit ≡ rollback_skipped ∷ w.audit)
          ⊎ (v.audit ≡ rollback_failed ∷ rollback_skipped ∷ w.audit))
      × ((v.audit ≡ rollback_skipped ∷ w.audit)
          ↔ ((e.reverts.reads ≡ true) × (e.reverts.writes ≡ true)))
      × (v.store.file ≡ (
          if e.reverts.reads && e.reverts.writes
          then record w.store.file { current = w.store.file.backup }
          else w.store.file))
unfolding rollback revert_file undo_table
rollback_in_panic e p before w a = ground arith

-- Nothing fails in the restore, and panic mode is off.
pub record Succeeds {C : Type 0} (e : RestoreEnv C) : Type 0 where
  pub panic : e.panic ≡ disengaged
  pub gets_slot : e.gets_slot ≡ true
  pub panic_held : e.panic_held ≡ disengaged
  pub looks : e.looks ≡ true
  pub reverts : (e.reverts.reads ≡ true) × (e.reverts.writes ≡ true)
  pub clears : e.clears ≡ true
  pub reads : e.reads.reads ≡ true
  pub write : e.write ≡ done
  pub panic_now : e.panic_now ≡ disengaged

-- The configuration that a restore goes back to: with an unconfirmed apply marked on the disk the one
-- from before it, which the marker names; else the one that was applied last, which
-- applied_config.json names.
abbrev pub confirmed_config : {C : Type 0} → RestoreEnv C → World C → C
confirmed_config e w = elim w.marker [
  | none ↦ named_config e.reads_applied w.applied e.live
  | some before ↦ named_config e.reads_marker before e.live_later
]

-- The host has been configured: the set that is recovered holds something, or an apply ended well.
abbrev pub Configured : {C : Type 0} → World C → Type 0
Configured w = (is_empty (recovered (on_disk w)) ≡ false) ⊎ ((t : ℕ) × (w.last_apply ≡ some t))

-- A restore on a configured host at which nothing fails and panic mode is off puts into the kernel
-- the set that the disk leads back to, the backup if an unconfirmed apply is marked there and else
-- the current one, with the configuration that went with it; then that set is the enforced one in
-- the file, and no marker is left.
pub restore_current-table :
    {C : Type 0}
    → (e : RestoreEnv C) (w : World C) → Succeeds e
    → Configured w
    → let (v, err) = restore_current e w in
      (v.table ≡ holds (recovered (on_disk w)) (confirmed_config e w))
      × (v.store.file.current ≡ recovered (on_disk w))
      × (v.marker ≡ none)
      × (err ≡ none)
unfolding restore_current revert_unconfirmed restore_reverted enforce ever_configured
    panic_landed_during_write
restore_current-table e w k c = ground arith

-- Whatever else is answered, a restore leaves the kernel alone if panic mode is engaged or its marker
-- cannot be looked at, if an apply has the slot, if Lstat cannot tell whether an unconfirmed marker
-- is there, if the rules file cannot be read once the marker is dealt with, and on a host that was
-- never configured.
pub restore_current_refuses :
    {C : Type 0}
    → (e : RestoreEnv C) (w : World C)
    → (is_engaged e.panic ≡ true)
      ⊎ (e.gets_slot ≡ false)
      ⊎ (is_engaged e.panic_held ≡ true)
      ⊎ (e.looks ≡ false)
      ⊎ (e.reads.reads ≡ false)
      ⊎ ((is_empty w.store.file.current ≡ true) × (w.marker ≡ none) × (w.last_apply ≡ none))
    → (restore_current e w).0.table ≡ w.table
unfolding restore_current revert_unconfirmed restore_reverted enforce ever_configured
    panic_landed_during_write
restore_current_refuses e w k = ground arith

-- One of the disks that were passed.
abbrev pub Passed : {C : Type 0} → Disk C → List (Disk C) → Type 0
Passed d [] = ⊥
Passed d (x ∷ xs) = (d ≡ x) ⊎ Passed d xs

All-Passed :
    {C : Type 0}
    → (P : Disk C → Type 0) (d : Disk C) (xs : List (Disk C)) → All P xs
    → Passed d xs
    → P d
All-Passed P d [] k m = absurd m
All-Passed P d (x ∷ xs) k (inl e) = subst P (sym e) k.0
All-Passed P d (x ∷ xs) k (inr m) = All-Passed P d xs k.1 m

-- An apply with the acceptance window switched on, started with no window open, no unconfirmed
-- marker on the disk and no disk noted in World.disks yet, and the core stopped at any disk that it passes; whatever is in memory and
-- in the kernel then, if the host counts as configured and nothing fails at the next restore, then
-- the kernel holds the set from before the apply, or the window was accepted and it holds the
-- staged set that was confirmed.
pub restore_current-apply :
    {C : Type 0}
    → (e : ApplyEnv C) (w : World C) (x : World C × Option ApplyError) → e.acceptance_on ≡ true
    → is_pending w.window.status ≡ false
    → w.marker ≡ none
    → w.disks ≡ []
    → apply e w ≡ some x
    → (f : RestoreEnv C) (v : World C) → Passed (on_disk v) x.0.disks
    → Succeeds f
    → Configured v
    → ((restore_current f v).0.table ≡ holds w.store.file.current (confirmed_config f v))
      ⊎ ((x.1 ≡ none)
          × (x.0.window.status ≡ accepted)
          × ((restore_current f v).0.table ≡ holds w.store.file.staged (confirmed_config f v)))
restore_current-apply {C = C} e w x on idle absent fresh q f v m k c =
    let (y, q', ends) = apply-Ends e w on idle absent fresh in
    let same : y ≡ x = cc in
    let ends' : Ends w.store.file.current w.store.file.staged x =
      subst (Ends w.store.file.current w.store.file.staged) same ends in
    let t = (restore_current-table f v k c).0 in
    elim (All-Passed _ (on_disk v) x.0.disks ends' m) [
      | inl h ↦ inl (t ∙ ap (λ r. holds r (confirmed_config f v)) h)
      | inr h ↦ inr (h.0, h.1, t ∙ ap (λ r. holds r (confirmed_config f v)) h.2)
    ]
