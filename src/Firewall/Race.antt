-- ===== src/Firewall/Race.antt =====
-- Panic against a goroutine that writes the kernel meanwhile. Panic holds no slot of an apply: it puts
-- its marker in place and then tears the table down, while a rollback or a restore writes, looks at
-- the marker behind the write and tears down itself. PanicMode has the same for an apply.
use easywall.Prelude.{◌≡◌, true, ◌⊎◌, Option, arith}
use easywall.Rules.{RulesState}
use easywall.Firewall.{
  done, engaged, down, World, is_engaged, ever_configured, panic_landed_during_write,
}
use easywall.Firewall.Rollback.{
  RollbackEnv, rollback, revert_file, undo_table, write_previous, finish_rollback,
}
use easywall.Firewall.Restore.{
  RestoreEnv, restore_current, revert_unconfirmed, restore_reverted, enforce,
}

-- The table is as it was, or down.
abbrev pub Withdrawn : {C : Type 0} → World C → World C → Type 0
Withdrawn w v = (v.table ≡ w.table) ⊎ (v.table ≡ down)

-- Panic's marker is there at the rollback's look behind its write.
rollback-down :
    {C : Type 0}
    → (e : RollbackEnv C) (p : RulesState) (before : Option C) (w : World C) → e.panic_now ≡ engaged
    → e.torn ≡ done
    → ((rollback e p before w).table ≡ down)
      ⊎ ((e.panic ≡ engaged) × ((rollback e p before w).table ≡ w.table))
unfolding rollback revert_file undo_table write_previous finish_rollback panic_landed_during_write
rollback-down e p before w h d = ground arith

-- Panic's marker is there, or cannot be looked at, at the restore's look behind its write.
restore_current-Withdrawn :
    {C : Type 0}
    → (e : RestoreEnv C) (w : World C) → is_engaged e.panic_now ≡ true
    → e.torn ≡ done
    → Withdrawn w (restore_current e w).0
unfolding restore_current revert_unconfirmed restore_reverted enforce ever_configured
    panic_landed_during_write
restore_current-Withdrawn e w h d = ground arith

-- If Panic's marker is in place at the look behind the write and the teardown behind that look
-- succeeds, then whatever else the files, the kernel and the earlier looks answer: a rollback leaves
-- the table down, or, if it had found panic mode engaged before it wrote, as it was; and a restore
-- leaves it down or as it was. Rules that either wrote do not stay.
pub rollback-restore_current :
    {C : Type 0}
    → (e : RollbackEnv C) (f : RestoreEnv C) (p : RulesState) (before : Option C) (w : World C)
    → e.panic_now ≡ engaged
    → e.torn ≡ done
    → is_engaged f.panic_now ≡ true
    → f.torn ≡ done
    → (((rollback e p before w).table ≡ down)
        ⊎ ((e.panic ≡ engaged) × ((rollback e p before w).table ≡ w.table)))
      × Withdrawn w (restore_current f w).0
rollback-restore_current e f p before w h d g k =
    (rollback-down e p before w h d, restore_current-Withdrawn f w g k)
