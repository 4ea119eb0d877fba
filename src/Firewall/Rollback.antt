-- ===== src/Firewall/Rollback.antt =====
-- Firewall.rollback of internal/core/firewall.go.
use easywall.Prelude.{Bool, true, false, not, ◌&&◌, ◌||◌, Option, none, some, if◌then◌else◌}
use easywall.Rules.{RulesState}
use easywall.Store.{Io, Error, Store}
use easywall.Store
use easywall.Firewall.{
  boot_not_configured, boot_enforce_failed, rollback_skipped, rollback_failed, Answer, Panic,
  is_known_engaged, has_error, World, log, put_store, clear_unconfirmed, write_table, tear_down,
  record_applied_config, config_to_restore, ever_configured, panic_landed_during_write,
}

-- The answers that a rollback gets.
pub record RollbackEnv (C : Type 0) : Type 0 where
  pub reverts : Io  -- of RulesStore.Rollback
  pub clears : Bool  -- whether the unconfirmed marker can be removed
  pub panic : Panic  -- before the kernel is touched
  pub live : C
  pub write : Answer  -- of the write, or of the teardown on a first apply
  pub panic_now : Panic  -- behind the write
  pub torn : Answer  -- of the teardown that panic mode asks for
  pub records : Bool  -- whether applied_config.json can be written

abbrev pub has_failed : Option Error → Bool
has_failed none = false
has_failed (some e) = true

-- RulesStore.Rollback, and the marker behind it.
unfoldable pub revert_file : {C : Type 0} → RollbackEnv C → World C → World C × Bool
unfolding Store.rollback
revert_file e w =
    let (s, err) = Store.rollback e.reverts w.store in
    if has_failed err then (w, true) else (clear_unconfirmed e.clears (put_store s w), false)

-- What follows the write: the second look at the panic marker, and the record.
unfoldable pub finish_rollback : {C : Type 0} → RollbackEnv C → C → World C → World C
unfolding panic_landed_during_write
finish_rollback e c w =
    let looked =
      panic_landed_during_write (is_known_engaged e.panic_now) rollback_skipped e.torn w in
    if not (has_error e.write) && not (is_known_engaged e.panic_now)
    then record_applied_config e.records c looked
    else looked

-- The previous rules, or no table if there were none.
unfoldable pub write_previous :
    {C : Type 0} → RollbackEnv C → RulesState → Option C → World C → World C
unfolding ever_configured finish_rollback
write_previous e previous before w =
    if not (ever_configured previous w)
    then finish_rollback e e.live (
        log (if has_error e.write then boot_enforce_failed else boot_not_configured)
          (tear_down e.write w))
    else finish_rollback e (config_to_restore before e.live)
        (write_table e.write previous.current (config_to_restore before e.live) w)

-- The line that names what has failed.
abbrev report : {C : Type 0} → Bool → World C → World C
report fails w = if fails then log rollback_failed w else w

-- From the first look at the panic marker on; `fails` says whether the file could not be reverted.
unfoldable pub undo_table :
    {C : Type 0} → RollbackEnv C → RulesState → Option C → World C × Bool → World C
unfolding write_previous ever_configured
undo_table e previous before (w, fails) =
    if is_known_engaged e.panic
    then report fails (log rollback_skipped w)
    else report (fails || (has_error e.write && ever_configured previous w))
        (write_previous e previous before w)

-- rollback
unfoldable pub rollback : {C : Type 0} → RollbackEnv C → RulesState → Option C → World C → World C
unfolding revert_file undo_table
rollback e previous before w = undo_table e previous before (revert_file e w)
