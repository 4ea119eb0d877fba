-- ===== src/Firewall/Restore.antt =====
-- internal/core/restore.go and unconfirmed.go: RestoreCurrent, Panic and Resume.
use easywall.Prelude.{Bool, true, not, Option, none, some, if◌then◌else◌}
use easywall.Rules.{Rules}
use easywall.Acceptance.{core_stopped, record_rolled_back}
use easywall.Store
use easywall.Store.{Io, Store, get_state}
use easywall.Firewall.{
  apply_rolledback, boot_enforced, boot_enforce_failed, boot_not_configured, Answer, Panic,
  is_engaged, has_error, World, log, put_store, clear_unconfirmed, write_table, applied_config,
  record_applied_config, config_to_restore, ever_configured, panic_landed_during_write,
}
use easywall.Firewall.Rollback.{has_failed}

pub data RestoreError : Type 0 where
  apply_in_progress failed : RestoreError

-- The answers that a restore gets, in order.
pub record RestoreEnv (C : Type 0) : Type 0 where
  pub panic : Panic  -- before the apply slot is waited for
  pub gets_slot : Bool
  pub panic_held : Panic  -- with the slot held
  pub looks : Bool  -- whether Lstat can tell if there is an unconfirmed marker
  pub reads_marker : Bool  -- whether what the marker holds can be read and parsed
  pub reverts : Io
  pub clears : Bool
  pub reads : Io
  pub live : C
  pub live_later : C  -- as configToRestore reads it
  pub reads_applied : Bool
  pub write : Answer
  pub panic_now : Panic  -- behind the write
  pub torn : Answer
  pub records : Bool

-- What the marker records, as far as it can be read.
abbrev pub recorded : {C : Type 0} → Bool → Option C → Option C
recorded reads before = if reads then before else none

-- revertUnconfirmed: the configuration from before the apply if there was one to revert, and the
-- error.
unfoldable pub revert_unconfirmed :
    {C : Type 0} → RestoreEnv C → World C → World C × Option (Option C) × Option RestoreError
unfolding Store.rollback record_rolled_back
revert_unconfirmed e w = if not e.looks then (w, none, some failed) else elim w.marker [
  | none ↦ (w, none, none)
  | some before ↦
      let (s, err) = Store.rollback e.reverts w.store in
      if has_failed err then (w, none, some failed) else (
        log apply_rolledback (record (clear_unconfirmed e.clears (put_store s w)) {
          window = record_rolled_back core_stopped w.window;
        }),
        some (recorded e.reads_marker before),
        none,
      )
]

-- The configuration that is restored: from before a reverted apply; else what went into the
-- kernel last, if that is recorded; else the live one.
abbrev pub restored_config : {C : Type 0} → RestoreEnv C → Option (Option C) → World C → C
restored_config e (some before) w = config_to_restore before e.live_later
restored_config e none w = config_to_restore (applied_config e.reads_applied w) e.live

-- From the write on.
unfoldable pub enforce :
    {C : Type 0} → RestoreEnv C → Rules → C → World C → World C × Option RestoreError
unfolding panic_landed_during_write
enforce e rules c w =
    let written = write_table e.write rules c w in
    if has_error e.write
    then (
      panic_landed_during_write (is_engaged e.panic_now) boot_enforce_failed e.torn
          (log boot_enforce_failed written),
      some failed,
    )
    else if is_engaged e.panic_now
    then (panic_landed_during_write true boot_enforce_failed e.torn written, none)
    else (log boot_enforced (record_applied_config e.records c written), none)

-- From revertUnconfirmed's return on.
unfoldable pub restore_reverted :
    {C : Type 0}
    → RestoreEnv C
    → World C × Option (Option C) × Option RestoreError
    → World C × Option RestoreError
unfolding get_state ever_configured enforce
restore_reverted e (w, reverted, some err) = (log boot_enforce_failed w, some err)
restore_reverted e (w, reverted, none) = elim (get_state e.reads w.store) [
  | none ↦ (log boot_enforce_failed w, some failed)
  | some state ↦
      if not (ever_configured state w)
      then (log boot_not_configured w, none)
      else enforce e state.current (restored_config e reverted w) w
]

-- RestoreCurrent
unfoldable pub restore_current :
    {C : Type 0} → RestoreEnv C → World C → World C × Option RestoreError
unfolding revert_unconfirmed restore_reverted
restore_current e w =
    if is_engaged e.panic
    then (w, none)
    else if not e.gets_slot
    then (w, some apply_in_progress)
    else if is_engaged e.panic_held
    then (w, none)
    else restore_reverted e (revert_unconfirmed e w)
