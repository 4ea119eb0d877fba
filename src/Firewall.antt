-- ===== src/Firewall.antt =====
-- internal/core/firewall.go: what an apply, a rollback, a restore and panic mode do to the files,
-- the kernel's table and the audit log. The options and network settings go together everywhere
-- and are opaque to the cycle: they are one value of a type C. Every answer of the file system
-- and the kernel is an argument of the step that asks for it, and so is what the panic marker
-- says each time it is looked at: it belongs to another goroutine. Left out are the
-- usage counters, the snapshot file, the feeds' contents, the Docker bridges and the lines of the journal.
pub mod Rollback
pub mod Apply
pub mod Restore
pub mod Safe
pub mod Crash
pub mod Enforce
pub mod PanicMode
pub mod Cycle
pub mod Console
pub mod Race
use easywall.Prelude.{
  ℕ, Bool, true, false, not, ◌||◌, Option, none, some, List, [], ◌∷◌, if◌then◌else◌,
}
use easywall.Text.{Text}
use easywall.Rules.{Rules, RulesState, is_empty}
use easywall.Acceptance.{Acceptance}
use easywall.Store.{Store}

-- The actions of the audit log's lines.
pub data Action : Type 0 where
  apply_started apply_accepted apply_failed apply_rolledback apply_refused_panic : Action
  rollback_skipped rollback_failed : Action
  boot_enforced boot_enforce_failed boot_not_configured : Action
  panic_engaged panic_resumed resume_restore_skipped : Action
  build_finding : Text → Action

-- The kernel's table: as nft.Reset leaves it, as a write that succeeded leaves it, or what an
-- error left behind that came after a part had reached the kernel.
pub data Table (C : Type 0) : Type 0 where
  down : Table C
  holds : Rules → C → Table C
  partial : Table C

-- How the kernel answers a write or a teardown: without an error; or with one, after something
-- reached the kernel, before anything did, or before anything did and saying so by
-- errNothingWritten.
pub data Answer : Type 0 where
  done failed_halfway failed nothing_written : Answer

-- PanicState: the marker is there, is not, or cannot be looked at.
pub data Panic : Type 0 where
  engaged disengaged unreadable : Panic

-- What the files that survive a crash say: rules.json and the unconfirmed marker. The marker is
-- absent, or holds the configuration from before the apply if that was recorded.
pub record Disk (C : Type 0) : Type 0 where
  pub file : RulesState
  pub marker : Option (Option C)

pub record World (C : Type 0) : Type 0 where
  pub store : Store
  pub marker : Option (Option C)
  pub applied : Option C  -- applied_config.json, if it is there and parses
  pub last_apply : Option ℕ
  pub table : Table C
  pub window : Acceptance
  pub applying : Bool
  pub audit : List Action  -- the newest line first
  pub disks : List (Disk C)  -- every state of the disk that was passed, the newest first

abbrev pub on_disk : {C : Type 0} → World C → Disk C
on_disk w = record { file = w.store.file; marker = w.marker }

-- PanicEngaged: a marker that cannot be looked at counts as engaged.
abbrev pub is_engaged : Panic → Bool
is_engaged engaged = true
is_engaged disengaged = false
is_engaged unreadable = true

-- `engaged && known`
abbrev pub is_known_engaged : Panic → Bool
is_known_engaged engaged = true
is_known_engaged disengaged = false
is_known_engaged unreadable = false

abbrev pub has_error : Answer → Bool
has_error done = false
has_error _ = true

-- WriteAuditLog, of which the action is kept.
abbrev pub log : {C : Type 0} → Action → World C → World C
log a w = record w { audit = a ∷ w.audit }

-- The file or the marker changed.
abbrev pub passes : {C : Type 0} → World C → World C
passes w = record w { disks = on_disk w ∷ w.disks }

abbrev pub put_store : {C : Type 0} → Store → World C → World C
put_store s w = passes (record w { store = s })

-- markUnconfirmed, where it succeeds.
abbrev pub mark_unconfirmed : {C : Type 0} → Option C → World C → World C
mark_unconfirmed before w = passes (record w { marker = some before })

-- clearUnconfirmed: a marker that cannot be removed stays.
abbrev pub clear_unconfirmed : {C : Type 0} → Bool → World C → World C
clear_unconfirmed removes w = if removes then passes (record w { marker = none }) else w

-- nft.ApplyWithFeeds
abbrev pub write_table : {C : Type 0} → Answer → Rules → C → World C → World C
write_table done r c w = record w { table = holds r c }
write_table failed_halfway r c w = record w { table = partial }
write_table failed r c w = w
write_table nothing_written r c w = w

-- nft.Reset
abbrev pub tear_down : {C : Type 0} → Answer → World C → World C
tear_down done w = record w { table = down }
tear_down failed_halfway w = record w { table = partial }
tear_down failed w = w
tear_down nothing_written w = w

-- appliedConfig: a file that cannot be read or parsed counts as unrecorded.
abbrev pub applied_config : {C : Type 0} → Bool → World C → Option C
applied_config reads w = if reads then w.applied else none

-- recordAppliedConfig: a failure leaves the file as it was.
abbrev pub record_applied_config : {C : Type 0} → Bool → C → World C → World C
record_applied_config writes c w = if writes then record w { applied = some c } else w

-- configToRestore; `live` is the configuration as it is at that moment.
abbrev pub config_to_restore : {C : Type 0} → Option C → C → C
config_to_restore none live = live
config_to_restore (some c) live = c

abbrev is_set : Option ℕ → Bool
is_set none = false
is_set (some t) = true

-- everConfigured
unfoldable pub ever_configured : {C : Type 0} → RulesState → World C → Bool
ever_configured state w = not (is_empty state.current) || is_set w.last_apply

-- panicLandedDuringWrite, which reports its first argument.
unfoldable pub panic_landed_during_write : {C : Type 0} → Bool → Action → Answer → World C → World C
panic_landed_during_write landed requested torn w =
    if landed
    then log (if has_error torn then boot_enforce_failed else requested) (tear_down torn w)
    else w
