-- ===== src/Firewall/Safe.antt =====
-- The disks of a world whose every state leads back to one set, and what a rollback makes of them.
use easywall.Prelude.{◌≡◌, Bool, true, false, Option, none, some, All, arith}
use easywall.Rules.{Rules, RulesState}
use easywall.Firewall.{Answer, World, Disk, on_disk, Action, panic_landed_during_write}
use easywall.Firewall.Rollback.{
  RollbackEnv, rollback, revert_file, undo_table, finish_rollback, write_previous,
}

-- The set that the next start enforces: the backup if the marker is there, else the current one.
abbrev pub recovered : {C : Type 0} → Disk C → Rules
recovered d = elim d.marker [ none ↦ d.file.current | some before ↦ d.file.backup ]

-- The configuration that a file names, if it can be read and names one, and else the live one.
abbrev pub named_config : {C : Type 0} → Bool → Option C → C → C
named_config true (some c) live = c
named_config true none live = live
named_config false o live = live

-- Every disk that was passed leads back to one set, and so does the one that is there, whose
-- backup it is.
abbrev pub Safe : {C : Type 0} → Rules → World C → Type 0
Safe c w =
    All (λ d. recovered d ≡ c) w.disks × (recovered (on_disk w) ≡ c) × (w.store.file.backup ≡ c)

-- The same files.
abbrev pub SameFiles : {C : Type 0} → World C → World C → Type 0
SameFiles w v = (v.store ≡ w.store) × (v.marker ≡ w.marker) × (v.disks ≡ w.disks)

pub Safe-SameFiles :
    {C : Type 0} → (c : Rules) (w v : World C) → SameFiles w v → Safe c w → Safe c v
Safe-SameFiles c w v (s, m, d) k = ground (arith)

pub panic_landed-SameFiles :
    {C : Type 0}
    → (b : Bool) (a : Action) (t : Answer) (w : World C)
    → SameFiles w (panic_landed_during_write b a t w)
unfolding panic_landed_during_write
panic_landed-SameFiles b a t w = ground arith

finish_rollback-SameFiles :
    {C : Type 0} → (e : RollbackEnv C) (c : C) (w : World C) → SameFiles w (finish_rollback e c w)
unfolding finish_rollback panic_landed_during_write
finish_rollback-SameFiles e c w = ground arith

write_previous-SameFiles :
    {C : Type 0}
    → (e : RollbackEnv C) (p : RulesState) (before : Option C) (w : World C)
    → SameFiles w (write_previous e p before w)
unfolding write_previous finish_rollback panic_landed_during_write
write_previous-SameFiles e p before w = ground arith

revert_file-Safe :
    {C : Type 0}
    → (e : RollbackEnv C) (c : Rules) (w : World C) → Safe c w
    → Safe c (revert_file e w).0
unfolding revert_file
revert_file-Safe e c w k = ground arith

undo_table-SameFiles :
    {C : Type 0}
    → (e : RollbackEnv C) (p : RulesState) (before : Option C) (w : World C) (b : Bool)
    → SameFiles w (undo_table e p before (w, b))
unfolding undo_table
undo_table-SameFiles e p before w b = ground (arith, write_previous-SameFiles e p before w)

pub rollback-Safe :
    {C : Type 0}
    → (e : RollbackEnv C) (p : RulesState) (before : Option C) (c : Rules) (w : World C) → Safe c w
    → Safe c (rollback e p before w)
unfolding rollback
rollback-Safe e p before c w k =
    Safe-SameFiles c (revert_file e w).0 (undo_table e p before (revert_file e w))
      (undo_table-SameFiles e p before (revert_file e w).0 (revert_file e w).1)
      (revert_file-Safe e c w k)
