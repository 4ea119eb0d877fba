-- ===== src/Store/Cycle.antt =====
-- The three sets over an apply cycle.
use easywall.Prelude.{◌≡◌, ◌↔◌, ◌&&◌, if◌then◌else◌, true, none, arith}
use easywall.Store.{Io, Store, backup_current, promote_staged, rollback}

abbrev pub good : Io
good = record { reads = true; writes = true }

-- A backup and a promotion that succeed, and then a rollback: the tried set is enforced in
-- between and the one before it is the backup; the rollback reports no error exactly if the file
-- could be read and written, and then the enforced set is the one from before, while the staged
-- set keeps the edits that were tried; else the tried set stays enforced.
pub rollback-promote_staged :
    (s : Store) (io : Io)
    → let (p, e) = promote_staged good (backup_current good s).0 in
      let (t, e') = rollback io p in
      (e ≡ none)
      × (p.file ≡ record s.file { current = s.file.staged; backup = s.file.current })
      × ((e' ≡ none) ↔ ((io.reads ≡ true) × (io.writes ≡ true)))
      × (t.file
          ≡ (if io.reads && io.writes then record s.file { backup = s.file.current } else p.file))
unfolding promote_staged backup_current rollback
rollback-promote_staged s io = ground arith
