-- ===== src/Tests/Cycles.antt =====
-- Apply cycles and restores. A configuration is a number here.
use easywall.Prelude.{
  ℕ, ◌≡◌, ◌⊎◌, ◌↔◌, ◌&&◌, if◌then◌else◌, refl, inl, inr, true, false, Option, none, some, [], ◌∷◌,
}
use easywall.Rules.{no_rules, is_empty}
use easywall.Store.Cycle.{good}
use easywall.Acceptance.{
  Acceptance, new_acceptance, start, cancel, accept, pending, timeout, accepted, panic,
}
use easywall.Acceptance.Window.{accepts, cancels, Told, told_at_start, step, run}
use easywall.Firewall.{
  down, partial, panic_engaged, World, holds, done, failed_halfway, disengaged, engaged, unreadable,
  rollback_skipped, rollback_failed, on_disk,
}
use easywall.Firewall.Rollback.{RollbackEnv, rollback}
use easywall.Firewall.Apply.{
  ApplyEnv, ApplyError, conclude, settle, write, open_window, promote, back_up, apply,
}
use easywall.Firewall.Restore.{RestoreEnv, restore_current}
use easywall.Firewall.Crash.{Ends, apply-Ends}
use easywall.Firewall.Enforce.{
  rollback_in_panic, Succeeds, Configured, restore_current_refuses, Passed, restore_current-apply,
}
use easywall.Firewall.PanicMode.{Lands, Calm, apply-Calm}
use easywall.Firewall.Cycle.{Confirmed, Undone, apply-table}
use easywall.Firewall.Cycle
use easywall.Firewall.Console.{
  PanicEnv, ResumeEnv, Restores, panic_command, resume, resume-panic_command,
}
use easywall.Firewall.Race.{Withdrawn, rollback-restore_current}
use easywall.Tests.Samples.{sample_rules, copied_rules}

abbrev host : World ℕ
host = record {
  store = record {
    file = record { current = copied_rules; staged = sample_rules; backup = no_rules };
    next = 0;
  };
  marker = none;
  applied = some 7;
  last_apply = some 50;
  table = holds copied_rules 7;
  window = new_acceptance 60;
  applying = true;
  audit = [];
  disks = [];
}

abbrev undo : RollbackEnv ℕ
undo = record {
  reverts = good;
  clears = true;
  panic = disengaged;
  live = 9;
  write = done;
  panic_now = disengaged;
  torn = done;
  records = true;
}

abbrev cycle : ApplyEnv ℕ
cycle = record {
  panic = disengaged;
  reads = good;
  backs_up = good;
  live = 8;
  acceptance_on = true;
  reads_applied = true;
  marks = true;
  promotes = good;
  clears = true;
  rereads = good;
  now = 100;
  length = 60;
  calls = (120, cancels panic) ∷ (130, accepts) ∷ [];
  write = done;
  panic_now = disengaged;
  torn = done;
  findings = [];
  ended = 150;
  records = true;
  undo = undo;
}

abbrev panicking : ApplyEnv ℕ
panicking = record cycle {
  write = failed_halfway;
  panic_now = engaged;
  undo = record undo { panic = engaged };
}

abbrev boot : RestoreEnv ℕ
boot = record {
  panic = disengaged;
  gets_slot = true;
  panic_held = disengaged;
  looks = true;
  reads_marker = true;
  reverts = good;
  clears = true;
  reads = good;
  live = 8;
  live_later = 8;
  reads_applied = true;
  write = done;
  panic_now = disengaged;
  torn = done;
  records = true;
}

boot-Succeeds : Succeeds boot
boot-Succeeds = record {
  panic = refl;
  gets_slot = refl;
  panic_held = refl;
  looks = refl;
  reverts = (refl, refl);
  clears = refl;
  reads = refl;
  write = refl;
  panic_now = refl;
}

cycle-Succeeds : Cycle.Succeeds cycle
cycle-Succeeds = record {
  acceptance_on = refl;
  panic = refl;
  reads = refl;
  backs_up = (refl, refl);
  reads_applied = refl;
  marks = refl;
  promotes = (refl, refl);
  clears = refl;
  rereads = refl;
  write = refl;
  panic_now = refl;
  undo_reverts = (refl, refl);
  undo_clears = refl;
  undo_panic = refl;
  undo_panic_now = refl;
  undo_write = refl;
  undo_records = refl;
}

panicking-Lands : Lands panicking
panicking-Lands = record { panic_now = refl; torn = refl; undo = refl }

rollback_in_panic_example :
    let e = record undo { panic = engaged } in
    let v = rollback e host.store.file (some 7) host in
    (v.table ≡ host.table)
    × (v.applied ≡ host.applied)
    × ((v.audit ≡ rollback_skipped ∷ host.audit)
        ⊎ (v.audit ≡ rollback_failed ∷ rollback_skipped ∷ host.audit))
    × ((v.audit ≡ rollback_skipped ∷ host.audit)
        ↔ ((e.reverts.reads ≡ true) × (e.reverts.writes ≡ true)))
    × (v.store.file ≡ (
        if e.reverts.reads && e.reverts.writes
        then record host.store.file { current = host.store.file.backup }
        else host.store.file))
rollback_in_panic_example =
    rollback_in_panic (record undo { panic = engaged }) host.store.file (some 7) host refl

-- The disk inside the window of the cycle.
abbrev crashed : World ℕ
crashed = record host {
  store = record {
    file = record { current = sample_rules; staged = sample_rules; backup = copied_rules };
    next = 0;
  };
  marker = some (some 7);
  last_apply = none;
  table = holds sample_rules 8;
}

crashed-Configured : Configured crashed
unfolding is_empty
crashed-Configured = inl refl

restore_current_refuses_example :
    (restore_current (record boot { panic_held = unreadable }) crashed).0.table
    ≡ holds sample_rules 8
restore_current_refuses_example =
    restore_current_refuses (record boot { panic_held = unreadable }) crashed (inr (inr (inl refl)))

apply-Ends_example :
    (x : World ℕ × Option ApplyError) × (apply cycle host ≡ some x)
    × Ends copied_rules sample_rules x
unfolding new_acceptance
apply-Ends_example = apply-Ends cycle host refl refl refl refl

apply-Calm_example :
    (x : World ℕ × Option ApplyError) × (apply panicking host ≡ some x)
    × Calm (holds copied_rules 7) x
unfolding new_acceptance
apply-Calm_example = apply-Calm panicking host panicking-Lands refl

abbrev opened : Acceptance
opened = record {
  status = pending;
  accept_ch = some false;
  cancel_ch = some false;
  cancelled = false;
  accepted = false;
  duration = 60;
  deadline = 160;
  stopping = false;
  reason = timeout;
}

abbrev cancelled : Acceptance
cancelled = record opened { cancel_ch = some true; cancelled = true; reason = panic }

abbrev told : Told
told = record { confirmed = false; ended = some panic }

opens : start 100 60 host.window ≡ some opened
unfolding start new_acceptance
opens = refl

calls_run : run cycle.calls (opened, told_at_start host.window.stopping) ≡ some (cancelled, told)
unfolding run step cancel accept new_acceptance
calls_run = refl

apply-table_example :
    (v : World ℕ) × (apply cycle host ≡ some (v, none))
    × (((cancelled.accepted ≡ true) × Confirmed cycle host.store.file v)
        ⊎ ((cancelled.accepted ≡ false) × Undone cycle host.store.file (some 7) v))
unfolding is_empty
apply-table_example =
    apply-table cycle host opened cancelled told cycle-Succeeds refl opens calls_run

abbrev outcome : World ℕ × Option ApplyError
outcome = elim (apply cycle host) [ none ↦ (host, none) | some x ↦ x ]

outcome_is : apply cycle host ≡ some outcome
unfolding apply back_up promote open_window write settle conclude rollback start run step cancel
    accept new_acceptance
outcome_is = refl

crashed-Passed : Passed (on_disk crashed) outcome.0.disks
unfolding apply back_up promote open_window write settle conclude rollback start run step cancel
    accept new_acceptance is_empty
crashed-Passed = inr (inr (inl refl))

restore_current-apply_example :
    ((restore_current boot crashed).0.table ≡ holds copied_rules 7)
    ⊎ ((outcome.1 ≡ none)
        × (outcome.0.window.status ≡ accepted)
        × ((restore_current boot crashed).0.table ≡ holds sample_rules 7))
unfolding new_acceptance
restore_current-apply_example =
    restore_current-apply cycle host outcome refl refl refl refl outcome_is boot crashed
      crashed-Passed boot-Succeeds crashed-Configured

-- A write that Panic's marker overtakes, in a rollback and in a restore.
rollback-restore_current_example :
    (((rollback (record undo { panic_now = engaged }) host.store.file (some 7) host).table ≡ down)
      ⊎ ((disengaged ≡ engaged)
          × ((rollback (record undo { panic_now = engaged }) host.store.file (some 7) host).table
              ≡ host.table)))
    × Withdrawn host (restore_current (record boot { panic_now = unreadable }) host).0
rollback-restore_current_example =
    rollback-restore_current (record undo { panic_now = engaged })
      (record boot { panic_now = unreadable }) host.store.file (some 7) host refl refl refl refl

boot-Restores : Restores boot
boot-Restores = record {
  panic = λ e. cc e;
  panic_held = λ e. cc e;
  panic_now = λ e. cc e;
  gets_slot = refl;
  looks = refl;
  reverts = (refl, refl);
  clears = refl;
  reads = refl;
  write = refl;
}

abbrev button : PanicEnv
button = record { places = true; now = 120; torn = failed_halfway }

abbrev resuming : ResumeEnv ℕ
resuming = record { panic = engaged; removes = true; reads = good; restore = boot }

-- The host inside its window, behind Panic.
abbrev panicked : World ℕ
panicked = record crashed {
  window = new_acceptance 60;
  table = partial;
  audit = panic_engaged ∷ [];
}

pressed : panic_command button (crashed, false) ≡ some ((panicked, true), true)
unfolding panic_command cancel new_acceptance
pressed = refl

resume-panic_command_example :
    let ((x, m), r, err) = resume resuming (panicked, true) in
    (x.table ≡ holds copied_rules 7) × (true ≡ true) × (m ≡ false) × (err ≡ false)
resume-panic_command_example =
    resume-panic_command button resuming crashed panicked false true true refl pressed refl
      boot-Restores crashed-Configured
