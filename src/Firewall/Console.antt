-- ===== src/Firewall/Console.antt =====
-- internal/core/restore.go: Panic and Resume, the two commands of the console. panicMu makes them
-- exclude each other. The panic marker is the Boolean beside the world; `none` is a Go panic.
use easywall.Prelude.{
  ℕ, ◌≡◌, ◌≢◌, refl, arith, Bool, true, false, not, ◌&&◌, Option, none, some, if◌then◌else◌,
}
use easywall.Store.{Io, get_state}
use easywall.Acceptance.{panic, cancel}
use easywall.Firewall.{
  panic_engaged, panic_resumed, resume_restore_skipped, Answer, Panic, engaged, disengaged,
  unreadable, is_engaged, has_error, World, done, holds, on_disk, log, tear_down, ever_configured,
}
use easywall.Firewall.Safe.{recovered, SameFiles}
use easywall.Firewall.Enforce.{Succeeds, Configured, confirmed_config, restore_current-table}
use easywall.Firewall.Restore.{RestoreEnv, RestoreError, apply_in_progress, failed, restore_current}

-- The answers that Panic gets.
pub record PanicEnv : Type 0 where
  pub places : Bool  -- whether the marker can be put in place
  pub now : ℕ
  pub torn : Answer

-- Panic. The result says whether it returned an error.
unfoldable pub panic_command :
    {C : Type 0} → PanicEnv → World C × Bool → Option ((World C × Bool) × Bool)
unfolding cancel
panic_command e (w, marker) =
    if not e.places then some ((w, marker), true) else elim (cancel e.now panic w.window) [
      | none ↦ none
      | some (window, told) ↦ some (
        (tear_down e.torn (log panic_engaged (record w { window = window })), true),
        has_error e.torn,
      )
    ]

-- The answers that Resume gets.
pub record ResumeEnv (C : Type 0) : Type 0 where
  pub panic : Panic
  pub removes : Bool  -- whether the marker can be removed
  pub reads : Io
  pub restore : RestoreEnv C

pub record Resumed : Type 0 where
  pub was_engaged : Bool
  pub restored : Bool

abbrev is_in_progress : Option RestoreError → Bool
is_in_progress (some apply_in_progress) = true
is_in_progress (some failed) = false
is_in_progress none = false

abbrev has_failed : Option RestoreError → Bool
has_failed none = false
has_failed (some err) = true

-- `stateErr == nil && everConfigured`
abbrev configured : {C : Type 0} → Io → World C → Bool
configured io w = elim (get_state io w.store) [
  | none ↦ false
  | some state ↦ ever_configured state w
]

-- A look at the panic marker, which may fail.
abbrev pub look : Bool → Panic → Panic
look marker unreadable = unreadable
look true answer = engaged
look false answer = disengaged

-- What a restore gets to see while Resume holds panicMu, so that Panic waits: the marker as it stands.
abbrev pub looking : {C : Type 0} → Bool → RestoreEnv C → RestoreEnv C
looking marker e = record e {
  panic = look marker e.panic;
  panic_held = look marker e.panic_held;
  panic_now = look marker e.panic_now;
}

-- Resume, behind the removal of the marker; `marker` is whether it is there.
unfoldable pub resume_restored :
    {C : Type 0} → ResumeEnv C → World C × Bool → World C × Resumed × Bool
unfolding get_state ever_configured
resume_restored e (w, marker) =
    let logged = if is_engaged e.panic then log panic_resumed w else w in
    let (v, err) = restore_current (looking marker e.restore) logged in
    (
      if is_in_progress err then log resume_restore_skipped v else v,
      record {
        was_engaged = is_engaged e.panic;
        restored = not (has_failed err) && configured e.reads logged;
      },
      has_failed err,
    )

-- Resume. The last Boolean says whether it returned an error.
unfoldable pub resume :
    {C : Type 0} → ResumeEnv C → World C × Bool → (World C × Bool) × Resumed × Bool
unfolding resume_restored
resume e (w, marker) =
    if not e.removes
    then ((w, marker), record { was_engaged = is_engaged e.panic; restored = false }, true)
    else let (v, r, err) = resume_restored e (w, false) in ((v, false), r, err)

-- The world that Resume restores in.
abbrev noted : {C : Type 0} → ResumeEnv C → World C → World C
noted e w = if is_engaged e.panic then log panic_resumed w else w

-- What Panic leaves alone.
abbrev Kept : {C : Type 0} → World C → World C → Type 0
Kept w v = SameFiles w v × (v.applied ≡ w.applied) × (v.last_apply ≡ w.last_apply)

panic_command-keeps :
    {C : Type 0}
    → (e : PanicEnv) (w v : World C) (m m' err : Bool) → e.places ≡ true
    → panic_command e (w, m) ≡ some ((v, m'), err)
    → Kept w v × (m' ≡ true)
unfolding panic_command cancel
panic_command-keeps e w v m m' err p q = ground arith

Configured-Kept :
    {C : Type 0}
    → (e : ResumeEnv C) (w v : World C) → Kept w v
    → Configured w
    → Configured (noted e v)
Configured-Kept e w v k c = ground arith

-- The answers that Resume's restore gets: no look at the panic marker fails, whatever it finds, and
-- nothing else fails.
pub record Restores {C : Type 0} (e : RestoreEnv C) : Type 0 where
  pub panic : e.panic ≢ unreadable
  pub panic_held : e.panic_held ≢ unreadable
  pub panic_now : e.panic_now ≢ unreadable
  pub gets_slot : e.gets_slot ≡ true
  pub looks : e.looks ≡ true
  pub reverts : (e.reverts.reads ≡ true) × (e.reverts.writes ≡ true)
  pub clears : e.clears ≡ true
  pub reads : e.reads.reads ≡ true
  pub write : e.write ≡ done

look_removed : (a : Panic) → a ≢ unreadable → look false a ≡ disengaged
look_removed engaged h = refl
look_removed disengaged h = refl
look_removed unreadable h = absurd (h refl)

-- With the marker removed, the restore finds panic mode off.
looking-Succeeds : {C : Type 0} → (e : RestoreEnv C) → Restores e → Succeeds (looking false e)
looking-Succeeds e s = record {
  panic = look_removed e.panic s.panic;
  gets_slot = s.gets_slot;
  panic_held = look_removed e.panic_held s.panic_held;
  looks = s.looks;
  reverts = s.reverts;
  clears = s.clears;
  reads = s.reads;
  write = s.write;
  panic_now = look_removed e.panic_now s.panic_now;
}

-- Panic put its marker in place, whether or not it could tear the table down, and then Resume can
-- remove the marker and none of the looks at it and nothing else fails in its restore, on a
-- configured host. Then the restore finds panic mode off, and the kernel holds the set that the disk
-- led back to before Panic: with the configuration that the unconfirmed marker names if there was
-- one, else with the one that was recorded as applied last, and with the live one where that file
-- names none. The panic marker is gone, and no error is returned.
pub resume-panic_command :
    {C : Type 0}
    → (e : PanicEnv) (f : ResumeEnv C) (w v : World C) (m m' err : Bool) → e.places ≡ true
    → panic_command e (w, m) ≡ some ((v, m'), err)
    → f.removes ≡ true
    → Restores f.restore
    → Configured w
    → let ((x, m''), r, err') = resume f (v, m') in
      (x.table ≡ holds (recovered (on_disk w)) (confirmed_config f.restore w))
      × (m' ≡ true)
      × (m'' ≡ false)
      × (err' ≡ false)
unfolding resume resume_restored
resume-panic_command {C = C} e f w v m m' err p q g s c =
    let (kept, marked) = panic_command-keeps e w v m m' err p q in
    let t =
      restore_current-table (looking false f.restore) (noted f v) (looking-Succeeds f.restore s)
        (Configured-Kept f w v kept c) in
    let r : recovered (on_disk (noted f v)) ≡ recovered (on_disk w) = ground arith in
    let b : confirmed_config (looking false f.restore) (noted f v) ≡ confirmed_config f.restore w =
      ground arith in
    ground (arith, t, r, b)
