-- ===== src/Firewall/Crash.antt =====
-- What a crash inside an apply leaves on the disk, and what the next start makes of it.
use easywall.Prelude.{
  ◌≡◌, refl, true, false, not, ◌⊎◌, inl, inr, Option, none, some, List, [], ◌∷◌, All, arith, ◌∙◌,
  Bool-cases, if-elim,
}
use easywall.Rules.{Rules, RulesState}
use easywall.Firewall.Safe.{recovered, Safe, SameFiles, Safe-SameFiles, rollback-Safe}
use easywall.Text.{Text}
use easywall.Store.{backup_current, promote_staged, get_state}
use easywall.Acceptance.{wake, accepted, is_pending}
use easywall.Acceptance.Window.{start_total, run_total, told_at_start}
use easywall.Firewall.{
  World, apply_started, log, apply_rolledback, apply_accepted, apply_failed, apply_refused_panic,
  build_finding, passes, put_store, mark_unconfirmed, clear_unconfirmed, applied_config,
  record_applied_config, has_error, is_engaged, write_table, panic_landed_during_write,
}
use easywall.Firewall.Rollback.{rollback}
use easywall.Firewall.Apply.{
  Result, ApplyError, failed, panic_mode, reset_window, log_findings, ApplyEnv, confirm, conclude,
  settle, write, open_window, promote, back_up, apply,
}

-- Every disk that was passed leads back to one set, or the window was accepted and it leads to
-- another.
abbrev pub Ends : {C : Type 0} → Rules → Rules → World C × Option ApplyError → Type 0
Ends c s (w, r) =
    All (λ d. (recovered d ≡ c) ⊎ ((r ≡ none) × (w.window.status ≡ accepted) × (recovered d ≡ s)))
      w.disks

All-map {ℓ κ μ} :
    {A : Type ℓ} (P : A → Type κ) (Q : A → Type μ) (xs : List A)
    → ((x : A) → P x → Q x)
    → All P xs
    → All Q xs
All-map P Q [] f k = tt
All-map P Q (x ∷ xs) f k = (f x k.0, All-map P Q xs f k.1)

Safe-Ends :
    {C : Type 0} → (c s : Rules) (w : World C) (r : Option ApplyError) → Safe c w → Ends c s (w, r)
Safe-Ends c s w r k = All-map _ _ w.disks (λ d h. inl h) k.0

-- Inside the window: the marker is there, and the current set is the one that is tried.
abbrev Trying : {C : Type 0} → Rules → Rules → World C → Type 0
Trying {C = C} c s w =
    Safe c w × ((before : Option C) × (w.marker ≡ some before)) × (w.store.file.current ≡ s)

confirm-Ends :
    {C : Type 0}
    → (e : ApplyEnv C) (c s : Rules) (w : World C) → Trying c s w
    → w.window.status ≡ accepted
    → Ends c s (confirm e w, none)
unfolding confirm
confirm-Ends {C = C} e c s w k a =
    let old = All-map _ _ w.disks (λ d h. inl h) k.0.0 in
    if-elim {A = World C}
      (λ v. Ends c s (log apply_accepted (record v { last_apply = some e.ended }), none)) e.clears
      (passes (record w { marker = none })) w (λ r. (inr (refl, a, k.2), old)) (λ r. old)

conclude-Ends :
    {C : Type 0}
    → (e : ApplyEnv C) (p : RulesState) (before : Option C) (c s : Rules) (w : World C)
    → Trying c s w
    → Ends c s (conclude e p before w, none)
unfolding conclude wake
conclude-Ends {C = C} e p before c s w k =
    let v : World C = record w { window = (wake w.window).0 } in
    let u : World C = log apply_rolledback v in
    if-elim {A = World C} (λ x. Ends c s (x, none)) w.window.accepted (confirm e v)
      (rollback e.undo p before u) (λ a. confirm-Ends e c s v k (rw a refl))
      (λ a. Safe-Ends c s (rollback e.undo p before u) none (rollback-Safe e.undo p before c u k.0))

log_findings-SameFiles :
    {C : Type 0} → (ts : List Text) (w : World C) → SameFiles w (log_findings ts w)
log_findings-SameFiles [] w = (refl, refl, refl)
log_findings-SameFiles (t ∷ ts) w = log_findings-SameFiles ts (log (build_finding t) w)

Trying-SameFiles :
    {C : Type 0} → (c s : Rules) (w v : World C) → SameFiles w v → Trying c s w → Trying c s v
Trying-SameFiles c s w v k t =
    (Safe-SameFiles c w v k t.0, (t.1.0, k.1 ∙ t.1.1), ground (arith, k.0, t.2))

settle-Ends :
    {C : Type 0}
    → (e : ApplyEnv C) (p : RulesState) (before : Option C) (c s : Rules) (w : World C)
    → e.acceptance_on ≡ true
    → Trying c s w
    → Ends c s (settle e p before w, none)
unfolding settle
settle-Ends {C = C} e p before c s w on k =
    let x = log_findings e.findings w in
    let v = record_applied_config e.records e.live x in
    let same : SameFiles w v = ground (arith, log_findings-SameFiles e.findings w) in
    if-elim {A = World C} (λ x. Ends c s (x, none)) (not e.acceptance_on)
      (log apply_accepted (record (log apply_started v) { last_apply = some e.ended }))
      (conclude e p before v) (λ h. absurd (ground arith))
      (λ h. conclude-Ends e p before c s v (Trying-SameFiles c s w v same k))

-- What is left to do after a write that failed or that panic mode met.
undo-Ends :
    {C : Type 0}
    → (e : ApplyEnv C) (p : RulesState) (before : Option C) (c s : Rules)
    → (r : Option ApplyError) (w v : World C) → SameFiles w v
    → Safe c w
    → Ends c s (rollback e.undo p before v, r)
undo-Ends e p before c s r w v same k =
    Safe-Ends c s (rollback e.undo p before v) r
      (rollback-Safe e.undo p before c v (Safe-SameFiles c w v same k))

write-Ends :
    {C : Type 0}
    → (e : ApplyEnv C) (p : RulesState) (before : Option C) (u : RulesState)
    → (c s : Rules) (w : World C) → e.acceptance_on ≡ true
    → Trying c s w
    → Ends c s (write e p before u w)
unfolding write panic_landed_during_write
write-Ends {C = C} e p before u c s w on k =
    let x = write_table e.write u.current e.live w in
    let same : SameFiles w x = ground arith in
    let bad : World C =
      panic_landed_during_write (is_engaged e.panic_now) apply_refused_panic e.torn
        (log apply_failed (reset_window x)) in
    let met : World C =
      reset_window (panic_landed_during_write true apply_refused_panic e.torn x) in
    if-elim (Ends c s) (has_error e.write) (rollback e.undo p before bad, some failed) _
      (λ h. undo-Ends e p before c s (some failed) w bad ground arith k.0)
      (λ h.
        if-elim (Ends c s) (is_engaged e.panic_now) (rollback e.undo p before met, some panic_mode)
          (settle e p before x, none)
          (λ h. undo-Ends e p before c s (some panic_mode) w met ground arith k.0)
          (λ h. settle-Ends e p before c s x on (Trying-SameFiles c s w x same k)))

abbrev Answers : {C : Type 0} → Rules → Rules → Result C → Type 0
Answers {C = C} c s o = (x : World C × Option ApplyError) × (o ≡ some x) × Ends c s x

open_window-Ends :
    {C : Type 0}
    → (e : ApplyEnv C) (p : RulesState) (before : Option C) (u : RulesState)
    → (c s : Rules) (w : World C) → e.acceptance_on ≡ true
    → is_pending w.window.status ≡ false
    → Trying c s w
    → Answers c s (open_window e p before u w)
unfolding open_window
open_window-Ends {C = C} e p before u c s w on idle k =
    let (b, opens, agrees, d) = start_total e.now e.length w.window idle in
    let ((v, t), runs, _, _) = run_total e.calls (b, told_at_start w.window.stopping) agrees in
    let x : World C = record (log apply_started w) { window = v } in
    (write e p before u x, ground (arith, opens, runs), write-Ends e p before u c s x on k)

promote-Ends :
    {C : Type 0}
    → (e : ApplyEnv C) (p : RulesState) (before : Option C) (c : Rules) (w : World C)
    → e.acceptance_on ≡ true
    → is_pending w.window.status ≡ false
    → Safe c w
    → (m : Option C) → w.marker ≡ some m
    → w.store.file.current ≡ c
    → Answers c w.store.file.staged (promote e p before w)
unfolding promote promote_staged get_state
promote-Ends {C = C} e p before c w on idle k m marked cur =
    let s = w.store.file.staged in
    let cleared : World C = log apply_failed (clear_unconfirmed e.clears w) in
    let safe : Safe c cleared = ground arith in
    let promoted = record w.store { file = record w.store.file { current = s } } in
    let x : World C = put_store promoted w in
    let tried : Safe c x = ground arith in
    let read : World C = log apply_failed x in
    elim (Bool-cases e.promotes.reads) [
      | inr a ↦ ((cleared, some failed), ground arith, Safe-Ends c s cleared (some failed) safe)
      | inl a ↦ elim (Bool-cases e.promotes.writes) [
        | inr b ↦ ((cleared, some failed), ground arith, Safe-Ends c s cleared (some failed) safe)
        | inl b ↦ elim (Bool-cases e.rereads.reads) [
          | inr d ↦ ((read, some failed), ground arith, Safe-Ends c s read (some failed) tried)
          | inl d ↦
              let (y, q, h) =
                open_window-Ends e p before promoted.file c s x on idle
                  (tried, (m, marked), refl) in
              (y, ground (arith, q), h)
        ]
      ]
    ]

back_up-Ends :
    {C : Type 0}
    → (e : ApplyEnv C) (p : RulesState) (w : World C) → e.acceptance_on ≡ true
    → is_pending w.window.status ≡ false
    → w.marker ≡ none
    → w.disks ≡ []
    → Answers w.store.file.current w.store.file.staged (back_up e p w)
unfolding back_up backup_current
back_up-Ends {C = C} e p w on idle absent fresh =
    let c = w.store.file.current in
    let s = w.store.file.staged in
    let before = applied_config e.reads_applied w in
    let backed = record w.store { file = record w.store.file { backup = c } } in
    let x : World C = put_store backed w in
    let marked : World C = mark_unconfirmed before x in
    let safe : Safe c marked = ground arith in
    let unmarked : World C = log apply_failed x in
    let untouched : World C = log apply_failed w in
    elim (Bool-cases e.backs_up.reads) [
      | inr a ↦ ((untouched, some failed), ground arith, ground arith)
      | inl a ↦ elim (Bool-cases e.backs_up.writes) [
        | inr b ↦ ((untouched, some failed), ground arith, ground arith)
        | inl b ↦ elim (Bool-cases e.marks) [
          | inr d ↦ ((unmarked, some failed), ground arith, ground arith)
          | inl d ↦
              let (y, q, h) = promote-Ends e p before c marked on idle safe before refl refl in
              (y, ground (arith, q), h)
        ]
      ]
    ]

-- An apply with the acceptance window switched on, which starts with no window open, no apply left
-- unconfirmed on the disk and no disk noted in World.disks yet: whatever the file system, the kernel, the panic marker and the
-- other goroutines do, it returns, and wherever the core is stopped on the way, the set that the
-- next start takes for the confirmed one is the set from before the apply, or it is the staged set
-- and the window was accepted.
pub apply-Ends :
    {C : Type 0}
    → (e : ApplyEnv C) (w : World C) → e.acceptance_on ≡ true
    → is_pending w.window.status ≡ false
    → w.marker ≡ none
    → w.disks ≡ []
    → (x : World C × Option ApplyError) × (apply e w ≡ some x)
      × Ends w.store.file.current w.store.file.staged x
unfolding apply get_state
apply-Ends {C = C} e w on idle absent fresh = elim (Bool-cases (is_engaged e.panic)) [
  | inl a ↦ ((log apply_refused_panic w, some panic_mode), ground arith, ground arith)
  | inr a ↦ elim (Bool-cases e.reads.reads) [
    | inr b ↦ ((log apply_failed w, some failed), ground arith, ground arith)
    | inl b ↦
        let (y, q, h) = back_up-Ends e w.store.file w on idle absent fresh in
        (y, ground (arith, q), h)
  ]
]
