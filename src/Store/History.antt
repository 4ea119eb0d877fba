-- ===== src/Store/History.antt =====
-- Histories of calls of the store.
use easywall.Prelude.{
  ℕ, ◌⊎◌, inl, inr, ◌+◌, ◌≤◌, ◌≡◌, refl, Option, none, some, List, [], ◌∷◌, arith, ◌>>=◌,
}
use easywall.Text.{Text}
use easywall.Rules.{Rules, RulesState, no_rules}
use easywall.Rules.Ids.Ensure.{IsSource}
use easywall.Rules.Validate.{validate_rules}
use easywall.Rules.Validate.Storable.{IsStorable}
use easywall.Rules.Validate.Accepts.{validate_rules-IsStorable}
use easywall.Store.{
  Io, Error, Store, Payload, empty_state, backup_current, promote_staged, rollback, import_decoded,
}
use easywall.Store.Invariant.{
  Op, saves, imports, backups, promotes, rollbacks, step, Outcome, FitsRules, Fits, Staged,
  save_staged-Answers, import_decoded-Answers, backup_current-Wrote, promote_staged-Wrote,
  rollback-Wrote,
}

abbrev pub AllStorable : RulesState → Type 0
AllStorable f = IsStorable f.current × IsStorable f.staged × IsStorable f.backup

-- The answer of a call and the bound that the file's staged set keeps.
abbrev pub Keeps : ℕ → Op → Store → Store × Option Error → Type 0
Keeps m op s a = Outcome op s a × FitsRules m a.0.file.staged

Staged-saves :
    (m : ℕ) (rule_type : Text) (p : Payload) (s : Store) (a : Store × Option Error)
    → FitsRules m s.file.staged
    → Staged m s a
    → Keeps m (saves rule_type p) s a
Staged-saves m rule_type p s (t, some e) f k = (k, ground arith)
Staged-saves m rule_type p s (t, none) f (c, b, v, i, f') = ((c, b, v, i), f')

Staged-imports :
    (m : ℕ) (r : Option Rules) (s : Store) (a : Store × Option Error)
    → FitsRules m s.file.staged
    → Staged m s a
    → Keeps m (imports r) s a
Staged-imports m r s (t, some e) f k = (k, ground arith)
Staged-imports m r s (t, none) f (c, b, v, i, f') = ((c, b, v, i), f')

-- The calls that copy one set over another leave the staged one alone.
abbrev Copies : Op → Type 0
Copies op = (op ≡ backups) ⊎ ((op ≡ promotes) ⊎ (op ≡ rollbacks))

Outcome-FitsRules :
    (m : ℕ) (op : Op) (s : Store) (a : Store × Option Error)
    → Copies op
    → FitsRules m s.file.staged
    → Outcome op s a
    → FitsRules m a.0.file.staged
Outcome-FitsRules m backups s (t, some e) c f k = rw k f
Outcome-FitsRules m promotes s (t, some e) c f k = rw k f
Outcome-FitsRules m rollbacks s (t, some e) c f k = rw k f
Outcome-FitsRules m backups s (t, none) c f k = rw k f
Outcome-FitsRules m promotes s (t, none) c f k = rw k f
Outcome-FitsRules m rollbacks s (t, none) c f k = rw k f
Outcome-FitsRules m (saves rule_type p) s a c f k = ground arith
Outcome-FitsRules m (imports r) s a c f k = ground arith

-- A call that ended so keeps a file of storable sets one.
Outcome-AllStorable :
    (op : Op) (s : Store) (a : Store × Option Error)
    → Outcome op s a
    → AllStorable s.file
    → AllStorable a.0.file
Outcome-AllStorable (saves rule_type p) s (t, some e) k v = rw k v
Outcome-AllStorable (imports r) s (t, some e) k v = rw k v
Outcome-AllStorable backups s (t, some e) k v = rw k v
Outcome-AllStorable promotes s (t, some e) k v = rw k v
Outcome-AllStorable rollbacks s (t, some e) k v = rw k v
Outcome-AllStorable (saves rule_type p) s (t, none) (c, b, w, i) v = (rw c v.0, w, rw b v.2)
Outcome-AllStorable (imports r) s (t, none) (c, b, w, i) v = (rw c v.0, w, rw b v.2)
Outcome-AllStorable backups s (t, none) k v = rw k (v.0, v.1, v.0)
Outcome-AllStorable promotes s (t, none) k v = rw k (v.1, v.1, v.2)
Outcome-AllStorable rollbacks s (t, none) k v = rw k (v.2, v.1, v.2)

unfoldable pub run : ℕ → (ℕ → List ℕ) → List (Io × Op) → Store → Option Store
run fuel source [] s = some s
run fuel source ((io, op) ∷ ops) s = step fuel source io op s >>= λ a. run fuel source ops a.0

abbrev pub AllFit : ℕ → List (Io × Op) → Type 0
AllFit m [] = Unit {0}
AllFit m ((io, op) ∷ ops) = Fits m op × AllFit m ops

module _ (fuel : ℕ) (source : ℕ → List ℕ) (m : ℕ) (src : IsSource fuel source)
    (h : m + m ≤ fuel) where
  pub step-Keeps :
      (io : Io) (op : Op) (s : Store)
      → Fits m op
      → FitsRules m s.file.staged
      → (a : Store × Option Error) × (step fuel source io op s ≡ some a) × Keeps m op s a
  unfolding step import_decoded
  step-Keeps io (saves rule_type p) s fp f =
      let (a, e, k) = save_staged-Answers fuel source m src h io rule_type p s fp f in
      (a, e, Staged-saves m rule_type p s a f k)
  step-Keeps io (imports none) s fp f = ((s, some Error.undecodable), refl, (refl, f))
  step-Keeps io (imports (some r)) s fp f =
      let (a, e, k) = import_decoded-Answers fuel source m src h io r s fp in
      (a, e, Staged-imports m (some r) s a f k)
  step-Keeps io backups s fp f =
      let k = backup_current-Wrote io s in
      (
        backup_current io s,
        refl,
        (k, Outcome-FitsRules m backups s (backup_current io s) (inl refl) f k),
      )
  step-Keeps io promotes s fp f =
      let k = promote_staged-Wrote io s in
      (
        promote_staged io s,
        refl,
        (k, Outcome-FitsRules m promotes s (promote_staged io s) (inr (inl refl)) f k),
      )
  step-Keeps io rollbacks s fp f =
      let k = rollback-Wrote io s in
      (
        rollback io s,
        refl,
        (k, Outcome-FitsRules m rollbacks s (rollback io s) (inr (inr refl)) f k),
      )

  run-AllStorable :
      (ops : List (Io × Op)) (s : Store)
      → AllFit m ops
      → FitsRules m s.file.staged
      → AllStorable s.file
      → (t : Store) × (run fuel source ops s ≡ some t) × AllStorable t.file
  unfolding run
  run-AllStorable [] s a f v = (s, refl, v)
  run-AllStorable ((io, op) ∷ ops) s a f v =
      let (b, e, k) = step-Keeps io op s a.0 f in
      let (t, e', v') = run-AllStorable ops b.0 a.1 k.1 (Outcome-AllStorable op s b k.0 v) in
      (t, rw (e, run) e', v')

  no_rules-IsStorable : IsStorable no_rules
  unfolding validate_rules
  no_rules-IsStorable = (validate_rules-IsStorable no_rules).0 refl

  -- With a random source whose draws are ids and do not repeat within the fuel, and no more than
  -- `m` port rules of one protocol in every payload, where the fuel is at least 2 * m: every history
  -- of calls on a new installation's file ends, whatever fails on the way, with three storable sets.
  pub run_new-AllStorable :
      (ops : List (Io × Op)) (next : ℕ)
      → AllFit m ops
      → (t : Store) × (run fuel source ops (record { file = empty_state; next = next }) ≡ some t)
        × AllStorable t.file
  run_new-AllStorable ops next a =
      let v = no_rules-IsStorable in
      run-AllStorable ops (record { file = empty_state; next = next }) a (omega arith) (v, v, v)
