-- ===== src/Store/Invariant.antt =====
-- What every call of the store keeps: the stored sets are storable, a call that reports an error
-- leaves the file alone, and a call that does not changes what it is for and nothing else.
use easywall.Prelude.{
  ℕ, ◌+◌, ◌≤◌, ◌≡◌, refl, inl, inr, Option, none, some, List, [], ◌++◌, arith, length, Option-cases,
  Bool-cases,
}
use easywall.Text.{Text}
use easywall.Rules.{PortRule, Rules, RulesState}
use easywall.Rules.Ids.{Walk, ensure_rule_ids}
use easywall.Rules.Ids.Ensure.{IsSource, IdsOk, seen_after}
use easywall.Rules.Ids.Walks.{ensure_rule_ids-IdsOk, Kept-length}
use easywall.Rules.Validate.{validate_rules}
use easywall.Rules.Validate.Storable.{IsStorable}
use easywall.Rules.Validate.Accepts.{validate_rules-IsStorable}
use easywall.Store.{
  Io, Error, Store, Payload, get_state, save, rewrite, backup_current, promote_staged, rollback,
  replace_set, store_staged, ensure_and_store, store_replaced, import_checked, save_staged,
  import_decoded,
}

-- A call of the store.
pub data Op : Type 0 where
  saves : Text → Payload → Op
  imports : Option Rules → Op
  backups promotes rollbacks : Op

module _ (fuel : ℕ) (source : ℕ → List ℕ) where
  unfoldable pub step : Io → Op → Store → Option (Store × Option Error)
  step io (saves rule_type p) s = save_staged fuel source io rule_type p s
  step io (imports r) s = import_decoded fuel source io r s
  step io backups s = some (backup_current io s)
  step io promotes s = some (promote_staged io s)
  step io rollbacks s = some (rollback io s)

-- What the file holds after a call that reported no error.
abbrev pub Wrote : Op → RulesState → RulesState → Type 0
Wrote (saves rule_type p) f g =
    (g.current ≡ f.current)
    × (g.backup ≡ f.backup)
    × IsStorable g.staged
    × IdsOk [] (g.staged.tcp ++ g.staged.udp)
Wrote (imports r) f g =
    (g.current ≡ f.current)
    × (g.backup ≡ f.backup)
    × IsStorable g.staged
    × IdsOk [] (g.staged.tcp ++ g.staged.udp)
Wrote backups f g = g ≡ record f { backup = f.current }
Wrote promotes f g = g ≡ record f { current = f.staged }
Wrote rollbacks f g = g ≡ record f { current = f.backup }

-- The outcome of a call: an error and the file as it was, or no error and what the call is for.
abbrev pub Outcome : Op → Store → Store × Option Error → Type 0
Outcome op s (t, some e) = t.file ≡ s.file
Outcome op s (t, none) = Wrote op s.file t.file

-- No more port rules of one protocol than `m`, in a payload.
abbrev pub FitsPorts : ℕ → Option (List PortRule) → Type 0
FitsPorts m none = Unit {0}
FitsPorts m (some rs) = length rs ≤ m

abbrev pub FitsRules : ℕ → Rules → Type 0
FitsRules m r = (length r.tcp ≤ m) × (length r.udp ≤ m)

abbrev pub Fits : ℕ → Op → Type 0
Fits m (saves rule_type p) = FitsPorts m p.as_ports
Fits m (imports none) = Unit {0}
Fits m (imports (some r)) = FitsRules m r
Fits m _ = Unit {0}

replace_set-Fits :
    (m : ℕ) (rule_type : Text) (p : Payload) (r r' : Rules)
    → FitsPorts m p.as_ports
    → FitsRules m r
    → replace_set rule_type p r ≡ (r', none)
    → FitsRules m r'
unfolding replace_set
replace_set-Fits m rule_type p r r' hp hr e = ground arith

-- A write of the staged set, or none.
abbrev pub Staged : ℕ → Store → Store × Option Error → Type 0
Staged m s (t, some e) = t.file ≡ s.file
Staged m s (t, none) =
    (t.file.current ≡ s.file.current)
    × (t.file.backup ≡ s.file.backup)
    × IsStorable t.file.staged
    × IdsOk [] (t.file.staged.tcp ++ t.file.staged.udp)
    × FitsRules m t.file.staged

store_staged-Staged :
    (m : ℕ) (io : Io) (r : Rules) (s : Store)
    → IdsOk [] (r.tcp ++ r.udp)
    → FitsRules m r
    → Staged m s (store_staged io r s)
unfolding store_staged save
store_staged-Staged m io r s i f = elim (Option-cases (validate_rules r)) [
  | inr (e, p) ↦ rw (p, store_staged) refl
  | inl p ↦
      let k = (validate_rules-IsStorable r).0 p in
      elim (Bool-cases io.writes) [
        | inl w ↦ rw (p, store_staged) (rw (w, save) (refl, refl, k, i, f))
        | inr w ↦ rw (p, store_staged) (rw (w, save) refl)
      ]
]

import_checked-Staged :
    (m : ℕ) (io : Io) (r : Rules) (s : Store)
    → IdsOk [] (r.tcp ++ r.udp)
    → FitsRules m r
    → Staged m s (import_checked io r s)
unfolding import_checked rewrite get_state save
import_checked-Staged m io r s i f = elim (Option-cases (validate_rules r)) [
  | inr (e, p) ↦ rw (p, import_checked) refl
  | inl p ↦
      let k = (validate_rules-IsStorable r).0 p in
      rw (p, import_checked)
        (elim (Bool-cases io.reads) [
          | inr a ↦ rw (a, rewrite, get_state) refl
          | inl a ↦ elim (Bool-cases io.writes) [
            | inl w ↦ rw (a, rewrite, get_state) (rw (w, save) (refl, refl, k, i, f))
            | inr w ↦ rw (a, rewrite, get_state) (rw (w, save) refl)
          ]
        ])
]

-- The rules with their ids, which fit and are in order.
ensured :
    (fuel : ℕ) (source : ℕ → List ℕ) (m next : ℕ) (r : Rules)
    → IsSource fuel source
    → m + m ≤ fuel
    → FitsRules m r
    → (r' : Rules) × (w : Walk) × (ensure_rule_ids fuel source next r ≡ some (r', w))
      × IdsOk [] (r'.tcp ++ r'.udp)
      × FitsRules m r'
ensured fuel source m next r src h f =
    let (r', w, e, i, kt, ku, _, _) = ensure_rule_ids-IdsOk fuel source next r src (omega arith) in
    let lt = Kept-length [] r.tcp r'.tcp kt in
    let lu = Kept-length (seen_after [] r'.tcp) r.udp r'.udp ku in
    (r', w, e, i, (omega (arith, lt), omega (arith, lu)))

pub backup_current-Wrote : (io : Io) (s : Store) → Outcome backups s (backup_current io s)
unfolding backup_current
backup_current-Wrote io s = ground arith

pub promote_staged-Wrote : (io : Io) (s : Store) → Outcome promotes s (promote_staged io s)
unfolding promote_staged
promote_staged-Wrote io s = ground arith

pub rollback-Wrote : (io : Io) (s : Store) → Outcome rollbacks s (rollback io s)
unfolding rollback
rollback-Wrote io s = ground arith

module _ (fuel : ℕ) (source : ℕ → List ℕ) (m : ℕ) (src : IsSource fuel source)
    (h : m + m ≤ fuel) where
  abbrev pub Answers : Store → Option (Store × Option Error) → Type 0
  Answers s o = (a : Store × Option Error) × (o ≡ some a) × Staged m s a

  ensure_and_store-Answers :
      (io : Io) (r : Rules) (s : Store)
      → FitsRules m r
      → Answers s (ensure_and_store fuel source io r s)
  unfolding ensure_and_store
  ensure_and_store-Answers io r s f =
      let (r', w, e, i, f') = ensured fuel source m s.next r src h f in
      (
        store_staged io r' (record s { next = w.next }),
        rw e,
        store_staged-Staged m io r' (record s { next = w.next }) i f',
      )

  store_replaced-Answers :
      (io : Io) (s : Store) (o : Rules × Option Error)
      → (o.1 ≡ none → FitsRules m o.0)
      → Answers s (store_replaced fuel source io s o)
  unfolding store_replaced
  store_replaced-Answers io s (r, some e) f = ((s, some e), refl, refl)
  store_replaced-Answers io s (r, none) f = ensure_and_store-Answers io r s (f refl)

  pub save_staged-Answers :
      (io : Io) (rule_type : Text) (p : Payload) (s : Store)
      → FitsPorts m p.as_ports
      → FitsRules m s.file.staged
      → Answers s (save_staged fuel source io rule_type p s)
  unfolding save_staged get_state
  save_staged-Answers io rule_type p s fp fs = elim (Bool-cases io.reads) [
    | inr a ↦ ((s, some Error.read_failed), ground arith, refl)
    | inl a ↦
        let o = replace_set rule_type p s.file.staged in
        let (x, e, k) =
          store_replaced-Answers io s o
            (λ q. replace_set-Fits m rule_type p s.file.staged o.0 fp fs (λ i. (o.0, q i))) in
        (x, ground (arith, e), k)
  ]

  pub import_decoded-Answers :
      (io : Io) (r : Rules) (s : Store)
      → FitsRules m r
      → Answers s (import_decoded fuel source io (some r) s)
  unfolding import_decoded
  import_decoded-Answers io r s f =
      let (r', w, e, i, f') = ensured fuel source m s.next r src h f in
      let t = record s { next = w.next } in
      (import_checked io r' t, rw e refl, import_checked-Staged m io r' t i f')
