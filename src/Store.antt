-- ===== src/Store.antt =====
-- internal/core/rules.go: RulesStore, the three rule sets in rules.json. Every method holds the
-- mutex, so it is one step from the file before to the file after. What encoding/json and the
-- file system answer is an argument of each call: whether the file could be read and parsed,
-- whether the temporary file could be written and renamed over it, and what a payload decodes to.
pub mod Invariant
pub mod Cycle
pub mod History
pub mod Import
use easywall.Prelude.{
  ℕ, Bool, true, false, not, ◌||◌, Option, none, some, List, [], ◌∷◌, if◌then◌else◌, ◌>>=◌,
}
use easywall.Text.{Text, codes, same}
use easywall.Rules.{PortRule, ForwardingRule, Rules, RulesState, no_rules}
use easywall.Rules.Ids.{Walk, ensure_rule_ids}
use easywall.Rules.Validate
use easywall.Rules.Validate.{validate_rules}

-- How the file system answers one call.
pub record Io : Type 0 where
  pub reads : Bool
  pub writes : Bool

pub data Error : Type 0 where
  read_failed write_failed undecodable unknown_rule_type : Error
  invalid : Validate.Error → Error

-- The file, and the number of random reads made so far.
pub record Store : Type 0 where
  pub file : RulesState
  pub next : ℕ

-- What a JSON value decodes to at the types that SaveStaged asks for.
pub record Payload : Type 0 where
  pub as_ports : Option (List PortRule)
  pub as_texts : Option (List Text)
  pub as_forwards : Option (List ForwardingRule)

-- getState
unfoldable pub get_state : Io → Store → Option RulesState
get_state io s = if io.reads then some s.file else none

-- save: a temporary file and a rename. A failure leaves the file as it was.
unfoldable pub save : Io → RulesState → Store → Store × Option Error
save io state s = if io.writes then (record s { file = state }, none) else (s, some write_failed)

-- A method that reads the file, changes what it read and writes it back.
unfoldable pub rewrite : Io → (RulesState → RulesState) → Store → Store × Option Error
unfolding get_state save
rewrite io f s = elim (get_state io s) [
  | none ↦ (s, some read_failed)
  | some state ↦ save io (f state) s
]

-- emptyState
abbrev pub empty_state : RulesState
empty_state = record { current = no_rules; staged = no_rules; backup = no_rules }

-- BackupCurrent
unfoldable pub backup_current : Io → Store → Store × Option Error
unfolding rewrite
backup_current io s = rewrite io (λ state. record state { backup = state.current }) s

-- PromoteStaged
unfoldable pub promote_staged : Io → Store → Store × Option Error
unfolding rewrite
promote_staged io s = rewrite io (λ state. record state { current = state.staged }) s

-- Rollback
unfoldable pub rollback : Io → Store → Store × Option Error
unfolding rewrite
rollback io s = rewrite io (λ state. record state { current = state.backup }) s

-- One case of the switch: decode, then set the field.
put : {A : Type 0} → Rules → Option A → (A → Rules) → Rules × Option Error
put r none f = (r, some undecodable)
put r (some v) f = (f v, none)

-- The switch of SaveStaged: the staged rules with one of their sets replaced.
unfoldable pub replace_set : Text → Payload → Rules → Rules × Option Error
unfolding same put
replace_set rule_type p r =
    if same rule_type (codes "tcp")
    then put r p.as_ports (λ v. record r { tcp = v })
    else if same rule_type (codes "udp")
    then put r p.as_ports (λ v. record r { udp = v })
    else if same rule_type (codes "blocklist")
    then put r p.as_texts (λ v. record r { blocklist = v })
    else if same rule_type (codes "allowlist")
    then put r p.as_texts (λ v. record r { allowlist = v })
    else if same rule_type (codes "feeds")
    then put r p.as_texts (λ v. record r { feeds = v })
    else if same rule_type (codes "forwarding")
    then put r p.as_forwards (λ v. record r { forwarding = v })
    else if same rule_type (codes "custom")
    then put r p.as_texts (λ v. record r { custom = v })
    else (r, some unknown_rule_type)

-- Validation, and the write behind it.
store_staged : Io → Rules → Store → Store × Option Error
unfolding save
store_staged io r s = elim (validate_rules r) [
  | some e ↦ (s, some (invalid e))
  | none ↦ save io (record s.file { staged = r }) s
]

-- What ImportRules does behind EnsureRuleIDs.
import_checked : Io → Rules → Store → Store × Option Error
unfolding rewrite
import_checked io r s = elim (validate_rules r) [
  | some e ↦ (s, some (invalid e))
  | none ↦ rewrite io (λ state. record state { staged = r }) s
]

module _ (fuel : ℕ) (source : ℕ → List ℕ) where
  -- EnsureRuleIDs on the rules, then the validation and the write. `none` is a random source that
  -- repeats itself past the fuel.
  unfoldable pub ensure_and_store : Io → Rules → Store → Option (Store × Option Error)
  unfolding store_staged
  ensure_and_store io r s = ensure_rule_ids fuel source s.next r >>= λ d.
      some (store_staged io d.0 (record s { next = d.1.next }))

  -- What SaveStaged does behind its switch.
  store_replaced : Io → Store → Rules × Option Error → Option (Store × Option Error)
  unfolding ensure_and_store
  store_replaced io s (r, some e) = some (s, some e)
  store_replaced io s (r, none) = ensure_and_store io r s

  -- SaveStaged
  unfoldable pub save_staged : Io → Text → Payload → Store → Option (Store × Option Error)
  unfolding get_state replace_set store_replaced
  save_staged io rule_type p s = elim (get_state io s) [
    | none ↦ some (s, some read_failed)
    | some state ↦ store_replaced io s (replace_set rule_type p state.staged)
  ]

  -- ImportRules from its decoding on: the rules are validated before the file is read. The argument
  -- is what the data decodes to.
  unfoldable pub import_decoded : Io → Option Rules → Store → Option (Store × Option Error)
  unfolding import_checked
  import_decoded io none s = some (s, some undecodable)
  import_decoded io (some r) s = ensure_rule_ids fuel source s.next r >>= λ d.
      some (import_checked io d.0 (record s { next = d.1.next }))

  -- backfillIDs: all three sets, and one write if any of them changed.
  unfoldable pub backfill_ids : Io → Store → Option (Store × Option Error)
  unfolding get_state save
  backfill_ids io s = elim (get_state io s) [
    | none ↦ some (s, some read_failed)
    | some state ↦ do
      (c, w) ← ensure_rule_ids fuel source s.next state.current
      (t, w') ← ensure_rule_ids fuel source w.next state.staged
      (b, w'') ← ensure_rule_ids fuel source w'.next state.backup
      some (
          if not (w.changed || (w'.changed || w''.changed))
          then (record s { next = w''.next }, none)
          else save io (record { current = c; staged = t; backup = b })
              (record s { next = w''.next }))
  ]
