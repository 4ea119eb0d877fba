-- ===== src/Usage.antt =====
-- internal/core/usage.go: what the port rules have carried, booked from kernel counters that start
-- again with every table that is written. A uint64 wraps at 2 ^ 64. A map is what it holds under
-- each key, so that a loop over it is a function of the key. CollectedAt is left out.
pub mod Traffic
pub mod Bounded
pub mod Exact
use easywall.Prelude.{
  ℕ, ◌+◌, ◌-◌, ◌%◌, Bool, true, false, not, ◌&&◌, ◌||◌, Option, none, some, List, [], ◌∷◌, ltb, leb,
  if◌then◌else◌, is_nil,
}
use easywall.Text.{Text, codes, same, has_prefix}
use easywall.Text.Table.{Table, empty_table}
use easywall.Rules.{PortRule, Rules}

abbrev pub modulus : ℕ
modulus = 18446744073709551616

-- shared.RuleUsage. An instant that is missing is time.Time's zero.
pub record RuleUsage : Type 0 where
  pub packets : ℕ
  pub bytes : ℕ
  pub first_seen : Option ℕ
  pub last_seen : Option ℕ
  pub kernel_packets : ℕ
  pub kernel_bytes : ℕ

pub record RuleCounter : Type 0 where
  pub packets : ℕ
  pub bytes : ℕ

abbrev pub no_usage : RuleUsage
no_usage = record {
  packets = 0;
  bytes = 0;
  first_seen = none;
  last_seen = none;
  kernel_packets = 0;
  kernel_bytes = 0;
}

-- usage.json: not there, not readable, not JSON, or a record.
pub data File : Type 0 where
  missing unreadable unparsable : File
  holds : Table RuleUsage → File

-- read. The warning about a file that does not parse is not modelled.
unfoldable pub read : File → Option (Table RuleUsage)
read missing = some empty_table
read unreadable = none
read unparsable = some empty_table
read (holds usage) = some usage

-- write: the file, and whether there was an error.
abbrev pub write_usage : Bool → Table RuleUsage → File → File × Bool
write_usage writable usage file = if writable then (holds usage, false) else (file, true)

-- IsReservedRuleID of nftables.go.
unfoldable pub is_reserved_rule_id : Text → Bool
is_reserved_rule_id id = has_prefix id (codes "_")

-- What has arrived since the baseline: everything, where the counter has started again.
abbrev pub delta : ℕ → ℕ → ℕ
delta now baseline = if leb baseline now then now - baseline else now

abbrev pub first : Option ℕ → ℕ → Option ℕ
first none now = some now
first (some t) now = some t

-- The body of the loop over the counters.
unfoldable pub book : ℕ → RuleCounter → RuleUsage → RuleUsage
book now kernel entry =
    if ltb 0 (delta kernel.packets entry.kernel_packets)
    then record {
      packets = (entry.packets + delta kernel.packets entry.kernel_packets) % modulus;
      bytes = (entry.bytes + delta kernel.bytes entry.kernel_bytes) % modulus;
      first_seen = first entry.first_seen now;
      last_seen = some now;
      kernel_packets = kernel.packets;
      kernel_bytes = kernel.bytes;
    }
    else record entry { kernel_packets = kernel.packets; kernel_bytes = kernel.bytes }

abbrev pub entry_or_new : Option RuleUsage → RuleUsage
entry_or_new none = no_usage
entry_or_new (some entry) = entry

booked : ℕ → Option RuleCounter → Bool → Option RuleUsage → Option RuleUsage
booked now none live entry = entry
booked now (some kernel) false entry = entry
booked now (some kernel) true entry = some (book now kernel (entry_or_new entry))

-- The two loops of Collect, at one id.
unfoldable pub collected : ℕ → Table RuleCounter → (Text → Bool) → Table RuleUsage → Table RuleUsage
unfolding booked
collected now counters live usage id =
    if is_reserved_rule_id id || not (live id)
    then none
    else booked now (counters id) (live id) (usage id)

-- Collect.
unfoldable pub collect : ℕ → Bool → Table RuleCounter → (Text → Bool) → File → File × Bool
unfolding read
collect now writable counters live file = elim (read file) [
  | none ↦ (file, true)
  | some usage ↦ write_usage writable (collected now counters live usage) file
]

abbrev pub rebased : Option RuleUsage → Option RuleUsage
rebased none = none
rebased (some entry) = some (record entry { kernel_packets = 0; kernel_bytes = 0 })

-- ResetBaselines.
unfoldable pub reset_baselines : Bool → File → File × Bool
unfolding read
reset_baselines writable file = elim (read file) [
  | none ↦ (file, true)
  | some usage ↦ write_usage writable (λ id. rebased (usage id)) file
]

abbrev names : Text → List PortRule → Bool
names id [] = false
names id (r ∷ rs) = (not (is_nil r.id) && same r.id id) || names id rs

-- liveRuleIDs, of the two sets in the stored state.
unfoldable pub live_rule_ids : Rules → Rules → Text → Bool
live_rule_ids current staged id =
    (names id current.tcp || names id current.udp) || (names id staged.tcp || names id staged.udp)

-- CollectUsage: what the kernel and the rules file answer, none where they cannot be read.
unfoldable pub collect_usage :
    ℕ → Bool → Option (Table RuleCounter) → Option (Rules × Rules) → File → File × Bool
unfolding collect live_rule_ids
collect_usage now writable none stored file = (file, true)
collect_usage now writable (some counters) none file = (file, true)
collect_usage now writable (some counters) (some (current, staged)) file =
    collect now writable counters (live_rule_ids current staged) file
