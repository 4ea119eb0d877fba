-- ===== src/Rules.antt =====
-- internal/shared/models.go: the rule sets, and the three of them that rules.json holds.
-- A nil slice and an empty one are both [].
pub mod Renamed
pub mod Feeds
pub mod Ids
pub mod Validate
use easywall.Prelude.{ℕ, Bool, ◌&&◌, List, [], is_nil}
use easywall.Text.{Text, codes, ℤ}

-- PortScope's constants; a scope is any text.
abbrev pub scope_host : Text
scope_host = codes "host"

abbrev pub scope_forwarded : Text
scope_forwarded = codes "forwarded"

abbrev pub scope_both : Text
scope_both = codes "both"

pub record PortRule : Type 0 where
  pub id : Text
  pub port : Text
  pub description : Text
  pub ssh : Bool
  pub scope : Text
  pub sources : List Text
  pub service : Text

pub record ForwardingRule : Type 0 where
  pub protocol : Text
  pub source_port : ℤ
  pub dest_port : ℤ

pub record Rules : Type 0 where
  pub tcp : List PortRule
  pub udp : List PortRule
  pub blocklist : List Text
  pub allowlist : List Text
  pub forwarding : List ForwardingRule
  pub custom : List Text
  pub feeds : List Text

-- Rules.IsEmpty
unfoldable pub is_empty : Rules → Bool
is_empty r =
    is_nil r.tcp
    && is_nil r.udp
    && is_nil r.blocklist
    && is_nil r.allowlist
    && is_nil r.forwarding
    && is_nil r.custom
    && is_nil r.feeds

pub record RulesState : Type 0 where
  pub current : Rules
  pub staged : Rules
  pub backup : Rules

abbrev pub no_rules : Rules
no_rules = record {
  tcp = [];
  udp = [];
  blocklist = [];
  allowlist = [];
  forwarding = [];
  custom = [];
  feeds = [];
}
