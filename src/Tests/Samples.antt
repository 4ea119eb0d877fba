-- ===== src/Tests/Samples.antt =====
-- The samples that the tests share.
use easywall.Prelude.{false, true, none, [], ◌∷◌, ◌++◌, ◌≡◌, refl}
use easywall.Text.{codes, pos, contains, same}
use easywall.Rules.{PortRule, Rules, RulesState, no_rules, scope_host}
use easywall.Rules.Validate.{validate_rules, is_one_statement}
use easywall.Rules.Ids.{valid_rule_id}
use easywall.Rules.Feeds.{known_feed, is_country_feed}
use easywall.Rules.Ids.Ensure.{IdsOk}
use easywall.Rules.Validate.Storable.{IsStorable}
use easywall.Rules.Validate.Accepts.{validate_rules-IsStorable}
use easywall.Store.{Store}

abbrev pub ssh_rule : PortRule
ssh_rule = record {
  id = codes "0123456789ab";
  port = codes "22";
  description = codes "admin";
  ssh = true;
  scope = [];
  sources = [];
  service = [];
}

abbrev pub web_rule : PortRule
web_rule = record {
  id = codes "00ff00ff00ff";
  port = codes "8000:8080";
  description = codes "web";
  ssh = false;
  scope = scope_host;
  sources = codes " 10.0.0.0/8" ∷ codes "# office" ∷ [];
  service = codes "http";
}

-- The same rule twice on one port, without an id on the second.
abbrev pub copied_rule : PortRule
copied_rule = record ssh_rule { id = codes "0123456789ab"; port = codes "2222" }

abbrev pub sample_rules : Rules
sample_rules = record {
  tcp = ssh_rule ∷ web_rule ∷ [];
  udp = [];
  blocklist = codes "2001:db8::/32" ∷ codes "# scanners" ∷ [];
  allowlist = codes "192.168.1.7" ∷ [];
  forwarding = record { protocol = codes "tcp"; source_port = pos 80; dest_port = pos 8080 } ∷ [];
  custom = codes "-A FILTER -j LOG" ∷ [];
  feeds = codes "country-de" ∷ codes "cins" ∷ [];
}

abbrev pub copied_rules : Rules
copied_rules = record no_rules { tcp = ssh_rule ∷ copied_rule ∷ [] }

abbrev pub sample_file : RulesState
sample_file = record { current = no_rules; staged = sample_rules; backup = no_rules }

abbrev pub sample_store : Store
sample_store = record { file = sample_file; next = 3 }

pub sample_rules_accepted : validate_rules sample_rules ≡ none
unfolding validate_rules valid_rule_id contains known_feed is_country_feed is_one_statement
sample_rules_accepted = refl

pub sample_rules-IsStorable : IsStorable sample_rules
sample_rules-IsStorable = (validate_rules-IsStorable sample_rules).0 sample_rules_accepted

pub sample_rules-IdsOk : IdsOk [] (sample_rules.tcp ++ sample_rules.udp)
unfolding valid_rule_id contains same
sample_rules-IdsOk = (refl, refl, (refl, refl, tt))
