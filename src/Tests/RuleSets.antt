-- ===== src/Tests/RuleSets.antt =====
-- Rule sets: addresses, numbers, the validation and the ids.
use easywall.Prelude.{◌≡◌, ◌↔◌, refl, arith, true, false, none, some, [], ◌∷◌, ◌++◌}
use easywall.Text.{codes, same, contains, trim_space, pos, negsuc, atoi}
use easywall.Text.Address.{parse_ip, parse_cidr}
use easywall.Rules.{Rules}
use easywall.Rules.Ids.{
  Walk, ensure_rule_ids, ensure_list, ensure_rule, needs_id, valid_rule_id, draw, new_rule_id,
}
use easywall.Rules.Ids.Ensure.{IdsOk, Kept, seen_after}
use easywall.Rules.Ids.Walks.{ensure_rule_ids-IdsOk}
use easywall.Rules.Validate.{validate_rules, validate_port_rule}
use easywall.Rules.Validate.Storable.{IsStorable}
use easywall.Rules.Validate.Accepts.{validate_rules-IsStorable}
use easywall.Tests.Source.{numbered, numbered-IsSource}
use easywall.Tests.Samples.{ssh_rule, sample_rules, copied_rules}

addresses :
    (parse_ip (codes "192.168.1.7") ≡ true)
    × (parse_ip (codes "192.168.01.7") ≡ false)
    × (parse_ip (codes "::ffff:10.0.0.1") ≡ true)
    × (parse_ip (codes "1:2:3:4:5:6:7::") ≡ true)
    × (parse_ip (codes "1:2:3:4:5:6:7:8:9") ≡ false)
    × (parse_cidr (codes "2001:db8::/32") ≡ true)
    × (parse_cidr (codes "10.0.0.0/33") ≡ false)
    × (parse_cidr (codes "10.0.0.0") ≡ false)
unfolding parse_ip parse_cidr
addresses = (refl, refl, refl, refl, refl, refl, refl, refl)

numbers :
    (atoi (codes "+80") ≡ some (pos 80))
    × (atoi (codes "-1") ≡ some (negsuc 0))
    × (atoi (codes "8 0") ≡ none)
    × (trim_space (codes "  a b ") ≡ codes "a b")
unfolding atoi trim_space
numbers = (refl, refl, refl, refl)

-- Leading signs and zeros are ports.
signed_ports :
    (validate_port_rule (record ssh_rule { port = codes "+80" }) ≡ none)
    × (validate_port_rule (record ssh_rule { port = codes "080" }) ≡ none)
unfolding validate_port_rule
signed_ports = (refl, refl)

validate_rules-IsStorable_example : (validate_rules sample_rules ≡ none) ↔ IsStorable sample_rules
validate_rules-IsStorable_example = validate_rules-IsStorable sample_rules

ensure_rule_ids-IdsOk_example :
    (r' : Rules) × (w : Walk) × (ensure_rule_ids 8 numbered 0 copied_rules ≡ some (r', w))
    × IdsOk [] (r'.tcp ++ r'.udp)
    × Kept [] copied_rules.tcp r'.tcp
    × Kept (seen_after [] r'.tcp) copied_rules.udp r'.udp
    × (r' ≡ record copied_rules { tcp = r'.tcp; udp = r'.udp })
    × ((w.changed ≡ false) ↔ (r' ≡ copied_rules))
ensure_rule_ids-IdsOk_example =
    ensure_rule_ids-IdsOk 8 numbered 0 copied_rules numbered-IsSource (omega arith)

-- The second rule with an id in use gets a new one; the first keeps its own.
redrawn :
    ensure_rule_ids 8 numbered 0 copied_rules
    ≡ some (
      record copied_rules {
        tcp = ssh_rule ∷ (record ssh_rule { id = codes "000000000000"; port = codes "2222" }) ∷ [];
      },
      record { seen = codes "000000000000" ∷ codes "0123456789ab" ∷ []; next = 1; changed = true },
    )
unfolding ensure_rule_ids ensure_list ensure_rule needs_id valid_rule_id contains same draw
    new_rule_id
redrawn = refl
