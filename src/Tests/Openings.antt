-- ===== src/Tests/Openings.antt =====
-- The port rule of the host of Tests.Tables, and whom it lets in.
use easywall.Prelude.{◌↔◌, ◌≡◌, ◌∙◌, sym, refl, true, Option, none, some, subst, [], ◌∷◌, All}
use easywall.Text.{codes, same, trim_space}
use easywall.Nftables.{input_chain}
use easywall.Nftables.Net.{IpNet, to4, unmapped, parse_network, and_bytes, cidr_mask}
use easywall.Nftables.Match.{entry_net}
use easywall.Nftables.Accepts.{add_port_accepts}
use easywall.Nftables.Netfilter.{accepted, walk}
use easywall.Rules.Validate.{validate_port_rule}
use easywall.Rules.Validate.Storable.{IsPortRule}
use easywall.Rules.Validate.Ports.{validate_port_rule-none}
use easywall.Nftables.Admitted.{any, opened_to}
use easywall.Nftables.Admitted.Sources.{IsMeasured, IsMeasuredSource}
use easywall.Nftables.Admitted.Opened.{add_port_accepts-opened}
use easywall.Tests.Tables.{kernel, library, web_rule, packet, client}

ten :
    entry_net library (trim_space (codes "10.0.0.0/8"))
    ≡ some (record { ip = 10 ∷ 0 ∷ 0 ∷ 0 ∷ []; bits = 8 })
unfolding entry_net trim_space unmapped parse_network and_bytes cidr_mask to4 same
ten = refl

ten-IsMeasured : IsMeasured (record { ip = 10 ∷ 0 ∷ 0 ∷ 0 ∷ []; bits = 8 })
unfolding to4
ten-IsMeasured = refl

abbrev IsRead : Option IpNet → Type 0
IsRead none = ⊥
IsRead (some n) = IsMeasured n

web_rule-IsMeasuredSource : All (IsMeasuredSource library) web_rule.sources
web_rule-IsMeasuredSource = ((λ n e. subst IsRead (sym ten ∙ e) ten-IsMeasured), tt)

web_rule-IsPortRule : IsPortRule web_rule
unfolding validate_port_rule
web_rule-IsPortRule = validate_port_rule-none web_rule refl

add_port_accepts-opened_example :
    (walk kernel 3
        (add_port_accepts library input_chain 6 (web_rule ∷ []))
        input_chain
        (add_port_accepts library input_chain 6 (web_rule ∷ []))
        (packet client 8 8080)
      ≡ accepted)
    ↔ (any (opened_to kernel (packet client 8 8080) library 6) (web_rule ∷ []) ≡ true)
add_port_accepts-opened_example =
    add_port_accepts-opened kernel (packet client 8 8080) library 6 (web_rule ∷ []) 3
      (web_rule-IsPortRule, tt) (web_rule-IsMeasuredSource, tt)
