-- ===== src/Nftables/Accepts.antt =====
-- The rules of internal/core/nftables.go that decide by who sends and where to: the accepts, the
-- blocklist and the feeds. A function returns the rules that its method adds to the batch.
use easywall.Prelude.{
  ℕ, Bool, true, false, not, ◌&&◌, ◌||◌, Option, none, some, List, [], ◌∷◌, ◌++◌, is_nil,
  if◌then◌else◌,
}
use easywall.Text.{Text, codes, same, trim_space}
use easywall.Rules.{PortRule, scope_host, scope_forwarded, scope_both}
use easywall.Rules.Validate.{is_list_comment}
use easywall.Nftables.{
  Expr, Rule, Kind, rule, meta, payload, ct_state, bitwise, cmp, counter, verdict, accept, drop,
  iifname, transport, eq, neq, LogSpec, LogSink, add_filtered, native_u32, loopback_name,
  ct_state_tracked, ct_state_no_match, input_chain, ipproto_icmp, ipproto_icmpv6,
}
use easywall.Nftables.Net.{Netlib}
use easywall.Nftables.Match.{
  family_is, protocol_is, build_port_exprs, cidr_match, cidr_drop_match, entry_match, pos_src_addr,
}

-- IPv6Mode's constants, and IPv6Config.
pub data Ipv6Mode : Type 0 where
  filter passthrough block : Ipv6Mode

pub record Ipv6Config : Type 0 where
  pub mode : Ipv6Mode
  pub router_advertisement : Bool
  pub neighbor_advertisement : Bool

abbrev pub is_filter : Ipv6Mode → Bool
is_filter filter = true
is_filter passthrough = false
is_filter block = false

-- addFamilyVerdict
unfoldable pub add_family_verdict : Text → ℕ → Kind → List Rule
add_family_verdict c family kind = rule c (family_is family ++ (verdict kind ∷ [])) ∷ []

-- addLoopbackAccept
unfoldable pub add_loopback_accept : Text → List Rule
add_loopback_accept c = rule c (meta iifname 1 ∷ cmp eq 1 loopback_name ∷ verdict accept ∷ []) ∷ []

abbrev pub reserved_id_established : Text
reserved_id_established = codes "_established"

-- A test of the connection's state for one of some bits.
abbrev pub state_has : ℕ → List Expr
state_has bits =
    ct_state 1 ∷ bitwise 1 1 (native_u32 bits) ct_state_no_match ∷ cmp neq 1 ct_state_no_match ∷ []

-- addEstablishedAccept
unfoldable pub add_established_accept : Text → List Rule
unfolding same
add_established_accept c =
    record {
      chain = c;
      exprs = state_has ct_state_tracked ++ (counter ∷ verdict accept ∷ []);
      tag = if same c input_chain then some reserved_id_established else none;
    }
    ∷ []

-- ICMPv4Accepted and ICMPv6Accepted of internal/shared/packetlog.go.
unfoldable pub icmpv4_accepted : Bool → List ℕ
icmpv4_accepted echo = if echo then 8 ∷ [] else []

unfoldable pub icmpv6_accepted : Bool → Bool → Bool → List ℕ
icmpv6_accepted echo router neighbor =
    (if echo then 128 ∷ [] else [])
    ++ ((if router then 133 ∷ 134 ∷ [] else []) ++ (if neighbor then 135 ∷ 136 ∷ [] else []))

abbrev pub icmp_type_is : ℕ → ℕ → List Expr
icmp_type_is proto typ = protocol_is proto ++ (payload transport 1 0 1 ∷ cmp eq 1 (typ ∷ []) ∷ [])

-- addICMPTypeAccept, for each type of a list.
unfoldable pub add_icmp_types_accept : Text → ℕ → List ℕ → List Rule
add_icmp_types_accept c proto [] = []
add_icmp_types_accept c proto (typ ∷ types) =
    rule c (icmp_type_is proto typ ++ (verdict accept ∷ [])) ∷ add_icmp_types_accept c proto types

-- addICMPRules
unfoldable pub add_icmp_rules : Text → Ipv6Config → List Rule
unfolding icmpv6_accepted add_icmp_types_accept
add_icmp_rules c ipv6 =
    if not (is_filter ipv6.mode)
    then []
    else add_icmp_types_accept c ipproto_icmpv6
        (icmpv6_accepted false ipv6.router_advertisement ipv6.neighbor_advertisement)

-- addEchoAccepts
unfoldable pub add_echo_accepts : Text → Bool → Ipv6Config → List Rule
unfolding icmpv4_accepted icmpv6_accepted add_icmp_types_accept
add_echo_accepts c echo ipv6 =
    add_icmp_types_accept c ipproto_icmp (icmpv4_accepted echo)
    ++ (if not (is_filter ipv6.mode)
        then []
        else add_icmp_types_accept c ipproto_icmpv6 (icmpv6_accepted echo false false))

-- One rule with a verdict on a match, if there is one.
abbrev pub on_match : Text → Option (List Expr) → Kind → List Rule
on_match c none kind = []
on_match c (some match) kind = rule c (match ++ (verdict kind ∷ [])) ∷ []

-- addCIDRAccept
unfoldable pub add_cidr_accept : Netlib → Text → Text → List Rule
unfolding is_list_comment trim_space cidr_drop_match
add_cidr_accept net c cidr =
    if is_list_comment cidr then [] else on_match c (cidr_drop_match net (trim_space cidr)) accept

-- addBlocklistRule
unfoldable pub add_blocklist_rule : Netlib → Text → LogSpec → LogSink → Text → List Rule
unfolding entry_match add_filtered
add_blocklist_rule net c lg sink ip = elim (entry_match net ip) [
  | none ↦ []
  | some match ↦ add_filtered c match (verdict drop) lg sink
]

-- addAllowlistRule
unfoldable pub add_allowlist_rule : Netlib → Text → Text → List Rule
unfolding is_list_comment add_cidr_accept entry_match
add_allowlist_rule net c ip = if is_list_comment ip then [] else elim (net.parse_ip ip) [
  | none ↦ add_cidr_accept net c ip
  | some parsed ↦ on_match c (entry_match net ip) accept
]

-- PortRule.FiltersHost and PortRule.FiltersForwarded.
unfoldable pub filters_host : PortRule → Bool
unfolding same
filters_host r = is_nil r.scope || (same r.scope scope_host || same r.scope scope_both)

unfoldable pub filters_forwarded : PortRule → Bool
unfolding same
filters_forwarded r = same r.scope scope_forwarded || same r.scope scope_both

-- The matches of a rule's sources.
unfoldable pub source_matches : Netlib → List Text → List (List Expr)
source_matches net [] = []
source_matches net (src ∷ rest) = elim (cidr_match net src pos_src_addr) [
  | none ↦ source_matches net rest
  | some match ↦ match ∷ source_matches net rest
]

-- portMatch, and the tag that all the kernel rules of a port rule carry.
abbrev pub port_match : ℕ → PortRule → List Expr → List Expr
port_match proto r prefix =
    prefix ++ (protocol_is proto ++ (build_port_exprs r.port ++ (counter ∷ verdict accept ∷ [])))

abbrev pub port_accept_rule : Text → ℕ → PortRule → List Expr → Rule
port_accept_rule c proto r prefix = record {
  chain = c;
  exprs = port_match proto r prefix;
  tag = if is_nil r.id then none else some r.id;
}

unfoldable pub with_sources : Text → ℕ → PortRule → List (List Expr) → List Rule
unfolding build_port_exprs
with_sources c proto r [] = []
with_sources c proto r (match ∷ rest) =
    port_accept_rule c proto r match ∷ with_sources c proto r rest

-- portAcceptRules
unfoldable pub port_accept_rules : Netlib → Text → ℕ → PortRule → List Rule
unfolding source_matches with_sources build_port_exprs
port_accept_rules net c proto r =
    let matches = source_matches net r.sources in
    if not (is_nil r.sources) && is_nil matches
    then []
    else if is_nil matches
    then port_accept_rule c proto r [] ∷ []
    else with_sources c proto r matches

-- The loop of ApplyWithFeeds over one protocol's rules.
unfoldable pub add_port_accepts : Netlib → Text → ℕ → List PortRule → List Rule
unfolding filters_host port_accept_rules
add_port_accepts net c proto [] = []
add_port_accepts net c proto (r ∷ rs) =
    (if filters_host r then port_accept_rules net c proto r else [])
    ++ add_port_accepts net c proto rs
