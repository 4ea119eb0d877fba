-- ===== src/Tests/Tables.antt =====
-- The table of internal/core/nftables.go on a host with an address list, one open port and SYN flood
-- protection, and packets to it. The kernel is a small register machine.
use easywall.Prelude.{
  ℕ, ◌%◌, ◌<◌, ◌==◌, ◌≡◌, refl, arith, Bool, true, false, ◌&&◌, ◌||◌, Option, none, some, List, [],
  ◌∷◌, if◌then◌else◌,
}
use easywall.Text.{codes, same, pos, cut, trim_space, parse_digits, atoi}
use easywall.Rules.{PortRule, no_rules}
use easywall.Nftables.{
  Bytes, Expr, MetaKey, meta, payload, ct_state, fib, bitwise, cmp, lookup, dynset, limit, log,
  counter, immediate, redir, verdict, input_chain, network, transport, native_u32, add_logged,
  add_filtered,
}
use easywall.Nftables.Net.{Netlib, and_bytes, same_bytes, to4, cidr_mask}
use easywall.Nftables.Options.{Options}
use easywall.Nftables.Build.{Apply, Batch, Built, batch, failed, apply_with_feeds}
use easywall.Nftables.Netfilter.{
  Netfilter, Outcome, accepted, dropped, is_load, test, when_loaded, port_value, walk,
}
use easywall.Nftables.Admitted.{any, sent_by, is_blocked, admitted_early, admitted_late}
use easywall.Nftables.Admitted.Whole.{table, apply_with_feeds-admitted}
use easywall.Nftables.Admitted.Blocked.{apply_with_feeds-blocked}
use easywall.Nftables.{log_exprs}
use easywall.Nftables.Net.{unmapped, parse_network}
use easywall.Nftables.Match.{
  port_bytes, match_port_eq, parse_port, match_range, build_port_exprs, entry_net, net_match,
  cidr_match_op, without_family_test, ipv4_source_match, cidr_drop_match, entry_match,
}
use easywall.Nftables.Accepts.{
  add_family_verdict, add_loopback_accept, add_established_accept, icmpv4_accepted, icmpv6_accepted,
  add_icmp_types_accept, add_icmp_rules, add_echo_accepts, add_cidr_accept, add_blocklist_rule,
  add_allowlist_rule, filters_host, filters_forwarded, source_matches, with_sources,
  port_accept_rules, add_port_accepts,
}
use easywall.Nftables.Filters.{
  add_over_rate_chain, limit_family, add_per_source_rate_limit, add_invalid_packet_drop,
  add_fragment_drop, scan_rules, add_port_scan_prevention, add_syn_flood_protection,
  add_icmp_flood_protection, add_tcp_rst_flood, ssh_ports, ssh_metered_ports, ssh_jumps,
  add_ssh_brute_force,
}
use easywall.Nftables.Drops.{
  exempt_rules, source_rules, port_source_rules, range_rules, add_bogon_filter,
  connection_limit_family, add_connection_limit, add_packet_type_drop, add_anycast_drop,
  feeds_where, feed_rule_order, feed_family, feed_rules, add_feeds,
}
use easywall.Nftables.Forward.{
  cidr_families, without_ipv6, container_networks, rule_family, named_rules, pinned_rules,
  forward_port_rule, forward_port_list, forward_denies, add_forward_port_rules,
  forward_port_rules_render, forward_exception_matches, add_forward_exceptions, on_entries,
  blocked_matches, blocked_rules, add_forward_lists, build_forward_chain,
}
use easywall.Nftables.Build.{
  ipv6_mode_of, routing_mode_of, docker_cidrs, ipv6_disposition, forward_rules, base_rules,
  module_rules, each_entry, docker_accepts, blocklist_rules, allowlist_rules, add_forwarding_rules,
  open_rules, rules_before_lists, built_rules, add_final_log,
}
use easywall.Nftables.Netfilter.{leb_bytes, kind_of}
use easywall.Rules.Validate.{validate_rules, is_list_comment, parse_port_number}
use easywall.Rules.Feeds.{cut_prefix}

pub record Frame : Type 0 where
  iif : Bytes
  family : ℕ
  proto : ℕ
  src : Bytes
  state : ℕ
  flags : ℕ
  port : ℕ

abbrev loaded_value : Frame → Expr → Option Bytes
loaded_value f (meta MetaKey.nfproto r) = some (f.family ∷ [])
loaded_value f (meta MetaKey.l4proto r) = some (f.proto ∷ [])
loaded_value f (meta MetaKey.iifname r) = some f.iif
loaded_value f (meta MetaKey.pkttype r) = some (0 ∷ [])
loaded_value f (payload network r o l) = some f.src
loaded_value f (payload transport r o l) =
    if o == 2 then port_value (some (f.port % 65536)) else some (f.flags ∷ [])
loaded_value f (ct_state r) = some (native_u32 f.state)
loaded_value f e = none

-- A register machine; no source is over its rate, and no set holds it.
machine : Frame → Bytes → List Expr → Bool
machine f v [] = true
machine f v (meta k r ∷ rest) = when_loaded (loaded_value f (meta k r)) (λ w. machine f w rest)
machine f v (payload b r o l ∷ rest) =
    when_loaded (loaded_value f (payload b r o l)) (λ w. machine f w rest)
machine f v (ct_state r ∷ rest) = when_loaded (loaded_value f (ct_state r)) (λ w. machine f w rest)
machine f v (fib r ∷ rest) = when_loaded (loaded_value f (fib r)) (λ w. machine f w rest)
machine f v (bitwise s d m x ∷ rest) = machine f (and_bytes v m) rest
machine f v (cmp op r d ∷ rest) = test op v d && machine f v rest
machine f v (lookup r s ∷ rest) = false
machine f v (dynset r s m ∷ rest) = false
machine f v (limit l ∷ rest) = true
machine f v (log t g ∷ rest) = machine f v rest
machine f v (counter ∷ rest) = machine f v rest
machine f v (immediate r d ∷ rest) = machine f d rest
machine f v (redir r ∷ rest) = true
machine f v (verdict k ∷ rest) = true

machine_load :
    (f : Frame) (v : Bytes) (e : Expr) (rest : List Expr)
    → is_load e ≡ true
    → machine f v (e ∷ rest) ≡ when_loaded (loaded_value f e) (λ w. machine f w rest)
unfolding machine
machine_load f v (meta k r) rest h = refl
machine_load f v (payload b r o l) rest h = refl
machine_load f v (ct_state r) rest h = refl
machine_load f v (fib r) rest h = refl
machine_load f v (bitwise s d m x) rest h = cc
machine_load f v (cmp op r d) rest h = cc
machine_load f v (lookup r s) rest h = cc
machine_load f v (dynset r s m) rest h = cc
machine_load f v (limit l) rest h = cc
machine_load f v (log t g) rest h = cc
machine_load f v counter rest h = cc
machine_load f v (immediate r d) rest h = cc
machine_load f v (redir r) rest h = cc
machine_load f v (verdict k) rest h = cc

port_bound : (f : Frame) (n : ℕ) → some (f.port % 65536) ≡ some n → n < 65536
port_bound f n h = ground arith

pub kernel : Netfilter Frame
unfolding machine
kernel = record {
  runs = machine;
  value = loaded_value;
  dport = λ f. some (f.port % 65536);
  runs-load = machine_load;
  runs-cmp = λ f v op d rest. refl;
  runs-bitwise = λ f v m k rest. refl;
  runs-counter = λ f v rest. refl;
  runs-verdict = λ f v k. refl;
  value-load_dest_port = λ f. refl;
  dport_bound = port_bound;
}

-- 10.0.0.0/8 and 198.51.100.7.
abbrev pub library : Netlib
library = record {
  parse_ip = λ s.
      if same s (codes "198.51.100.7")
      then some (0 ∷ 0 ∷ 0 ∷ 0 ∷ 0 ∷ 0 ∷ 0 ∷ 0 ∷ 0 ∷ 0 ∷ 255 ∷ 255 ∷ 198 ∷ 51 ∷ 100 ∷ 7 ∷ [])
      else none;
  parse_cidr = λ s. if same s (codes "10.0.0.0/8") then some (10 ∷ 0 ∷ 0 ∷ 0 ∷ [], 8) else none;
  adds_set = λ s. true;
  adds_elements = λ s. true;
}

abbrev options : Options
options = record {
  ssh_brute_force = false;
  ssh_brute_force_log = false;
  ssh_brute_force_connection_limit = pos 0;
  ssh_brute_force_log_limit = pos 0;
  icmp_allow_echo_request = true;
  icmp_flood = false;
  icmp_flood_log = false;
  icmp_flood_connection_limit = pos 0;
  icmp_flood_log_limit = pos 0;
  syn_flood = true;
  syn_flood_log = false;
  syn_flood_limit = pos 0;
  port_scan = false;
  port_scan_log = false;
  invalid_packets = false;
  invalid_packets_log = false;
  fragments = false;
  fragments_log = false;
  bogons = false;
  bogons_log = false;
  connection_limit = false;
  connection_limit_max = pos 0;
  tcp_rst_flood = false;
  tcp_rst_flood_log = false;
  tcp_rst_flood_limit = pos 0;
  drop_broadcast = false;
  drop_multicast = false;
  drop_anycast = false;
  log_blocked = true;
  log_blocked_limit = pos 0;
  log_blocklist = true;
  log_blocklist_limit = pos 0;
  log_feed = false;
  log_feed_limit = pos 0;
}

abbrev pub web_rule : PortRule
web_rule = record {
  id = [];
  port = codes "8000:8080";
  description = [];
  ssh = false;
  scope = [];
  sources = codes "10.0.0.0/8" ∷ [];
  service = [];
}

abbrev office : Apply
office = record {
  net = library;
  opts = options;
  sink = record { nflog = false; group = 0 };
  rules = record no_rules { tcp = web_rule ∷ []; blocklist = codes "198.51.100.7" ∷ [] };
  cfg = record {
    ipv6_mode = codes "filter";
    router_advertisement = true;
    neighbor_advertisement = true;
    docker = record {
      enabled = false;
      allow_bridge_networks = false;
      custom_networks = [];
      published_ports = [];
    };
    routing_mode = codes "closed";
    networks = [];
  };
  detected = [];
  connected = true;
}

abbrev batch_of : Built → Batch
batch_of (batch t) = t
batch_of (failed f) = record { first = []; custom = []; last = [] }

office_batch : Batch
office_batch = batch_of (apply_with_feeds office)

office_built : apply_with_feeds office ≡ batch office_batch
unfolding apply_with_feeds validate_rules built_rules add_feeds feed_rules feed_rule_order
    office_batch
office_built = refl

-- A packet from a client to a port.
abbrev pub packet : Bytes → ℕ → ℕ → Frame
packet src state port = record {
  iif = b'e' ∷ b'0' ∷ 0 ∷ [];
  family = 2;
  proto = 6;
  src = src;
  state = state;
  flags = 2;
  port = port;
}

abbrev pub client : Bytes
client = 10 ∷ 1 ∷ 2 ∷ 3 ∷ []

abbrev listed : Bytes
listed = 198 ∷ 51 ∷ 100 ∷ 7 ∷ []

fate : Frame → Outcome
unfolding kernel office_batch machine log_exprs add_logged add_filtered cidr_mask and_bytes
    same_bytes to4 unmapped parse_network port_bytes match_port_eq parse_port match_range
    build_port_exprs entry_net net_match cidr_match_op without_family_test ipv4_source_match
    cidr_drop_match entry_match add_family_verdict add_loopback_accept add_established_accept
    icmpv4_accepted icmpv6_accepted add_icmp_types_accept add_icmp_rules add_echo_accepts
    add_cidr_accept add_blocklist_rule add_allowlist_rule filters_host filters_forwarded
    source_matches with_sources port_accept_rules add_port_accepts add_over_rate_chain limit_family
    add_per_source_rate_limit add_invalid_packet_drop add_fragment_drop scan_rules
    add_port_scan_prevention add_syn_flood_protection add_icmp_flood_protection add_tcp_rst_flood
    ssh_ports ssh_metered_ports ssh_jumps add_ssh_brute_force exempt_rules source_rules
    port_source_rules range_rules add_bogon_filter connection_limit_family add_connection_limit
    add_packet_type_drop add_anycast_drop feeds_where feed_rule_order feed_family feed_rules
    add_feeds cidr_families without_ipv6 container_networks rule_family named_rules pinned_rules
    forward_port_rule forward_port_list forward_denies add_forward_port_rules
    forward_port_rules_render forward_exception_matches add_forward_exceptions on_entries
    blocked_matches blocked_rules add_forward_lists build_forward_chain ipv6_mode_of routing_mode_of
    docker_cidrs ipv6_disposition forward_rules base_rules module_rules each_entry docker_accepts
    blocklist_rules allowlist_rules add_forwarding_rules open_rules rules_before_lists built_rules
    add_final_log apply_with_feeds leb_bytes test kind_of walk validate_rules is_list_comment
    parse_port_number cut_prefix same trim_space cut parse_digits atoi
fate f = walk kernel 3 (table office_batch) input_chain (table office_batch) f

client_accepted :
    walk kernel 3 (table office_batch) input_chain (table office_batch) (packet client 8 8080)
    ≡ accepted
unfolding fate
client_accepted = refl

apply_with_feeds-admitted_example :
    (admitted_early kernel (packet client 8 8080) office
      || admitted_late kernel (packet client 8 8080) office)
    ≡ true
apply_with_feeds-admitted_example =
    apply_with_feeds-admitted kernel (packet client 8 8080) office office_batch 3 office_built
      client_accepted

-- The listed address, in an old connection, and in a new one.
listed_accepted :
    walk kernel 3 (table office_batch) input_chain (table office_batch) (packet listed 2 8080)
    ≡ accepted
unfolding fate
listed_accepted = refl

listed_dropped :
    walk kernel 3 (table office_batch) input_chain (table office_batch) (packet listed 8 8080)
    ≡ dropped
unfolding fate
listed_dropped = refl

listed_blocked :
    any (is_blocked kernel (packet listed 2 8080) library) office.rules.blocklist ≡ true
unfolding kernel sent_by to4 cut_prefix is_list_comment trim_space test same_bytes same
listed_blocked = refl

apply_with_feeds-blocked_example : admitted_early kernel (packet listed 2 8080) office ≡ true
apply_with_feeds-blocked_example =
    apply_with_feeds-blocked kernel (packet listed 2 8080) office office_batch 3 office_built
      listed_blocked listed_accepted
