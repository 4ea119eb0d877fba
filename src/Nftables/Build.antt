-- ===== src/Nftables/Build.antt =====
-- ApplyWithFeeds of internal/core/nftables.go: the rules of one apply, in the order in which they are
-- added. What the kernel answers to the flush is not modelled.
use easywall.Prelude.{
  ℕ, Bool, true, false, not, ◌&&◌, Option, none, some, List, [], ◌∷◌, ◌++◌, if◌then◌else◌,
}
use easywall.Text.{Text, codes, same, ℤ, pos, negsuc}
use easywall.Rules.{Rules, ForwardingRule}
use easywall.Rules.Validate.{Error, validate_rules}
use easywall.Nftables.{
  Rule, rule, fib, cmp, immediate, redir, eq, accept, drop, LogSpec, LogSink, log_exprs, native_u32,
  rtn_local, or_default, input_chain, fragment_chain, nfproto_ipv6, ipproto_tcp, ipproto_udp,
}
use easywall.Nftables.Net.{Netlib}
use easywall.Nftables.Match.{protocol_is, load_dest_port, port_bytes}
use easywall.Nftables.Accepts.{
  Ipv6Mode, Ipv6Config, filter, passthrough, block, add_family_verdict, add_loopback_accept,
  add_established_accept, add_icmp_rules, add_echo_accepts, add_cidr_accept, add_blocklist_rule,
  add_allowlist_rule, add_port_accepts,
}
use easywall.Nftables.Options.{Options}
use easywall.Nftables.Filters.{
  add_port_scan_prevention, add_syn_flood_protection, add_icmp_flood_protection, add_tcp_rst_flood,
  add_ssh_brute_force, add_invalid_packet_drop, add_fragment_drop,
}
use easywall.Nftables.Drops.{
  add_bogon_filter, add_connection_limit, add_packet_type_drop, add_anycast_drop, add_feeds,
  pkt_type_broadcast, pkt_type_multicast,
}
use easywall.Nftables.Forward.{
  DockerConfig, RoutingMode, RoutingConfig, closed, networks, opened, container_networks,
  build_forward_chain,
}

-- NetworkSettings; the modes as the configuration has them.
pub record NetworkSettings : Type 0 where
  pub ipv6_mode : Text
  pub router_advertisement : Bool
  pub neighbor_advertisement : Bool
  pub docker : DockerConfig
  pub routing_mode : Text
  pub networks : List Text

-- IPv6Mode.Valid, RoutingMode.Valid and what ApplyWithFeeds takes for a mode that is not.
unfoldable pub ipv6_mode_of : Text → Ipv6Mode
unfolding same
ipv6_mode_of m =
    if same m (codes "passthrough")
    then passthrough
    else if same m (codes "block")
    then block
    else filter

unfoldable pub routing_mode_of : Text → RoutingMode
unfolding same
routing_mode_of m =
    if same m (codes "networks") then networks else if same m (codes "open") then opened else closed

abbrev pub ipv6_of : NetworkSettings → Ipv6Config
ipv6_of cfg = record {
  mode = ipv6_mode_of cfg.ipv6_mode;
  router_advertisement = cfg.router_advertisement;
  neighbor_advertisement = cfg.neighbor_advertisement;
}

abbrev pub routing_of : NetworkSettings → RoutingConfig
routing_of cfg = record { mode = routing_mode_of cfg.routing_mode; networks = cfg.networks }

-- What an apply is given: the library, the options, the log sink, the rules in force, the network
-- settings, and the bridges that Docker's detection found.
pub record Apply : Type 0 where
  pub net : Netlib
  pub opts : Options
  pub sink : LogSink
  pub rules : Rules
  pub cfg : NetworkSettings
  pub detected : List Text
  pub connected : Bool

-- The list of Docker networks, detection only where it is on.
unfoldable pub docker_cidrs : Apply → List Text
docker_cidrs a =
    container_networks a.net a.cfg.docker
      (if a.cfg.docker.enabled && a.cfg.docker.allow_bridge_networks then a.detected else [])
      (ipv6_mode_of a.cfg.ipv6_mode)

abbrev pub when : Bool → List Rule → List Rule
when true rs = rs
when false rs = []

-- The switch over the IPv6 mode.
unfoldable pub ipv6_disposition : Ipv6Mode → List Rule
ipv6_disposition filter = []
ipv6_disposition passthrough = add_family_verdict input_chain nfproto_ipv6 accept
ipv6_disposition block = add_family_verdict input_chain nfproto_ipv6 drop

unfoldable pub forward_rules : Apply → List Rule × Option Text
forward_rules a =
    build_forward_chain a.net a.rules a.cfg.docker (routing_of a.cfg) (docker_cidrs a)
      (ipv6_mode_of a.cfg.ipv6_mode)

-- Up to the ICMP rules.
unfoldable pub base_rules : Apply → List Rule
base_rules a =
    add_loopback_accept input_chain
    ++ (ipv6_disposition (ipv6_mode_of a.cfg.ipv6_mode)
        ++ (when a.opts.icmp_flood (add_icmp_flood_protection a.net input_chain a.opts a.sink)
            ++ (when a.opts.tcp_rst_flood (add_tcp_rst_flood a.net input_chain a.opts a.sink)
                ++ (add_established_accept input_chain
                    ++ add_icmp_rules input_chain (ipv6_of a.cfg)))))

-- The optional protection modules, in their order.
unfoldable pub module_rules : Apply → List Rule
module_rules a =
    when a.opts.port_scan (add_port_scan_prevention input_chain a.opts a.sink)
    ++ (when a.opts.syn_flood (add_syn_flood_protection a.net input_chain a.opts a.sink)
        ++ (when a.opts.invalid_packets (add_invalid_packet_drop input_chain a.opts a.sink)
            ++ (when a.opts.fragments (add_fragment_drop fragment_chain a.opts a.sink)
                ++ (when a.opts.bogons (
                      add_bogon_filter a.net input_chain a.opts a.sink
                        (a.rules.allowlist ++ docker_cidrs a) a.rules)
                    ++ (when a.opts.ssh_brute_force
                          (add_ssh_brute_force a.net input_chain a.rules a.opts a.sink)
                        ++ (when a.opts.connection_limit
                              (add_connection_limit a.net input_chain a.opts)
                            ++ (when a.opts.drop_broadcast
                                  (add_packet_type_drop input_chain pkt_type_broadcast)
                                ++ (when a.opts.drop_multicast
                                      (add_packet_type_drop input_chain pkt_type_multicast)
                                    ++ when a.opts.drop_anycast
                                        (add_anycast_drop input_chain)))))))))

-- The rules of every entry of a list, in turn.
unfoldable pub each_entry : (Text → List Rule) → List Text → List Rule
each_entry f [] = []
each_entry f (x ∷ xs) = f x ++ each_entry f xs

abbrev pub blocklist_log : Options → LogSpec
blocklist_log o = record {
  enabled = o.log_blocklist;
  prefix = codes "easywall blocklist: ";
  per_minute = o.log_blocklist_limit;
}

unfoldable pub docker_accepts : Apply → List Rule
docker_accepts a = each_entry (add_cidr_accept a.net input_chain) (docker_cidrs a)

unfoldable pub blocklist_rules : Apply → List Rule
blocklist_rules a =
    each_entry (add_blocklist_rule a.net input_chain (blocklist_log a.opts) a.sink)
      a.rules.blocklist

unfoldable pub allowlist_rules : Apply → List Rule
allowlist_rules a = each_entry (add_allowlist_rule a.net input_chain) a.rules.allowlist

abbrev port_of : ℤ → ℕ
port_of (pos n) = n
port_of (negsuc n) = 0

-- addForwardingRules
unfoldable pub add_forwarding_rules : List ForwardingRule → List Rule
add_forwarding_rules [] = []
add_forwarding_rules (f ∷ fs) =
    rule (codes "prerouting") (
      fib 1
      ∷ cmp eq 1 (native_u32 rtn_local)
      ∷ (protocol_is (if same f.protocol (codes "udp") then ipproto_udp else ipproto_tcp)
          ++ (load_dest_port
              ∷ cmp eq 1 (port_bytes (port_of f.source_port))
              ∷ immediate 1 (port_bytes (port_of f.dest_port))
              ∷ redir 1
              ∷ [])))
    ∷ add_forwarding_rules fs

-- The echo accepts, the open ports and the redirections.
unfoldable pub open_rules : Apply → List Rule
open_rules a =
    add_echo_accepts input_chain a.opts.icmp_allow_echo_request (ipv6_of a.cfg)
    ++ (add_port_accepts a.net input_chain ipproto_tcp a.rules.tcp
        ++ (add_port_accepts a.net input_chain ipproto_udp a.rules.udp
            ++ add_forwarding_rules a.rules.forwarding))

-- What stands before the blocklist.
unfoldable pub rules_before_lists : Apply → List Rule
rules_before_lists a = base_rules a ++ ((forward_rules a).0 ++ (module_rules a ++ docker_accepts a))

-- What is built up to the first flush; none is an error at a feed's set.
unfoldable pub built_rules : Apply → Option (List Rule)
built_rules a = elim (add_feeds a.net input_chain (forward_rules a).1 a.opts a.sink a.rules.feeds) [
  | none ↦ none
  | some feeds ↦ some (
      rules_before_lists a ++ (blocklist_rules a ++ (allowlist_rules a ++ (feeds ++ open_rules a))))
]

-- addFinalLog
unfoldable pub add_final_log : Options → LogSink → List Rule
add_final_log opts sink =
    rule input_chain
      (log_exprs (codes "easywall drop: ") (pos (or_default 60 opts.log_blocked_limit)) sink)
    ∷ []

pub data Failure : Type 0 where
  refused : Error → Failure
  not_connected feed_failed : Failure

-- What goes out: the first flush, the custom rules for the nft command, the flush behind them.
pub record Batch : Type 0 where
  pub first : List Rule
  pub custom : List Text
  pub last : List Rule

pub data Built : Type 0 where
  failed : Failure → Built
  batch : Batch → Built

-- ApplyWithFeeds
unfoldable pub apply_with_feeds : Apply → Built
apply_with_feeds a = elim (validate_rules a.rules) [
  | some e ↦ failed (refused e)
  | none ↦ if not a.connected then failed not_connected else elim (built_rules a) [
    | none ↦ failed feed_failed
    | some rs ↦ batch (record {
      first = rs;
      custom = a.rules.custom;
      last = if a.opts.log_blocked then add_final_log a.opts a.sink else [];
    })
  ]
]
