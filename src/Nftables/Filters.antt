-- ===== src/Nftables/Filters.antt =====
-- The optional protections of internal/core/nftables.go. None of their rules accepts.
use easywall.Prelude.{
  ℕ, ◌*◌, ◌%◌, ◌==◌, Bool, true, ◌&&◌, List, [], ◌∷◌, ◌++◌, is_nil, if◌then◌else◌,
}
use easywall.Text.{Text, codes, ℤ, pos}
use easywall.Rules.{PortRule, Rules}
use easywall.Nftables.Options.{Options}
use easywall.Nftables.{
  Expr, Rule, Limit, LimitTime, second, minute, update, rule, meta, payload, fib, bitwise, cmp,
  dynset, verdict, drop, back, jump, iifname, network, transport, eq, neq, LogSpec, LogSink,
  add_filtered, log_exprs, native_u32, loopback_name, ct_state_invalid, ct_state_new, rtn_local,
  or_default, nfproto_ipv4, nfproto_ipv6, ipproto_icmp, ipproto_icmpv6, ipproto_tcp,
}
use easywall.Nftables.Net.{Netlib}
use easywall.Nftables.Match.{family_is, protocol_is, build_port_exprs}
use easywall.Nftables.Accepts.{state_has, icmp_type_is, filters_host}

abbrev log_spec : Bool → Text → ℤ → LogSpec
log_spec enabled prefix per_minute = record {
  enabled = enabled;
  prefix = prefix;
  per_minute = per_minute;
}

-- addrFamily, and addrFamilies.
pub record AddrFamily : Type 0 where
  pub nfproto : ℕ
  pub offset : ℕ
  pub key_len : ℕ

abbrev pub ipv4_family : AddrFamily
ipv4_family = record { nfproto = nfproto_ipv4; offset = 12; key_len = 4 }

abbrev pub ipv6_family : AddrFamily
ipv6_family = record { nfproto = nfproto_ipv6; offset = 8; key_len = 16 }

-- familySuffix
abbrev pub family_suffix : AddrFamily → Text
family_suffix f = if f.nfproto == nfproto_ipv6 then codes "v6" else codes "v4"

-- srcAddrExprs
abbrev pub src_addr_exprs : AddrFamily → List Expr
src_addr_exprs f = family_is f.nfproto ++ (payload network 1 f.offset f.key_len ∷ [])

-- addOverRateChain
unfoldable pub add_over_rate_chain : Text → LogSpec → LogSink → List Rule
add_over_rate_chain name lg sink =
    (if lg.enabled then rule name (log_exprs lg.prefix lg.per_minute sink) ∷ [] else [])
    ++ (rule name (verdict drop ∷ []) ∷ [])

-- perSourceRate; the timeout in seconds.
pub record PerSourceRate : Type 0 where
  pub set_prefix : Text
  pub rate : ℕ
  pub unit : LimitTime
  pub burst : ℕ
  pub timeout : ℕ

-- addPerSourceRateLimit, for one family.
unfoldable pub limit_family :
    Netlib → Text → (AddrFamily → List Expr) → PerSourceRate → Text → AddrFamily → List Rule
limit_family net c match r target f =
    let set = r.set_prefix ++ (codes "-" ++ family_suffix f) in
    let over : Limit = record { rate = r.rate; over = true; unit = r.unit; burst = r.burst } in
    if net.adds_set set
    then rule c (
        family_is f.nfproto
        ++ (match f
            ++ (payload network 1 f.offset f.key_len
                ∷ dynset 1 set (update over r.timeout)
                ∷ verdict (jump target)
                ∷ [])))
      ∷ []
    else []

unfoldable pub add_per_source_rate_limit :
    Netlib → Text → (AddrFamily → List Expr) → PerSourceRate → Text → List Rule
add_per_source_rate_limit net c match r target =
    limit_family net c match r target ipv4_family ++ limit_family net c match r target ipv6_family

-- addInvalidPacketDrop
unfoldable pub add_invalid_packet_drop : Text → Options → LogSink → List Rule
add_invalid_packet_drop c opts sink =
    add_filtered c (state_has ct_state_invalid) (verdict drop)
      (log_spec opts.invalid_packets_log (codes "easywall invalid: ") (pos 0)) sink

-- addFragmentDrop
unfoldable pub add_fragment_drop : Text → Options → LogSink → List Rule
add_fragment_drop c opts sink =
    add_filtered c
      (family_is nfproto_ipv4
        ++ (meta iifname 1
            ∷ cmp neq 1 loopback_name
            ∷ payload network 1 6 2
            ∷ bitwise 1 1 (0x3f ∷ 0xff ∷ []) (0 ∷ 0 ∷ [])
            ∷ cmp neq 1 (0 ∷ 0 ∷ [])
            ∷ fib 1
            ∷ cmp eq 1 (native_u32 rtn_local)
            ∷ []))
      (verdict drop) (log_spec opts.fragments_log (codes "easywall fragment: ") (pos 0)) sink

abbrev pub tcp_flags : ℕ → ℕ → List Expr
tcp_flags mask flags =
    protocol_is ipproto_tcp
    ++ (payload transport 1 13 1 ∷ bitwise 1 1 (mask ∷ []) (0 ∷ []) ∷ cmp eq 1 (flags ∷ []) ∷ [])

abbrev pub scan_chain : Text
scan_chain = codes "portscan"

-- scanCombos: flags and mask.
abbrev pub scan_combos : List (ℕ × ℕ)
scan_combos =
    (0x00, 0xff)
    ∷ (0x01, 0xff)
    ∷ (0x03, 0x03)
    ∷ (0x05, 0x05)
    ∷ (0x06, 0x06)
    ∷ (0x29, 0x29)
    ∷ (0xff, 0xff)
    ∷ []

unfoldable pub scan_rules : Text → List (ℕ × ℕ) → List Rule
scan_rules c [] = []
scan_rules c ((flags, mask) ∷ rest) =
    rule c (tcp_flags mask flags ++ (verdict (jump scan_chain) ∷ [])) ∷ scan_rules c rest

-- addPortScanPrevention
unfoldable pub add_port_scan_prevention : Text → Options → LogSink → List Rule
add_port_scan_prevention c opts sink =
    (if opts.port_scan_log
      then rule scan_chain (log_exprs (codes "easywall portscan: ") (pos 0) sink) ∷ []
      else [])
    ++ (rule scan_chain (verdict drop ∷ []) ∷ scan_rules c scan_combos)

abbrev u32 : ℕ → ℕ
u32 n = n % 4294967296

-- addSYNFloodProtection
unfoldable pub add_syn_flood_protection : Netlib → Text → Options → LogSink → List Rule
add_syn_flood_protection net c opts sink =
    let limit = or_default 100 opts.syn_flood_limit in
    let over = codes "synflood-over" in
    let r : PerSourceRate = record {
      set_prefix = codes "synflood";
      rate = limit;
      unit = second;
      burst = u32 (limit * 2);
      timeout = 60;
    } in
    add_over_rate_chain over (log_spec opts.syn_flood_log (codes "easywall syn-flood: ") (pos 0))
      sink
    ++ add_per_source_rate_limit net c (λ f. tcp_flags 0x17 0x02) r over

abbrev pub echo_request : AddrFamily → List Expr
echo_request f =
    if f.nfproto == nfproto_ipv6
    then icmp_type_is ipproto_icmpv6 128
    else icmp_type_is ipproto_icmp 8

-- addICMPFloodProtection
unfoldable pub add_icmp_flood_protection : Netlib → Text → Options → LogSink → List Rule
add_icmp_flood_protection net c opts sink =
    let limit = or_default 10 opts.icmp_flood_connection_limit in
    let over = codes "icmpflood-over" in
    let r : PerSourceRate = record {
      set_prefix = codes "icmpflood";
      rate = limit;
      unit = second;
      burst = u32 limit;
      timeout = 60;
    } in
    add_over_rate_chain over
      (log_spec opts.icmp_flood_log (codes "easywall icmp-flood: ") opts.icmp_flood_log_limit) sink
    ++ add_per_source_rate_limit net c echo_request r over

-- addTCPRSTFlood
unfoldable pub add_tcp_rst_flood : Netlib → Text → Options → LogSink → List Rule
add_tcp_rst_flood net c opts sink =
    let limit = or_default 100 opts.tcp_rst_flood_limit in
    let over = codes "tcprst-over" in
    let r : PerSourceRate = record {
      set_prefix = codes "tcprst";
      rate = limit;
      unit = second;
      burst = u32 limit;
      timeout = 60;
    } in
    add_over_rate_chain over (log_spec opts.tcp_rst_flood_log (codes "easywall tcp-rst: ") (pos 0))
      sink
    ++ add_per_source_rate_limit net c (λ f. tcp_flags 0x04 0x04) r over

-- sshMeteredPorts
unfoldable pub ssh_ports : List PortRule → List Text
ssh_ports [] = []
ssh_ports (r ∷ rs) = (if r.ssh && filters_host r then r.port ∷ [] else []) ++ ssh_ports rs

unfoldable pub ssh_metered_ports : Rules → List Text
ssh_metered_ports rules =
    let ports = ssh_ports rules.tcp in if is_nil ports then codes "22" ∷ [] else ports

abbrev pub ssh_chain : Text
ssh_chain = codes "sshbrute"

unfoldable pub ssh_jumps : Text → List Text → List Rule
ssh_jumps c [] = []
ssh_jumps c (port ∷ ports) =
    rule c (
      protocol_is ipproto_tcp
      ++ (build_port_exprs port ++ (state_has ct_state_new ++ (verdict (jump ssh_chain) ∷ []))))
    ∷ ssh_jumps c ports

-- addSSHBruteForce
unfoldable pub add_ssh_brute_force : Netlib → Text → Rules → Options → LogSink → List Rule
add_ssh_brute_force net c rules opts sink =
    let limit = or_default 5 opts.ssh_brute_force_connection_limit in
    let over = codes "sshbrute-over" in
    let r : PerSourceRate = record {
      set_prefix = codes "sshbrute";
      rate = limit;
      unit = minute;
      burst = u32 limit;
      timeout = 600;
    } in
    add_over_rate_chain over
      (log_spec opts.ssh_brute_force_log (codes "easywall ssh: ") opts.ssh_brute_force_log_limit)
      sink
    ++ (add_per_source_rate_limit net ssh_chain (λ f. []) r over
        ++ (rule ssh_chain (verdict back ∷ []) ∷ ssh_jumps c (ssh_metered_ports rules)))
