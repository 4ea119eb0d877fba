-- ===== src/Nftables/Quiet/Filters.antt =====
-- The optional protections of internal/core/nftables.go add no rule that accepts.
use easywall.Prelude.{refl, Bool, List, [], ◌∷◌, ◌++◌, All-append, ℕ}
use easywall.Text.{Text, codes, same, pos}
use easywall.Rules.{Rules}
use easywall.Nftables.{LogSink, drop, back, jump, ct_state, ipproto_tcp}
use easywall.Nftables.Net.{Netlib}
use easywall.Nftables.Match.{build_port_exprs, protocol_is}
use easywall.Nftables.Options.{Options}
use easywall.Nftables.Filters.{
  tcp_flags, scan_combos, ssh_chain, ssh_metered_ports, add_invalid_packet_drop, add_fragment_drop,
  scan_chain, scan_rules, add_port_scan_prevention, add_syn_flood_protection,
  add_icmp_flood_protection, add_tcp_rst_flood, ssh_jumps, add_ssh_brute_force,
}
use easywall.Nftables.Netfilter.{Netfilter, kind_of}
use easywall.Nftables.Reading.{Safe}
use easywall.Nftables.Quiet.{
  AllSafe, quiet_end, quiet_tail, log_end, when-AllSafe, add_filtered-AllSafe,
  add_over_rate_chain-AllSafe, add_per_source_rate_limit-AllSafe,
}

module _ {Packet : Type 0} (nf : Netfilter Packet) (p : Packet) (b : Bool) where
  pub add_invalid_packet_drop-AllSafe :
      (c : Text) (opts : Options) (sink : LogSink)
      → AllSafe nf p b (add_invalid_packet_drop c opts sink)
  unfolding add_invalid_packet_drop
  add_invalid_packet_drop-AllSafe c opts sink = add_filtered-AllSafe nf p b c _ _ sink

  pub add_fragment_drop-AllSafe :
      (c : Text) (opts : Options) (sink : LogSink) → AllSafe nf p b (add_fragment_drop c opts sink)
  unfolding add_fragment_drop
  add_fragment_drop-AllSafe c opts sink = add_filtered-AllSafe nf p b c _ _ sink

  scan_rules-AllSafe : (c : Text) (combos : List (ℕ × ℕ)) → AllSafe nf p b (scan_rules c combos)
  unfolding scan_rules same
  scan_rules-AllSafe c [] = tt
  scan_rules-AllSafe c ((flags, mask) ∷ rest) =
      (quiet_end nf p b (jump scan_chain) c (tcp_flags mask flags) refl, scan_rules-AllSafe c rest)

  pub add_port_scan_prevention-AllSafe :
      (c : Text) (opts : Options) (sink : LogSink)
      → AllSafe nf p b (add_port_scan_prevention c opts sink)
  unfolding add_port_scan_prevention
  add_port_scan_prevention-AllSafe c opts sink =
      All-append (Safe nf p b) _ _
        (when-AllSafe nf p b opts.port_scan_log _
          (log_end nf p b scan_chain [] (codes "easywall portscan: ") (pos 0) sink, tt))
        (quiet_end nf p b drop scan_chain [] tt, scan_rules-AllSafe c scan_combos)

  pub add_syn_flood_protection-AllSafe :
      (net : Netlib) (c : Text) (opts : Options) (sink : LogSink)
      → AllSafe nf p b (add_syn_flood_protection net c opts sink)
  unfolding add_syn_flood_protection same
  add_syn_flood_protection-AllSafe net c opts sink =
      All-append (Safe nf p b) _ _ (add_over_rate_chain-AllSafe nf p b _ _ sink)
        (add_per_source_rate_limit-AllSafe nf p b net c _ _ (codes "synflood-over") refl)

  pub add_icmp_flood_protection-AllSafe :
      (net : Netlib) (c : Text) (opts : Options) (sink : LogSink)
      → AllSafe nf p b (add_icmp_flood_protection net c opts sink)
  unfolding add_icmp_flood_protection same
  add_icmp_flood_protection-AllSafe net c opts sink =
      All-append (Safe nf p b) _ _ (add_over_rate_chain-AllSafe nf p b _ _ sink)
        (add_per_source_rate_limit-AllSafe nf p b net c _ _ (codes "icmpflood-over") refl)

  pub add_tcp_rst_flood-AllSafe :
      (net : Netlib) (c : Text) (opts : Options) (sink : LogSink)
      → AllSafe nf p b (add_tcp_rst_flood net c opts sink)
  unfolding add_tcp_rst_flood same
  add_tcp_rst_flood-AllSafe net c opts sink =
      All-append (Safe nf p b) _ _ (add_over_rate_chain-AllSafe nf p b _ _ sink)
        (add_per_source_rate_limit-AllSafe nf p b net c _ _ (codes "tcprst-over") refl)

  ssh_jumps-AllSafe : (c : Text) (ports : List Text) → AllSafe nf p b (ssh_jumps c ports)
  unfolding ssh_jumps same kind_of
  ssh_jumps-AllSafe c [] = tt
  ssh_jumps-AllSafe c (port ∷ ports) =
      let xs = protocol_is ipproto_tcp ++ build_port_exprs port in
      let s = quiet_tail nf p b (jump ssh_chain) c xs (ct_state 1) _ refl refl in
      (s, ssh_jumps-AllSafe c ports)

  pub add_ssh_brute_force-AllSafe :
      (net : Netlib) (c : Text) (rules : Rules) (opts : Options) (sink : LogSink)
      → AllSafe nf p b (add_ssh_brute_force net c rules opts sink)
  unfolding add_ssh_brute_force same
  add_ssh_brute_force-AllSafe net c rules opts sink =
      All-append (Safe nf p b) _ _ (add_over_rate_chain-AllSafe nf p b _ _ sink) (
        All-append (Safe nf p b) _ _
          (add_per_source_rate_limit-AllSafe nf p b net ssh_chain _ _ (codes "sshbrute-over") refl)
          (quiet_end nf p b back ssh_chain [] tt, ssh_jumps-AllSafe c (ssh_metered_ports rules)))
