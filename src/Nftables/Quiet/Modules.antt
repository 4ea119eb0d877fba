-- ===== src/Nftables/Quiet/Modules.antt =====
-- All optional modules of an apply together.
use easywall.Prelude.{Bool, All-append, ◌++◌}
use easywall.Nftables.{fragment_chain, input_chain}
use easywall.Nftables.Drops.{
  pkt_type_broadcast, pkt_type_multicast, add_connection_limit, add_packet_type_drop,
  add_anycast_drop,
}
use easywall.Nftables.Filters.{add_ssh_brute_force}
use easywall.Nftables.Build.{Apply, module_rules, docker_cidrs, when}
use easywall.Nftables.Netfilter.{Netfilter}
use easywall.Nftables.Reading.{Safe}
use easywall.Nftables.Quiet.{AllSafe}
use easywall.Nftables.Quiet.Filters.{
  add_invalid_packet_drop-AllSafe, add_fragment_drop-AllSafe, add_port_scan_prevention-AllSafe,
  add_syn_flood_protection-AllSafe, add_ssh_brute_force-AllSafe,
}
use easywall.Nftables.Quiet.Drops.{
  add_bogon_filter-AllSafe, add_connection_limit-AllSafe, add_packet_type_drop-AllSafe,
  add_anycast_drop-AllSafe,
}
use easywall.Prelude.{true, false, List}
use easywall.Nftables.{Rule}

module _ {Packet : Type 0} (nf : Netfilter Packet) (p : Packet) (b : Bool) where
  pub on-AllSafe : (on : Bool) (rs : List Rule) → AllSafe nf p b rs → AllSafe nf p b (when on rs)
  on-AllSafe true rs s = s
  on-AllSafe false rs s = tt

  -- The last five.
  last_modules :
      (a : Apply)
      → AllSafe nf p b (
          when a.opts.ssh_brute_force (add_ssh_brute_force a.net input_chain a.rules a.opts a.sink)
          ++ (when a.opts.connection_limit (add_connection_limit a.net input_chain a.opts)
              ++ (when a.opts.drop_broadcast (add_packet_type_drop input_chain pkt_type_broadcast)
                  ++ (when a.opts.drop_multicast
                        (add_packet_type_drop input_chain pkt_type_multicast)
                      ++ when a.opts.drop_anycast (add_anycast_drop input_chain)))))
  last_modules a =
      let o = a.opts in
      let c = input_chain in
      let S = Safe nf p b in
      All-append S _ _
        (on-AllSafe o.ssh_brute_force _
          (add_ssh_brute_force-AllSafe nf p b a.net c a.rules o a.sink))
        (All-append S _ _
          (on-AllSafe o.connection_limit _ (add_connection_limit-AllSafe nf p b a.net c o))
          (All-append S _ _
            (on-AllSafe o.drop_broadcast _
              (add_packet_type_drop-AllSafe nf p b c pkt_type_broadcast))
            (All-append S _ _
              (on-AllSafe o.drop_multicast _
                (add_packet_type_drop-AllSafe nf p b c pkt_type_multicast))
              (on-AllSafe o.drop_anycast _ (add_anycast_drop-AllSafe nf p b c)))))

  pub module_rules-AllSafe : (a : Apply) → AllSafe nf p b (module_rules a)
  unfolding module_rules
  module_rules-AllSafe a =
      let o = a.opts in
      let c = input_chain in
      let S = Safe nf p b in
      All-append S _ _
        (on-AllSafe o.port_scan _ (add_port_scan_prevention-AllSafe nf p b c o a.sink))
        (All-append S _ _
          (on-AllSafe o.syn_flood _ (add_syn_flood_protection-AllSafe nf p b a.net c o a.sink))
          (All-append S _ _
            (on-AllSafe o.invalid_packets _ (add_invalid_packet_drop-AllSafe nf p b c o a.sink))
            (All-append S _ _
              (on-AllSafe o.fragments _ (add_fragment_drop-AllSafe nf p b fragment_chain o a.sink))
              (All-append S _ _
                (on-AllSafe o.bogons _ (
                  add_bogon_filter-AllSafe nf p b a.net c o a.sink
                    (a.rules.allowlist ++ docker_cidrs a) a.rules))
                (last_modules a)))))
