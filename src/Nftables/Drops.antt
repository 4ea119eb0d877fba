-- ===== src/Nftables/Drops.antt =====
-- The bogon filter, the connection limit, the drops by kind of address, and the feeds, of
-- internal/core/nftables.go and nftables_feeds.go.
use easywall.Prelude.{
  ℕ, ◌%◌, Bool, true, false, not, ◌&&◌, Option, none, some, List, [], ◌∷◌, ◌++◌, if◌then◌else◌,
}
use easywall.Text.{Text, codes, pos}
use easywall.Rules.{PortRule, Rules}
use easywall.Rules.Feeds.{is_country_feed}
use easywall.Nftables.{
  Expr, Rule, rule, meta, cmp, fib, lookup, dynset, connlimit, counter, verdict, drop, back, jump,
  iifname, pkttype, eq, neq, LogSpec, LogSink, add_filtered, add_logged, native_u32, loopback_name,
  rtn_anycast, or_default, nfproto_ipv4, ipproto_tcp, ipproto_udp,
}
use easywall.Nftables.Net.{Netlib}
use easywall.Nftables.Match.{family_is, protocol_is, build_port_exprs, ipv4_source_match}
use easywall.Nftables.Accepts.{filters_host, on_match}
use easywall.Nftables.Options.{Options}
use easywall.Nftables.Filters.{AddrFamily, ipv4_family, ipv6_family, family_suffix, src_addr_exprs}

abbrev pub bogon_chain : Text
bogon_chain = codes "bogon"

-- BogonRanges of internal/shared/reach.go.
abbrev pub bogon_ranges : List Text
bogon_ranges =
    codes "0.0.0.0/8"
    ∷ codes "10.0.0.0/8"
    ∷ codes "100.64.0.0/10"
    ∷ codes "127.0.0.0/8"
    ∷ codes "169.254.0.0/16"
    ∷ codes "172.16.0.0/12"
    ∷ codes "192.0.2.0/24"
    ∷ codes "192.168.0.0/16"
    ∷ codes "198.51.100.0/24"
    ∷ codes "203.0.113.0/24"
    ∷ codes "240.0.0.0/4"
    ∷ []

unfoldable pub exempt_rules : Netlib → List Text → List Rule
exempt_rules net [] = []
exempt_rules net (cidr ∷ rest) =
    on_match bogon_chain (ipv4_source_match net cidr) back ++ exempt_rules net rest

-- A source of a port rule that the filter lets through to the rule's port.
abbrev pub with_port : ℕ → PortRule → Option (List Expr) → Option (List Expr)
with_port proto r none = none
with_port proto r (some match) = some (match ++ (protocol_is proto ++ build_port_exprs r.port))

unfoldable pub source_rules : Netlib → ℕ → PortRule → List Text → List Rule
source_rules net proto r [] = []
source_rules net proto r (src ∷ rest) =
    on_match bogon_chain (with_port proto r (ipv4_source_match net src)) back
    ++ source_rules net proto r rest

unfoldable pub port_source_rules : Netlib → ℕ → List PortRule → List Rule
port_source_rules net proto [] = []
port_source_rules net proto (r ∷ rs) =
    (if filters_host r then source_rules net proto r r.sources else [])
    ++ port_source_rules net proto rs

unfoldable pub range_rules : Netlib → LogSpec → LogSink → List Text → List Rule
range_rules net lg sink [] = []
range_rules net lg sink (cidr ∷ rest) =
    elim (ipv4_source_match net cidr) [
      | none ↦ []
      | some match ↦ add_filtered bogon_chain match (verdict drop) lg sink
    ]
    ++ range_rules net lg sink rest

-- addBogonFilter
unfoldable pub add_bogon_filter : Netlib → Text → Options → LogSink → List Text → Rules → List Rule
add_bogon_filter net c opts sink exempt rules =
    let lg : LogSpec = record {
      enabled = opts.bogons_log;
      prefix = codes "easywall bogon: ";
      per_minute = pos 0;
    } in
    exempt_rules net exempt
    ++ (port_source_rules net ipproto_tcp rules.tcp
        ++ (port_source_rules net ipproto_udp rules.udp
            ++ (range_rules net lg sink bogon_ranges
                ++ (rule c (
                      family_is nfproto_ipv4
                      ++ (meta iifname 1
                          ∷ cmp neq 1 loopback_name
                          ∷ verdict (jump bogon_chain)
                          ∷ []))
                    ∷ []))))

-- addConnectionLimit, for one family.
unfoldable pub connection_limit_family : Netlib → Text → ℕ → AddrFamily → List Rule
connection_limit_family net c max f =
    let set = codes "connlimit-" ++ family_suffix f in
    if net.adds_set set
    then rule c
        (src_addr_exprs f ++ (dynset 1 set (connlimit (max % 4294967296)) ∷ verdict drop ∷ []))
      ∷ []
    else []

-- addConnectionLimit
unfoldable pub add_connection_limit : Netlib → Text → Options → List Rule
add_connection_limit net c opts =
    let max = or_default 100 opts.connection_limit_max in
    connection_limit_family net c max ipv4_family ++ connection_limit_family net c max ipv6_family

-- addBroadcastDrop and addMulticastDrop, by the packet's type.
unfoldable pub add_packet_type_drop : Text → ℕ → List Rule
add_packet_type_drop c pkt_type =
    rule c (meta pkttype 1 ∷ cmp eq 1 (pkt_type ∷ []) ∷ verdict drop ∷ []) ∷ []

abbrev pub pkt_type_broadcast : ℕ
pkt_type_broadcast = 1

abbrev pub pkt_type_multicast : ℕ
pkt_type_multicast = 2

-- addAnycastDrop
unfoldable pub add_anycast_drop : Text → List Rule
add_anycast_drop c = rule c (fib 1 ∷ cmp eq 1 (native_u32 rtn_anycast) ∷ verdict drop ∷ []) ∷ []

-- FeedRuleOrder of internal/shared/countries.go.
unfoldable pub feeds_where : Bool → List Text → List Text
feeds_where country [] = []
feeds_where country (id ∷ ids) =
    let rest = feeds_where country ids in
    if (if country then is_country_feed id else not (is_country_feed id)) then id ∷ rest else rest

unfoldable pub feed_rule_order : List Text → List Text
unfolding feeds_where
feed_rule_order ids = feeds_where false ids ++ feeds_where true ids

-- feedSetName
abbrev pub feed_set_name : Text → AddrFamily → Text
feed_set_name id f = codes "feed-" ++ (id ++ (codes "-" ++ family_suffix f))

-- feedCounterID
abbrev pub feed_counter_id : Text → Text
feed_counter_id id = codes "_feed-" ++ id

-- One set of a feed: its rule in the input chain, and that in the forward chain's lists, where
-- there are such. none is an error of the connection.
unfoldable pub feed_family :
    Netlib → Text → Option Text → Options → LogSink → Text → AddrFamily → Option (List Rule)
feed_family net c lists opts sink id f =
    let set = feed_set_name id f in
    let lg : LogSpec = record {
      enabled = opts.log_feed;
      prefix = codes "easywall feed: " ++ (id ++ codes " ");
      per_minute = opts.log_feed_limit;
    } in
    let match = src_addr_exprs f ++ (lookup 1 set ∷ []) in
    if not (net.adds_set set && net.adds_elements set)
    then none
    else some (
        add_logged c match lg sink (some (feed_counter_id id)) (counter ∷ verdict drop ∷ [])
        ++ elim lists [
          | none ↦ []
          | some chain ↦ rule chain (match ++ (counter ∷ verdict drop ∷ [])) ∷ []
        ])

-- The results of two steps that may fail, in turn.
abbrev pub both_added : Option (List Rule) → Option (List Rule) → Option (List Rule)
both_added none b = none
both_added (some xs) none = none
both_added (some xs) (some ys) = some (xs ++ ys)

unfoldable pub feed_rules :
    Netlib → Text → Option Text → Options → LogSink → List Text → Option (List Rule)
feed_rules net c lists opts sink [] = some []
feed_rules net c lists opts sink (id ∷ ids) =
    both_added (feed_family net c lists opts sink id ipv4_family) (
      both_added (feed_family net c lists opts sink id ipv6_family)
        (feed_rules net c lists opts sink ids))

-- addFeeds
unfoldable pub add_feeds :
    Netlib → Text → Option Text → Options → LogSink → List Text → Option (List Rule)
add_feeds net c lists opts sink enabled = feed_rules net c lists opts sink (feed_rule_order enabled)
