-- ===== src/Nftables/Quiet/Drops.antt =====
-- The bogon filter, the connection limit, the drops by kind of address, the blocklist and the feeds of
-- internal/core add no rule that accepts.
use easywall.Prelude.{
  ℕ, ◌≡◌, refl, Bool, Option, none, some, List, [], ◌∷◌, ◌++◌, All-append, if-elim, not, ◌&&◌,
  subst,
}
use easywall.Text.{Text, codes, same}
use easywall.Rules.{PortRule, Rules}
use easywall.Nftables.{
  Expr, Rule, LogSpec, LogSink, verdict, drop, back, rule, counter, ipproto_tcp, ipproto_udp,
  lookup, add_filtered,
}
use easywall.Nftables.Net.{Netlib}
use easywall.Nftables.Match.{entry_match, ipv4_source_match}
use easywall.Nftables.Accepts.{add_blocklist_rule, filters_host}
use easywall.Nftables.Options.{Options}
use easywall.Nftables.Filters.{AddrFamily, ipv4_family, ipv6_family, src_addr_exprs, family_suffix}
use easywall.Nftables.Drops.{
  bogon_chain, bogon_ranges, exempt_rules, with_port, source_rules, port_source_rules, range_rules,
  add_bogon_filter, connection_limit_family, add_connection_limit, add_packet_type_drop,
  add_anycast_drop, feed_set_name, feed_family, both_added, feed_rules, add_feeds, feed_rule_order,
}
use easywall.Nftables.Netfilter.{Netfilter, kind_of}
use easywall.Nftables.Reading.{Safe}
use easywall.Nftables.Quiet.{
  AllSafe, when-AllSafe, add_logged-AllSafe, add_filtered-AllSafe, on_match-AllSafe,
}

module _ {Packet : Type 0} (nf : Netfilter Packet) (p : Packet) (b : Bool) where
  exempt_rules-AllSafe :
      (net : Netlib) (cidrs : List Text) → AllSafe nf p b (exempt_rules net cidrs)
  unfolding exempt_rules
  exempt_rules-AllSafe net [] = tt
  exempt_rules-AllSafe net (cidr ∷ rest) =
      All-append (Safe nf p b) _ _
        (on_match-AllSafe nf p b bogon_chain (ipv4_source_match net cidr) back tt)
        (exempt_rules-AllSafe net rest)

  source_rules-AllSafe :
      (net : Netlib) (proto : ℕ) (r : PortRule) (sources : List Text)
      → AllSafe nf p b (source_rules net proto r sources)
  unfolding source_rules
  source_rules-AllSafe net proto r [] = tt
  source_rules-AllSafe net proto r (src ∷ rest) =
      All-append (Safe nf p b) _ _
        (on_match-AllSafe nf p b bogon_chain (with_port proto r (ipv4_source_match net src)) back
          tt)
        (source_rules-AllSafe net proto r rest)

  port_source_rules-AllSafe :
      (net : Netlib) (proto : ℕ) (rs : List PortRule)
      → AllSafe nf p b (port_source_rules net proto rs)
  unfolding port_source_rules
  port_source_rules-AllSafe net proto [] = tt
  port_source_rules-AllSafe net proto (r ∷ rs) =
      All-append (Safe nf p b) _ _
        (when-AllSafe nf p b (filters_host r) _ (source_rules-AllSafe net proto r r.sources))
        (port_source_rules-AllSafe net proto rs)

  -- Logged drops on a match, if there is one.
  drop_match-AllSafe :
      (c : Text) (lg : LogSpec) (sink : LogSink) (m : Option (List Expr))
      → AllSafe nf p b (elim m as (λ m. List Rule) [
        | none ↦ []
        | some match ↦ add_filtered c match (verdict drop) lg sink
      ])
  drop_match-AllSafe c lg sink none = tt
  drop_match-AllSafe c lg sink (some match) = add_filtered-AllSafe nf p b c match lg sink

  range_rules-AllSafe :
      (net : Netlib) (lg : LogSpec) (sink : LogSink) (cidrs : List Text)
      → AllSafe nf p b (range_rules net lg sink cidrs)
  unfolding range_rules
  range_rules-AllSafe net lg sink [] = tt
  range_rules-AllSafe net lg sink (cidr ∷ rest) =
      All-append (Safe nf p b) _ _
        (drop_match-AllSafe bogon_chain lg sink (ipv4_source_match net cidr))
        (range_rules-AllSafe net lg sink rest)

  pub add_bogon_filter-AllSafe :
      (net : Netlib) (c : Text) (opts : Options) (sink : LogSink) (exempt : List Text)
      (rules : Rules)
      → AllSafe nf p b (add_bogon_filter net c opts sink exempt rules)
  unfolding add_bogon_filter kind_of same
  add_bogon_filter-AllSafe net c opts sink exempt rules =
      All-append (Safe nf p b) _ _ (exempt_rules-AllSafe net exempt) (
        All-append (Safe nf p b) _ _ (port_source_rules-AllSafe net ipproto_tcp rules.tcp) (
          All-append (Safe nf p b) _ _ (port_source_rules-AllSafe net ipproto_udp rules.udp) (
            All-append (Safe nf p b) _ _ (range_rules-AllSafe net _ sink bogon_ranges) (refl, tt))))

  connection_limit_family-AllSafe :
      (net : Netlib) (c : Text) (max : ℕ) (f : AddrFamily)
      → AllSafe nf p b (connection_limit_family net c max f)
  unfolding connection_limit_family kind_of
  connection_limit_family-AllSafe net c max f =
      when-AllSafe nf p b (net.adds_set (codes "connlimit-" ++ family_suffix f)) _ (tt, tt)

  pub add_connection_limit-AllSafe :
      (net : Netlib) (c : Text) (opts : Options) → AllSafe nf p b (add_connection_limit net c opts)
  unfolding add_connection_limit
  add_connection_limit-AllSafe net c opts =
      All-append (Safe nf p b) _ _ (connection_limit_family-AllSafe net c _ ipv4_family)
        (connection_limit_family-AllSafe net c _ ipv6_family)

  pub add_packet_type_drop-AllSafe : (c : Text) (t : ℕ) → AllSafe nf p b (add_packet_type_drop c t)
  unfolding add_packet_type_drop kind_of
  add_packet_type_drop-AllSafe c t = (tt, tt)

  pub add_anycast_drop-AllSafe : (c : Text) → AllSafe nf p b (add_anycast_drop c)
  unfolding add_anycast_drop kind_of
  add_anycast_drop-AllSafe c = (tt, tt)

  pub add_blocklist_rule-AllSafe :
      (net : Netlib) (c : Text) (lg : LogSpec) (sink : LogSink) (ip : Text)
      → AllSafe nf p b (add_blocklist_rule net c lg sink ip)
  unfolding add_blocklist_rule
  add_blocklist_rule-AllSafe net c lg sink ip = drop_match-AllSafe c lg sink (entry_match net ip)

  -- The rules, if there are any.
  abbrev AddedSafe : Option (List Rule) → Type 0
  AddedSafe none = Unit {0}
  AddedSafe (some rs) = AllSafe nf p b rs

  feed_family-AddedSafe :
      (net : Netlib) (c : Text) (lists : Option Text) (opts : Options) (sink : LogSink) (id : Text)
      (f : AddrFamily)
      → AddedSafe (feed_family net c lists opts sink id f)
  unfolding feed_family kind_of
  feed_family-AddedSafe net c lists opts sink id f =
      if-elim {A = Option (List Rule)} AddedSafe
        (not (net.adds_set (feed_set_name id f) && net.adds_elements (feed_set_name id f))) _ _
        (λ failed. tt)
        (λ added.
          All-append (Safe nf p b) _ _
            (add_logged-AllSafe nf p b c _ _ sink _ counter (verdict drop ∷ []) drop refl tt)
            (forward_copy lists))
    where
      forward_copy :
          (lists : Option Text)
          → AllSafe nf p b (elim lists as (λ l. List Rule) [
            | none ↦ []
            | some chain ↦
                rule chain (
                  (src_addr_exprs f ++ (lookup 1 (feed_set_name id f) ∷ []))
                  ++ (counter ∷ verdict drop ∷ []))
                ∷ []
          ])
      forward_copy none = tt
      forward_copy (some chain) = (tt, tt)

  both_added-AddedSafe :
      (x y : Option (List Rule)) → AddedSafe x → AddedSafe y → AddedSafe (both_added x y)
  both_added-AddedSafe none y s t = tt
  both_added-AddedSafe (some xs) none s t = tt
  both_added-AddedSafe (some xs) (some ys) s t = All-append (Safe nf p b) xs ys s t

  feed_rules-AddedSafe :
      (net : Netlib) (c : Text) (lists : Option Text) (opts : Options) (sink : LogSink)
      (ids : List Text)
      → AddedSafe (feed_rules net c lists opts sink ids)
  unfolding feed_rules
  feed_rules-AddedSafe net c lists opts sink [] = tt
  feed_rules-AddedSafe net c lists opts sink (id ∷ ids) =
      both_added-AddedSafe (feed_family net c lists opts sink id ipv4_family) _
        (feed_family-AddedSafe net c lists opts sink id ipv4_family)
        (both_added-AddedSafe (feed_family net c lists opts sink id ipv6_family) _
          (feed_family-AddedSafe net c lists opts sink id ipv6_family)
          (feed_rules-AddedSafe net c lists opts sink ids))

  pub add_feeds-AllSafe :
      (net : Netlib) (c : Text) (lists : Option Text) (opts : Options) (sink : LogSink)
      (enabled : List Text) (rs : List Rule)
      → add_feeds net c lists opts sink enabled ≡ some rs
      → AllSafe nf p b rs
  unfolding add_feeds
  add_feeds-AllSafe net c lists opts sink enabled rs e =
      subst AddedSafe e (feed_rules-AddedSafe net c lists opts sink (feed_rule_order enabled))
