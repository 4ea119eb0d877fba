-- ===== src/Rules/Validate/Accepts.antt =====
-- ValidateRules against the description of a storable rule set.
use easywall.Prelude.{
  ℕ, ◌+◌, ◌≤◌, ◌≡◌, refl, ◌↔◌, inl, inr, true, Option, none, some, List, [], ◌∷◌, ◌++◌, All, arith,
  Bool-cases, is_nil,
}
use easywall.Text.{Text, codes, ℤ, pos, negsuc}
use easywall.Text.Laws.{same_iff, contains-Absent}
use easywall.Rules.{PortRule, ForwardingRule, Rules}
use easywall.Rules.Feeds.{is_country_feed}
use easywall.Rules.Validate.{
  PortError, Error, validate_port_rule, labelled, check_tcp, check_udp, check_ids, check_entry,
  max_countries, check_feeds, is_one_statement, check_custom, is_port, check_forward,
  validate_rules, blocklist_entry, allowlist_entry,
}
use easywall.Rules.Validate.Storable.{
  IsEntry, IsPortRule, DistinctIds, DistinctFeeds, countries, InPorts, IsForward, IsStorable,
}
use easywall.Rules.Validate.{tcp_rule, udp_rule}
use easywall.Rules.Validate.Ports.{
  check_all_iff, check_entry_iff, validate_port_rule-none, port_rule-validate,
}

labelled_iff : (f : PortError → Error) (o : Option PortError) → (labelled f o ≡ none) ↔ (o ≡ none)
unfolding labelled
labelled_iff f none = ground arith
labelled_iff f (some e) = ground arith

check_tcp_iff : (r : PortRule) → (check_tcp r ≡ none) ↔ IsPortRule r
unfolding check_tcp
check_tcp_iff r =
    let l = labelled_iff (tcp_rule r) (validate_port_rule r) in
    ((λ e. validate_port_rule-none r (l.0 e)), (λ k. l.1 (port_rule-validate r k)))

check_udp_iff : (r : PortRule) → (check_udp r ≡ none) ↔ IsPortRule r
unfolding check_udp
check_udp_iff r =
    let l = labelled_iff (udp_rule r) (validate_port_rule r) in
    ((λ e. validate_port_rule-none r (l.0 e)), (λ k. l.1 (port_rule-validate r k)))

is_nil_iff : (s : Text) → (is_nil s ≡ true) ↔ (s ≡ [])
is_nil_iff [] = ground arith
is_nil_iff (c ∷ cs) = ground arith

check_ids_iff :
    (seen : List Text) (rs : List PortRule) → (check_ids seen rs ≡ none) ↔ DistinctIds seen rs
unfolding check_ids
check_ids_iff seen [] = ((λ e. tt), (λ k. refl))
check_ids_iff seen (r ∷ rs) =
    let n = is_nil_iff r.id in
    let a = contains-Absent r.id seen in
    let skip = check_ids_iff seen rs in
    let rest = check_ids_iff (r.id ∷ seen) rs in
    ((λ e. ground (arith, n, a, skip, rest)), (λ k. ground (arith, n, a, skip, rest)))

check_feeds_iff :
    (seen : List Text) (n : ℕ) (ids : List Text)
    → (check_feeds seen n ids ≡ none)
      ↔ (DistinctFeeds seen ids × (n + countries ids ≤ max_countries))
unfolding check_feeds
check_feeds_iff seen n [] = ground arith
check_feeds_iff seen n (id ∷ ids) =
    let a = contains-Absent id seen in
    let rest = check_feeds_iff (id ∷ seen) n ids in
    let more = check_feeds_iff (id ∷ seen) (n + 1) ids in
    elim (Bool-cases (is_country_feed id)) [
      | inl c ↦ rw (c, check_feeds) (ground (arith, a, more))
      | inr c ↦ rw (c, check_feeds) (ground (arith, a, rest))
    ]

check_custom_iff :
    (i : ℕ) (rules : List Text)
    → (check_custom i rules ≡ none) ↔ All (λ rule. is_one_statement rule ≡ true) rules
unfolding check_custom
check_custom_iff i [] = ((λ e. tt), (λ k. refl))
check_custom_iff i (rule ∷ rules) =
    let rest = check_custom_iff (i + 1) rules in
    ((λ e. ground (arith, rest)), (λ k. ground (arith, rest)))

is_port_iff : (p : ℤ) → (is_port p ≡ true) ↔ InPorts p
unfolding is_port
is_port_iff (pos n) = ground arith
is_port_iff (negsuc n) = ground arith

check_forward_iff : (f : ForwardingRule) → (check_forward f ≡ none) ↔ IsForward f
unfolding check_forward
check_forward_iff f =
    let t = same_iff f.protocol (codes "tcp") in
    let u = same_iff f.protocol (codes "udp") in
    let s = is_port_iff f.source_port in
    let d = is_port_iff f.dest_port in
    (
      (λ e. record {
        protocol = ground (arith, t, u);
        source_port = ground (arith, s);
        dest_port = ground (arith, d);
      }),
      (λ k. ground (arith, t, u, s, d)),
    )

-- ValidateRules accepts a rule set exactly if it is storable: every port rule has a port or a
-- range within 1 to 65535, one of the four scopes, and sources that are comments or addresses;
-- the ids that are there are well-formed and distinct over both protocols; every entry of the
-- blocklist and the allowlist is a comment or an address; the feeds are known, distinct and of at
-- most thirty countries; no custom rule holds a separator; and every forwarding rule has a
-- transport and two ports.
pub validate_rules-IsStorable : (r : Rules) → (validate_rules r ≡ none) ↔ IsStorable r
unfolding validate_rules
validate_rules-IsStorable r =
    let t = check_all_iff check_tcp IsPortRule check_tcp_iff r.tcp in
    let u = check_all_iff check_udp IsPortRule check_udp_iff r.udp in
    let i = check_ids_iff [] (r.tcp ++ r.udp) in
    let b =
      check_all_iff (check_entry blocklist_entry) IsEntry (check_entry_iff blocklist_entry)
        r.blocklist in
    let a =
      check_all_iff (check_entry allowlist_entry) IsEntry (check_entry_iff allowlist_entry)
        r.allowlist in
    let f = check_feeds_iff [] 0 r.feeds in
    let c = check_custom_iff 1 r.custom in
    let w = check_all_iff check_forward IsForward check_forward_iff r.forwarding in
    (
      (λ e. record {
        tcp = t.0 (ground arith);
        udp = u.0 (ground arith);
        ids = i.0 (ground arith);
        blocklist = b.0 (ground arith);
        allowlist = a.0 (ground arith);
        feeds = (f.0 (ground arith)).0;
        few_countries = let few = (f.0 (ground arith)).1 in omega arith;
        custom = c.0 (ground arith);
        forwarding = w.0 (ground arith);
      }),
      (λ k.
          let t' = t.1 k.tcp in
          let u' = u.1 k.udp in
          let i' = i.1 k.ids in
          let b' = b.1 k.blocklist in
          let a' = a.1 k.allowlist in
          let f' = f.1 (k.feeds, omega (arith, k.few_countries)) in
          let c' = c.1 k.custom in let w' = w.1 k.forwarding in ground arith),
    )
