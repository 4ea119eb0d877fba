-- ===== src/Nftables/Admitted/Whole.antt =====
-- The table of an apply accepts at the input hook only what the configuration admits.
use easywall.Prelude.{
  ℕ, ◌≡◌, refl, sym, subst, Bool, true, false, not, ◌&&◌, ◌||◌, none, some, List, [], ◌∷◌, ◌++◌,
  All-append, arith, if-elim, if◌then◌else◌, Option-cases, inl, inr,
}
use easywall.Text.{Text, codes, same}
use easywall.Rules.{ForwardingRule}
use easywall.Rules.Validate.{validate_rules}
use easywall.Rules.Validate.Storable.{IsStorable}
use easywall.Rules.Validate.Accepts.{validate_rules-IsStorable}
use easywall.Nftables.{
  Rule, input_chain, nfproto_ipv6, ipproto_icmp, ipproto_icmpv6, ipproto_tcp, ipproto_udp, LogSpec,
}
use easywall.Nftables.Accepts.{
  Ipv6Mode, filter, passthrough, block, is_filter, add_icmp_types_accept, add_icmp_rules,
  add_echo_accepts, icmpv4_accepted, icmpv6_accepted, add_cidr_accept, add_allowlist_rule,
  add_blocklist_rule, add_family_verdict,
}
use easywall.Nftables.Drops.{add_feeds}
use easywall.Nftables.Build.{
  Apply, Batch, batch, ipv6_mode_of, routing_of, docker_cidrs, ipv6_disposition, forward_rules,
  base_rules, each_entry, docker_accepts, blocklist_rules, allowlist_rules, add_forwarding_rules,
  open_rules, rules_before_lists, built_rules, add_final_log, apply_with_feeds,
}
use easywall.Nftables.Netfilter.{Netfilter, accepted, kind_of, walk}
use easywall.Nftables.Reading.{Safe, walk-Safe}
use easywall.Nftables.Quiet.{AllSafe, log_end}
use easywall.Nftables.Quiet.Filters.{add_icmp_flood_protection-AllSafe, add_tcp_rst_flood-AllSafe}
use easywall.Nftables.Quiet.Drops.{add_blocklist_rule-AllSafe, add_feeds-AllSafe}
use easywall.Nftables.Quiet.Modules.{on-AllSafe, module_rules-AllSafe}
use easywall.Nftables.Quiet.Forward.{build_forward_chain-AllSafe}
use easywall.Nftables.Admitted.{
  any, has_icmp_type, from_docker, is_allowed, passes_ipv6, neighbour_types, admitted_early,
  admitted_late,
}
use easywall.Nftables.Admitted.Early.{
  add_loopback_accept-AllSafe, add_family_verdict-AllSafe, add_established_accept-AllSafe,
  add_icmp_types_accept-AllSafe, add_cidr_accept-AllSafe, add_allowlist_rule-AllSafe,
  each_entry-AllSafe,
}
use easywall.Nftables.Admitted.Late.{add_port_accepts-AllSafe}

module _ {Packet : Type 0} (nf : Netfilter Packet) (p : Packet) (b : Bool) where
  ipv6_disposition-AllSafe :
      (mode : Ipv6Mode)
      → (passes_ipv6 nf p mode ≡ true → b ≡ true)
      → AllSafe nf p b (ipv6_disposition mode)
  unfolding ipv6_disposition kind_of add_family_verdict
  ipv6_disposition-AllSafe filter h = tt
  ipv6_disposition-AllSafe passthrough h = add_family_verdict-AllSafe nf p b nfproto_ipv6 h
  ipv6_disposition-AllSafe block h = (tt, tt)

  types_in_filter :
      (mode : Ipv6Mode) (types : List ℕ)
      → ((is_filter mode && any (has_icmp_type nf p ipproto_icmpv6) types) ≡ true → b ≡ true)
      → AllSafe nf p b (
          if not (is_filter mode)
          then []
          else add_icmp_types_accept input_chain ipproto_icmpv6 types)
  types_in_filter filter types h = add_icmp_types_accept-AllSafe nf p b ipproto_icmpv6 types h
  types_in_filter passthrough types h = tt
  types_in_filter block types h = tt

  base_rules-AllSafe :
      (a : Apply) → (admitted_early nf p a ≡ true → b ≡ true) → AllSafe nf p b (base_rules a)
  unfolding base_rules add_icmp_rules admitted_early
  base_rules-AllSafe a h =
      let o = a.opts in
      let mode = ipv6_mode_of a.cfg.ipv6_mode in
      let S = Safe nf p b in
      All-append S _ _ (add_loopback_accept-AllSafe nf p b (λ e. h (ground (arith, e)))) (
        All-append S _ _ (ipv6_disposition-AllSafe mode (λ e. h (ground (arith, e)))) (
          All-append S _ _
            (on-AllSafe nf p b o.icmp_flood _
              (add_icmp_flood_protection-AllSafe nf p b a.net input_chain o a.sink))
            (All-append S _ _
              (on-AllSafe nf p b o.tcp_rst_flood _
                (add_tcp_rst_flood-AllSafe nf p b a.net input_chain o a.sink))
              (All-append S _ _ (add_established_accept-AllSafe nf p b (λ e. h (ground (arith, e))))
                (types_in_filter mode (neighbour_types nf p a) (λ e. h (ground (arith, e))))))))

  pub rules_before_lists-AllSafe :
      (a : Apply)
      → (admitted_early nf p a ≡ true → b ≡ true)
      → AllSafe nf p b (rules_before_lists a)
  unfolding rules_before_lists forward_rules docker_accepts admitted_early
  rules_before_lists-AllSafe a h =
      let S = Safe nf p b in
      let c = docker_cidrs a in
      All-append S _ _ (base_rules-AllSafe a h) (
        All-append S _ _
          (build_forward_chain-AllSafe nf p b a.net a.rules a.cfg.docker (routing_of a.cfg) c
            (ipv6_mode_of a.cfg.ipv6_mode))
          (All-append S _ _ (module_rules-AllSafe nf p b a) (
            each_entry-AllSafe nf p b (add_cidr_accept a.net input_chain) (from_docker nf p a.net) c
              (λ x. add_cidr_accept-AllSafe nf p b a.net x) (λ e. h (ground (arith, e))))))

  each_blocked :
      (a : Apply) (lg : LogSpec) (xs : List Text)
      → AllSafe nf p b (each_entry (add_blocklist_rule a.net input_chain lg a.sink) xs)
  unfolding each_entry
  each_blocked a lg [] = tt
  each_blocked a lg (x ∷ xs) =
      All-append (Safe nf p b) _ _ (add_blocklist_rule-AllSafe nf p b a.net input_chain lg a.sink x)
        (each_blocked a lg xs)

  add_forwarding_rules-AllSafe :
      (fs : List ForwardingRule) → AllSafe nf p b (add_forwarding_rules fs)
  unfolding add_forwarding_rules kind_of
  add_forwarding_rules-AllSafe [] = tt
  add_forwarding_rules-AllSafe (f ∷ fs) = (tt, add_forwarding_rules-AllSafe fs)

  open_rules-AllSafe :
      (a : Apply)
      → IsStorable a.rules
      → (admitted_late nf p a ≡ true → b ≡ true)
      → AllSafe nf p b (open_rules a)
  unfolding open_rules add_echo_accepts admitted_late
  open_rules-AllSafe a v h =
      let S = Safe nf p b in
      let echo = a.opts.icmp_allow_echo_request in
      All-append S _ _
        (All-append S _ _
          (add_icmp_types_accept-AllSafe nf p b ipproto_icmp (icmpv4_accepted echo)
            (λ e. h (ground (arith, e))))
          (types_in_filter (ipv6_mode_of a.cfg.ipv6_mode) (icmpv6_accepted echo false false)
            (λ e. h (ground (arith, e)))))
        (All-append S _ _
          (add_port_accepts-AllSafe nf p b a.net ipproto_tcp a.rules.tcp v.tcp
            (λ e. h (ground (arith, e))))
          (All-append S _ _
            (add_port_accepts-AllSafe nf p b a.net ipproto_udp a.rules.udp v.udp
              (λ e. h (ground (arith, e))))
            (add_forwarding_rules-AllSafe a.rules.forwarding)))

  -- What stands behind the blocklist.
  pub rules_after-AllSafe :
      (a : Apply) (feeds : List Rule)
      → IsStorable a.rules
      → (admitted_late nf p a ≡ true → b ≡ true)
      → add_feeds a.net input_chain (forward_rules a).1 a.opts a.sink a.rules.feeds ≡ some feeds
      → AllSafe nf p b (allowlist_rules a ++ (feeds ++ open_rules a))
  unfolding allowlist_rules admitted_late
  rules_after-AllSafe a feeds v h e =
      let S = Safe nf p b in
      All-append S _ _
        (each_entry-AllSafe nf p b (add_allowlist_rule a.net input_chain) (is_allowed nf p a.net)
          a.rules.allowlist (λ x. add_allowlist_rule-AllSafe nf p b a.net x)
          (λ e. h (ground (arith, e))))
        (All-append S _ _
          (add_feeds-AllSafe nf p b a.net input_chain (forward_rules a).1 a.opts a.sink
            a.rules.feeds feeds e)
          (open_rules-AllSafe a v h))

  pub blocklist_rules-AllSafe : (a : Apply) → AllSafe nf p b (blocklist_rules a)
  unfolding blocklist_rules
  blocklist_rules-AllSafe a = each_blocked a _ a.rules.blocklist

-- What a batch is made of.
pub record Parts (a : Apply) (t : Batch) : Type 0 where
  pub feeds : List Rule
  pub valid : validate_rules a.rules ≡ none
  pub added :
      add_feeds a.net input_chain (forward_rules a).1 a.opts a.sink a.rules.feeds ≡ some feeds
  pub first :
      t.first
      ≡ rules_before_lists a
        ++ (blocklist_rules a ++ (allowlist_rules a ++ (feeds ++ open_rules a)))
  pub last : t.last ≡ (if a.opts.log_blocked then add_final_log a.opts a.sink else [])

pub apply_with_feeds-Parts : (a : Apply) (t : Batch) → apply_with_feeds a ≡ batch t → Parts a t
unfolding apply_with_feeds built_rules
apply_with_feeds-Parts a t e = elim (Option-cases (validate_rules a.rules)) [
  | inr (err, v) ↦ absurd (ground (arith, e, v))
  | inl v ↦
      elim (Option-cases
        (add_feeds a.net input_chain (forward_rules a).1 a.opts a.sink a.rules.feeds)) [
          | inl f ↦ absurd (ground (arith, e, v, f))
          | inr (feeds, f) ↦ record {
            feeds = feeds;
            valid = v;
            added = f;
            first = ground (arith, e, v, f);
            last = ground (arith, e, v, f);
          }
        ]
]

-- The table of an apply, without what the nft command makes of custom rules.
abbrev pub table : Batch → List Rule
table t = t.first ++ t.last

module _ {Packet : Type 0} (nf : Netfilter Packet) where
  add_final_log-AllSafe :
      (p : Packet) (b : Bool) (a : Apply)
      → AllSafe nf p b (if a.opts.log_blocked then add_final_log a.opts a.sink else [])
  unfolding add_final_log
  add_final_log-AllSafe p b a =
      if-elim {A = List Rule} (AllSafe nf p b) a.opts.log_blocked _ _
        (λ e. (log_end nf p b input_chain [] (codes "easywall drop: ") _ a.sink, tt)) (λ e. tt)

  pub table-AllSafe :
      (p : Packet) (a : Apply) (t : Batch)
      → Parts a t
      → AllSafe nf p (admitted_early nf p a || admitted_late nf p a) (table t)
  table-AllSafe p a t k =
      let b = admitted_early nf p a || admitted_late nf p a in
      let v = (validate_rules-IsStorable a.rules).0 k.valid in
      let before = rules_before_lists-AllSafe nf p b a (λ e. ground (arith, e)) in
      let after = rules_after-AllSafe nf p b a k.feeds v (λ e. ground (arith, e)) k.added in
      let first =
        All-append (Safe nf p b) _ _ before
          (All-append (Safe nf p b) _ _ (blocklist_rules-AllSafe nf p b a) after) in
      All-append (Safe nf p b) t.first t.last (subst (AllSafe nf p b) (sym k.first) first)
        (subst (AllSafe nf p b) (sym k.last) (add_final_log-AllSafe p b a))

  -- Whatever the options, the lists and the network settings are: if an apply has a table to write,
  -- the rules of its two flushes accept a packet that comes in only if it comes over the loopback
  -- interface, is of IPv6 where that passes through, belongs to a tracked connection, is of an
  -- accepted ICMP type, comes from a Docker network or from an entry of the allowlist, or goes to a
  -- port that a port rule for the host opens to its source.
  pub apply_with_feeds-admitted :
      (p : Packet) (a : Apply) (t : Batch) (depth : ℕ)
      → apply_with_feeds a ≡ batch t
      → walk nf depth (table t) input_chain (table t) p ≡ accepted
      → (admitted_early nf p a || admitted_late nf p a) ≡ true
  unfolding same
  apply_with_feeds-admitted p a t depth e w =
      let b = admitted_early nf p a || admitted_late nf p a in
      let safe = table-AllSafe p a t (apply_with_feeds-Parts a t e) in
      walk-Safe nf p b b depth (table t) input_chain (table t) safe safe (λ i. (refl, λ h. h)) w
