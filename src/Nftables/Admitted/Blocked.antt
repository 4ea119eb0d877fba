-- ===== src/Nftables/Admitted/Blocked.antt =====
-- A source that the blocklist names is let in by nothing that stands behind the blocklist.
use easywall.Prelude.{
  ℕ, ◌≡◌, refl, sym, subst, ◌∙◌, Bool, true, false, ◌||◌, some, List, [], ◌∷◌, ◌++◌, arith, if-elim,
  Option-cases, Bool-cases, inl, inr, ap,
}
use mathlib.Core.List.{append_assoc}
use easywall.Text.{Text, same}
use easywall.Nftables.{
  Expr, Rule, rule, verdict, drop, input_chain, LogSpec, LogSink, add_logged, add_filtered,
  log_exprs,
}
use easywall.Nftables.Net.{Netlib}
use easywall.Nftables.Match.{entry_match}
use easywall.Nftables.Accepts.{add_blocklist_rule}
use easywall.Nftables.Build.{
  Apply, Batch, batch, blocklist_log, each_entry, blocklist_rules, allowlist_rules, open_rules,
  rules_before_lists, apply_with_feeds,
}
use easywall.Nftables.Netfilter.{Netfilter, accepted, dropped, kind_of, walk}
use easywall.Nftables.Reading.{kind_of-append, walk-append-Safe, walk-drop}
use easywall.Nftables.Quiet.{AllSafe, log_end}
use easywall.Nftables.Quiet.Drops.{add_blocklist_rule-AllSafe}
use easywall.Nftables.Admitted.{any, is_blocked, admitted_early, admitted_late}
use easywall.Nftables.Admitted.Selected.{Selected, entry_match-Selected}
use easywall.Nftables.Admitted.Whole.{
  apply_with_feeds-Parts, table, table-AllSafe, rules_before_lists-AllSafe,
}

module _ {Packet : Type 0} (nf : Netfilter Packet) (p : Packet) where
  -- No rule stands behind a logged drop that matches.
  logged_drop :
      (n : ℕ) (rules : List Rule) (b : Bool) (match : List Expr) (lg : LogSpec) (sink : LogSink)
      (more : List Rule)
      → AllSafe nf p b rules
      → Selected nf p (some match)
      → walk nf n rules input_chain
          (add_filtered input_chain match (verdict drop) lg sink ++ more)
          p
        ≡ accepted
      → false ≡ true
  unfolding add_filtered add_logged kind_of same
  logged_drop n rules b match lg sink more t s =
      let acted = rule input_chain (match ++ (verdict drop ∷ [])) in
      let stop : walk nf n rules input_chain (acted ∷ more) p ≡ dropped =
        walk-drop nf p n rules input_chain acted more refl
          (s (verdict drop ∷ []) (λ w. nf.runs-verdict p w drop) [])
          (kind_of-append match (verdict drop) []) in
      let ends : walk nf n rules input_chain (acted ∷ more) p ≡ accepted → false ≡ true =
        λ e. cc (stop, e) in
      let logs = rule input_chain (match ++ log_exprs lg.prefix lg.per_minute sink) in
      if-elim {A = List Rule}
        (λ rs. walk nf n rules input_chain (rs ++ more) p ≡ accepted → false ≡ true) lg.enabled _ _
        (λ on.
          walk-append-Safe nf p b false n rules input_chain (logs ∷ []) (acted ∷ more) t
            (log_end nf p false input_chain match lg.prefix lg.per_minute sink, tt) refl ends)
        (λ off. ends)

  blocking_entry :
      (n : ℕ) (rules : List Rule) (b : Bool) (net : Netlib) (lg : LogSpec) (sink : LogSink)
      (ip : Text) (more : List Rule)
      → AllSafe nf p b rules
      → is_blocked nf p net ip ≡ true
      → walk nf n rules input_chain (add_blocklist_rule net input_chain lg sink ip ++ more) p
        ≡ accepted
      → false ≡ true
  unfolding add_blocklist_rule
  blocking_entry n rules b net lg sink ip more t h =
      let s = entry_match-Selected nf p net ip h in
      elim (Option-cases (entry_match net ip)) [
        | inl e ↦ absurd (subst (Selected nf p) e s)
        | inr (match, e) ↦
            rw (e, add_blocklist_rule)
              (logged_drop n rules b match lg sink more t (subst (Selected nf p) e s))
      ]

  blocking_list :
      (n : ℕ) (rules : List Rule) (b : Bool) (net : Netlib) (lg : LogSpec) (sink : LogSink)
      (ips : List Text) (more : List Rule)
      → AllSafe nf p b rules
      → any (is_blocked nf p net) ips ≡ true
      → walk nf n rules input_chain
          (each_entry (add_blocklist_rule net input_chain lg sink) ips ++ more)
          p
        ≡ accepted
      → false ≡ true
  unfolding each_entry same
  blocking_list n rules b net lg sink [] more t h = cc h
  blocking_list n rules b net lg sink (ip ∷ ips) more t h =
      let f = add_blocklist_rule net input_chain lg sink in
      let goal = λ (rs : List Rule). walk nf n rules input_chain rs p ≡ accepted → false ≡ true in
      subst goal (sym (append_assoc (f ip) (each_entry f ips) more))
        (elim (Bool-cases (is_blocked nf p net ip)) [
          | inl k ↦ blocking_entry n rules b net lg sink ip (each_entry f ips ++ more) t k
          | inr k ↦
              walk-append-Safe nf p b false n rules input_chain (f ip) (each_entry f ips ++ more) t
                (add_blocklist_rule-AllSafe nf p false net input_chain lg sink ip) refl
                (blocking_list n rules b net lg sink ips more t (ground (arith, h, k)))
        ])

  -- If an apply has a table to write and an entry of the blocklist names the source of a packet, the
  -- rules of its two flushes accept that packet only by what stands before the lists: the loopback
  -- interface, IPv6 that passes through, a tracked connection, neighbour discovery, or a Docker
  -- network. No allowlist, feed, ping switch or open port lets it in.
  pub apply_with_feeds-blocked :
      (a : Apply) (t : Batch) (depth : ℕ)
      → apply_with_feeds a ≡ batch t
      → any (is_blocked nf p a.net) a.rules.blocklist ≡ true
      → walk nf depth (table t) input_chain (table t) p ≡ accepted
      → admitted_early nf p a ≡ true
  unfolding blocklist_rules same
  apply_with_feeds-blocked a t depth e h w =
      let k = apply_with_feeds-Parts a t e in
      let b = admitted_early nf p a || admitted_late nf p a in
      let early = admitted_early nf p a in
      let safe = table-AllSafe nf p a t k in
      let late = allowlist_rules a ++ (k.feeds ++ open_rules a) in
      let behind = (blocklist_rules a ++ late) ++ t.last in
      let block =
        blocking_list depth (table t) b a.net (blocklist_log a.opts) a.sink a.rules.blocklist in
      let stops : walk nf depth (table t) input_chain behind p ≡ accepted → early ≡ true = λ v. cc (
        block (late ++ t.last) safe h (
          subst (λ rs. walk nf depth (table t) input_chain rs p ≡ accepted)
            (append_assoc (blocklist_rules a) late t.last) v)) in
      walk-append-Safe nf p b early depth (table t) input_chain (rules_before_lists a) behind safe
        (rules_before_lists-AllSafe nf p early a (λ v. v)) refl stops
        (subst (λ rs. walk nf depth (table t) input_chain rs p ≡ accepted)
          (ap (λ rs. rs ++ t.last) k.first
            ∙ append_assoc (rules_before_lists a) (blocklist_rules a ++ late) t.last)
          w)
