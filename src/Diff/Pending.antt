-- ===== src/Diff/Pending.antt =====
-- The whole preview, and what the dashboard is told.
use easywall.Prelude.{◌≡◌, ◌≢◌, refl, ◌↔◌, true, false, some, List, [], ◌∷◌, ◌++◌, arith, is_nil}
use easywall.Text.{codes}
use easywall.Rules.{PortRule, Rules}
use easywall.Store.{Io, Store, get_state}
use easywall.Diff.{
  SetName, tcp, udp, blocklist, allowlist, port_detail, index_ports, diff_ports, diff_rules,
  custom_lines, has_pending_changes,
}
use easywall.Diff.Once.{append_nil_iff}
use easywall.Diff.Ports.{SamePorts, diff_ports_iff}
use easywall.Diff.Sets.{
  SameEntries, diff_list_iff, diff_feeds_iff, SameForwards, diff_forwarding_iff, diff_custom_iff,
}

-- Two rule sets between which an apply changes nothing, as the preview reads them.
pub record SameRules (current staged : Rules) : Type 0 where
  pub tcp : SamePorts current.tcp staged.tcp
  pub udp : SamePorts current.udp staged.udp
  pub blocklist : SameEntries current.blocklist staged.blocklist
  pub allowlist : SameEntries current.allowlist staged.allowlist
  pub feeds : SameEntries current.feeds staged.feeds
  pub forwarding : SameForwards current.forwarding staged.forwarding
  pub custom : custom_lines current.custom ≡ custom_lines staged.custom

-- The preview lists nothing exactly if each port has the same details before and after, the
-- blocklist, the allowlist and the feeds hold the same entries, each incoming port is redirected
-- alike, and the custom rules without comments are the same sequence.
pub diff_rules-SameRules :
    (current staged : Rules) → (diff_rules current staged ≡ []) ↔ SameRules current staged
unfolding diff_rules
diff_rules-SameRules c s = (
  (λ e.
      let a = (append_nil_iff _ _).0 e in
      let b = (append_nil_iff _ _).0 a.1 in
      let d = (append_nil_iff _ _).0 b.1 in
      let f = (append_nil_iff _ _).0 d.1 in
      let g = (append_nil_iff _ _).0 f.1 in
      let h = (append_nil_iff _ _).0 g.1 in
      record {
        tcp = (diff_ports_iff _ c.tcp s.tcp).0 a.0;
        udp = (diff_ports_iff _ c.udp s.udp).0 b.0;
        blocklist = (diff_list_iff _ c.blocklist s.blocklist).0 d.0;
        allowlist = (diff_list_iff _ c.allowlist s.allowlist).0 f.0;
        feeds = (diff_feeds_iff c.feeds s.feeds).0 g.0;
        forwarding = (diff_forwarding_iff c.forwarding s.forwarding).0 h.0;
        custom = (diff_custom_iff c.custom s.custom).0 h.1;
      }),
  (λ k.
      let h = (append_nil_iff _ _).1 (
        (diff_forwarding_iff c.forwarding s.forwarding).1 k.forwarding,
        (diff_custom_iff c.custom s.custom).1 k.custom,
      ) in
      let g = (append_nil_iff _ _).1 ((diff_feeds_iff c.feeds s.feeds).1 k.feeds, h) in
      let f =
        (append_nil_iff _ _).1
          ((diff_list_iff allowlist c.allowlist s.allowlist).1 k.allowlist, g) in
      let d =
        (append_nil_iff _ _).1
          ((diff_list_iff blocklist c.blocklist s.blocklist).1 k.blocklist, f) in
      let b = (append_nil_iff _ _).1 ((diff_ports_iff udp c.udp s.udp).1 k.udp, d) in
      (append_nil_iff _ _).1 ((diff_ports_iff tcp c.tcp s.tcp).1 k.tcp, b)),
)

is_nil-eq {ℓ} : {A : Type ℓ} (xs : List A) → (is_nil xs ≡ true) ↔ (xs ≡ [])
is_nil-eq [] = ground arith
is_nil-eq (x ∷ xs) = ground arith

-- With a readable file, HasPendingChanges answers no exactly if the staged rules and the enforced
-- ones are the same in that sense.
pub has_pending_changes_iff :
    (io : Io) (s : Store)
    → io.reads ≡ true
    → (has_pending_changes io s ≡ some false) ↔ SameRules s.file.current s.file.staged
unfolding has_pending_changes get_state
has_pending_changes_iff io s r =
    let d = diff_rules-SameRules s.file.current s.file.staged in
    let n = is_nil-eq (diff_rules s.file.current s.file.staged) in
    ((λ e. d.0 (n.0 (ground arith))), (λ k. let z = n.1 (d.1 k) in ground arith))

abbrev describe_ssh : PortRule → PortRule
describe_ssh r = record r { ssh = false; description = r.description ++ codes " (ssh)" }

port_detail-describe_ssh :
    (r : PortRule)
    → r.ssh ≡ true
    → r.description ≢ []
    → r.scope ≡ []
    → r.sources ≡ []
    → port_detail (describe_ssh r) ≡ port_detail r
unfolding port_detail
port_detail-describe_ssh r ssh desc scope sources = ground arith

index_ports-singleton :
    (r q : PortRule) → q.port ≡ r.port → port_detail q ≡ port_detail r → SamePorts (r ∷ []) (q ∷ [])
unfolding index_ports
index_ports-singleton r q e d p = ground arith

-- A rule whose description is not empty and that uses the SSH chain, in the host's scope and
-- from anywhere, has the same detail as the rule that does not use it and has " (ssh)" appended
-- to its description: the preview does not tell the two apart, so that edit, which takes the port
-- out of the brute-force chain, is not listed.
pub diff_ports_misses_ssh :
    (set : SetName) (r : PortRule)
    → r.ssh ≡ true
    → r.description ≢ []
    → r.scope ≡ []
    → r.sources ≡ []
    → diff_ports set
        (r ∷ [])
        (record r { ssh = false; description = r.description ++ codes " (ssh)" } ∷ [])
      ≡ []
diff_ports_misses_ssh set r ssh desc scope sources =
    let d = port_detail-describe_ssh r ssh desc scope sources in
    (diff_ports_iff set (r ∷ []) (describe_ssh r ∷ [])).1
      (index_ports-singleton r (describe_ssh r) refl d)
