-- ===== src/Nftables/Admitted/Opened.antt =====
-- The accepts of the port rules open what they promise: a port rule of the host lets in whoever it
-- names, wherever it stands among the rules.
use easywall.Prelude.{
  ℕ, ◌↔◌, ◌≡◌, refl, sym, ◌∙◌, true, false, not, ◌&&◌, some, List, [], ◌∷◌, ◌++◌, All, arith,
  if-elim, if◌then◌else◌, is_nil, inl, inr, Bool-cases, Option-cases, subst,
}
use mathlib.Core.List.{append_assoc, append-nil}
use easywall.Text.{Text, same}
use easywall.Rules.{PortRule}
use easywall.Rules.Validate.Storable.{IsPortText, IsPortRule}
use easywall.Nftables.{Expr, Rule, meta, cmp, counter, verdict, accept, eq, l4proto, input_chain}
use easywall.Nftables.Net.{Netlib}
use easywall.Nftables.Match.{cidr_match, pos_src_addr, build_port_exprs}
use easywall.Nftables.Accepts.{
  source_matches, with_sources, port_accept_rule, port_accept_rules, add_port_accepts, filters_host,
}
use easywall.Nftables.Netfilter.{Netfilter, accepted, kind_of, walk}
use easywall.Nftables.Quiet.ForwardAccepts.{port_accept_rule-accept}
use easywall.Nftables.Admitted.{any, has_protocol, is_source, to_port, is_opened, opened_to}
use easywall.Nftables.Admitted.Selected.{Ends, Selected, reads-run}
use easywall.Nftables.Admitted.Reached.{
  build_port_exprs-Ends, walk-accept, walk-past, walk-past-All,
}
use easywall.Nftables.Admitted.Sources.{IsMeasuredSource, source_match-Selected}
use easywall.Nftables.Reading.{walk-Safe}
use easywall.Nftables.Admitted.Late.{add_port_accepts-AllSafe}

-- Every rule that port rules become can only accept.
abbrev OnlyAccepts : List Rule → Type 0
OnlyAccepts rs = All (λ r. kind_of r.exprs ≡ some accept) rs

with_sources-OnlyAccepts :
    (c : Text) (proto : ℕ) (r : PortRule) (matches : List (List Expr))
    → OnlyAccepts (with_sources c proto r matches)
unfolding with_sources
with_sources-OnlyAccepts c proto r [] = tt
with_sources-OnlyAccepts c proto r (match ∷ rest) =
    (port_accept_rule-accept c proto r match, with_sources-OnlyAccepts c proto r rest)

port_accept_rules-OnlyAccepts :
    (net : Netlib) (c : Text) (proto : ℕ) (r : PortRule)
    → OnlyAccepts (port_accept_rules net c proto r)
unfolding port_accept_rules
port_accept_rules-OnlyAccepts net c proto r =
    let matches = source_matches net r.sources in
    if-elim {A = List Rule} OnlyAccepts (not (is_nil r.sources) && is_nil matches) _ _ (λ e. tt)
      (λ e.
        if-elim {A = List Rule} OnlyAccepts (is_nil matches) _ _
          (λ n. (port_accept_rule-accept c proto r [], tt))
          (λ n. with_sources-OnlyAccepts c proto r matches))

source_matches-none :
    (net : Netlib) (sources : List Text)
    → is_nil sources ≡ true
    → is_nil (source_matches net sources) ≡ true
unfolding source_matches
source_matches-none net [] h = refl
source_matches-none net (src ∷ rest) h = cc h

module _ {Packet : Type 0} (nf : Netfilter Packet) (p : Packet) where
  -- A kernel rule of a port rule, behind a match that selects the packet.
  port_accept_rule-runs :
      (proto : ℕ) (r : PortRule) (match : List Expr)
      → IsPortText r.port
      → Selected nf p (some match)
      → (has_protocol nf p proto && to_port nf p r.port) ≡ true
      → nf.runs p [] (port_accept_rule input_chain proto r match).exprs ≡ true
  port_accept_rule-runs proto r match v s h =
      let tail = counter ∷ verdict accept ∷ [] in
      let ends : Ends nf p tail =
        λ w. nf.runs-counter p w (verdict accept ∷ []) ∙ nf.runs-verdict p w accept in
      let ports = build_port_exprs-Ends nf p r.port tail v (ground (arith, h)) ends in
      s (meta l4proto 1 ∷ cmp eq 1 (proto ∷ []) ∷ (build_port_exprs r.port ++ tail))
        (reads-run nf p (meta l4proto 1) eq (proto ∷ []) (build_port_exprs r.port ++ tail) refl
          (ground (arith, h)) ports)
        []

  port_accept_rule-walk :
      (n : ℕ) (rules : List Rule) (proto : ℕ) (r : PortRule) (match : List Expr) (more : List Rule)
      → IsPortText r.port
      → Selected nf p (some match)
      → (has_protocol nf p proto && to_port nf p r.port) ≡ true
      → walk nf n rules input_chain (port_accept_rule input_chain proto r match ∷ more) p ≡ accepted
  unfolding same
  port_accept_rule-walk n rules proto r match more v s h =
      walk-accept nf p n rules input_chain (port_accept_rule input_chain proto r match) more refl
        (port_accept_rule-runs proto r match v s h)
        (port_accept_rule-accept input_chain proto r match)

  -- A source that names the sender is found among the matches, and the rules for them accept.
  sources-walk :
      (n : ℕ) (rules : List Rule) (net : Netlib) (proto : ℕ) (r : PortRule) (sources : List Text)
      (more : List Rule)
      → IsPortText r.port
      → All (IsMeasuredSource net) sources
      → (has_protocol nf p proto && to_port nf p r.port) ≡ true
      → any (is_source nf p net) sources ≡ true
      → (is_nil (source_matches net sources) ≡ false)
        × (walk nf n rules input_chain
              (with_sources input_chain proto r (source_matches net sources) ++ more)
              p
            ≡ accepted)
  unfolding source_matches with_sources
  sources-walk n rules net proto r [] more v m h s = cc s
  sources-walk n rules net proto r (src ∷ rest) more v m h s =
      elim (Bool-cases (is_source nf p net src)) [
        | inl k ↦
            let sel = source_match-Selected nf p net src m.0 k in
            elim (Option-cases (cidr_match net src pos_src_addr)) [
              | inl e ↦ absurd (subst (Selected nf p) e sel)
              | inr (match, e) ↦
                  rw (e, source_matches)
                    (
                      refl,
                      port_accept_rule-walk n rules proto r match
                          (with_sources input_chain proto r (source_matches net rest) ++ more) v
                          (subst (Selected nf p) e sel) h,
                    )
            ]
        | inr k ↦
            let (full, w) =
              sources-walk n rules net proto r rest more v m.1 h (ground (arith, k, s)) in
            elim (Option-cases (cidr_match net src pos_src_addr)) [
              | inl e ↦ rw (e, source_matches) (full, w)
              | inr (match, e) ↦
                  rw (e, source_matches)
                    (
                      refl,
                      walk-past nf p n rules input_chain
                          (port_accept_rule input_chain proto r match)
                          (with_sources input_chain proto r (source_matches net rest) ++ more)
                          (port_accept_rule-accept input_chain proto r match) w,
                    )
            ]
      ]

  port_accept_rules-walk :
      (n : ℕ) (rules : List Rule) (net : Netlib) (proto : ℕ) (r : PortRule) (more : List Rule)
      → IsPortRule r
      → All (IsMeasuredSource net) r.sources
      → is_opened nf p net proto r ≡ true
      → walk nf n rules input_chain (port_accept_rules net input_chain proto r ++ more) p ≡ accepted
  unfolding port_accept_rules
  port_accept_rules-walk n rules net proto r more v m h =
      let to : (has_protocol nf p proto && to_port nf p r.port) ≡ true = ground (arith, h) in
      elim (Bool-cases (is_nil r.sources)) [
        | inl k ↦
            let e = source_matches-none net r.sources k in
            rw (k, e, port_accept_rules)
              (port_accept_rule-walk n rules proto r [] more v.port (λ rest e. e) to)
        | inr k ↦
            let (full, w) =
              sources-walk n rules net proto r r.sources more v.port m to (ground (arith, h, k)) in
            rw (k, full, port_accept_rules) w
      ]

  -- The rules of port rules of which one opens the packet's port to it, whatever follows them.
  add_port_accepts-walk :
      (net : Netlib) (proto : ℕ) (rs : List PortRule) (more : List Rule) (n : ℕ) (rules : List Rule)
      → All IsPortRule rs
      → All (λ r. All (IsMeasuredSource net) r.sources) rs
      → any (opened_to nf p net proto) rs ≡ true
      → walk nf n rules input_chain (add_port_accepts net input_chain proto rs ++ more) p ≡ accepted
  unfolding add_port_accepts
  add_port_accepts-walk net proto [] more n rules v m h = cc h
  add_port_accepts-walk net proto (r ∷ rs) more n rules v m h =
      let late = add_port_accepts net input_chain proto rs ++ more in
      let here = if filters_host r then port_accept_rules net input_chain proto r else [] in
      subst (λ xs. walk nf n rules input_chain xs p ≡ accepted)
        (sym (append_assoc here (add_port_accepts net input_chain proto rs) more))
        (elim (Bool-cases (opened_to nf p net proto r)) [
          | inl k ↦
              let on : filters_host r ≡ true = ground (arith, k) in
              rw on (port_accept_rules-walk n rules net proto r late v.0 m.0 (ground (arith, k)))
          | inr k ↦
              walk-past-All nf p n rules input_chain here late
                (if-elim {A = List Rule} OnlyAccepts (filters_host r) _ _
                  (λ f. port_accept_rules-OnlyAccepts net input_chain proto r) (λ f. tt))
                (add_port_accepts-walk net proto rs more n rules v.1 m.1 (ground (arith, h, k)))
        ])

  -- Take port rules that are storable and whose sources are read as networks of four bytes, or of
  -- sixteen that are no IPv4 address. The rules that the input chain has for them under a protocol
  -- accept a packet if and only if one of the port rules opens the packet's port to it: it concerns
  -- the host, the packet has the protocol and a destination port that the rule names, and the rule
  -- has no sources or one that the packet is from.
  pub add_port_accepts-opened :
      (net : Netlib) (proto : ℕ) (rs : List PortRule) (n : ℕ)
      → All IsPortRule rs
      → All (λ r. All (IsMeasuredSource net) r.sources) rs
      → (walk nf n
            (add_port_accepts net input_chain proto rs)
            input_chain
            (add_port_accepts net input_chain proto rs)
            p
          ≡ accepted)
        ↔ (any (opened_to nf p net proto) rs ≡ true)
  unfolding same
  add_port_accepts-opened net proto rs n v m =
      let rules = add_port_accepts net input_chain proto rs in
      let b = any (opened_to nf p net proto) rs in
      let safe = add_port_accepts-AllSafe nf p b net proto rs v (λ e. e) in
      (
        walk-Safe nf p b b n rules input_chain rules safe safe (λ i. (refl, λ e. e)),
        λ h.
            subst (λ xs. walk nf n rules input_chain xs p ≡ accepted) (append-nil rules)
              (add_port_accepts-walk net proto rs [] n rules v m h),
      )
