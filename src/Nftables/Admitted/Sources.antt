-- ===== src/Nftables/Admitted/Sources.antt =====
-- Whom a source of a port rule names, the match that is built for it selects.
use easywall.Prelude.{
  ℕ, ◌*◌, ◌==◌, ◌≡◌, refl, sym, ◌∙◌, true, ◌&&◌, Option, none, some, List, if◌then◌else◌, inl, inr,
  Bool-cases, Option-cases, subst, length,
}
use easywall.Text.{Text, trim_space}
use easywall.Rules.Validate.{is_list_comment}
use easywall.Nftables.{Bytes, Expr, payload, eq, network, nfproto_ipv4, nfproto_ipv6}
use easywall.Nftables.Net.{Netlib, IpNet, to4, mask_of}
use easywall.Nftables.Match.{entry_net, net_match, cidr_match, cidr_match_op, pos_src_addr}
use easywall.Nftables.Netfilter.{Netfilter}
use easywall.Nftables.Reading.{reads, reads_masked}
use easywall.Nftables.Admitted.{has_family, sent_by, sent_from, sent_within, is_source}
use easywall.Nftables.Admitted.Selected.{Selected, source_is-Selected, source_in-Selected}

-- The network of an entry has four bytes, or sixteen that are no IPv4 address.
abbrev IsMeasuredAs : Option Bytes → IpNet → Type 0
IsMeasuredAs none n = (length n.ip == 16) ≡ true
IsMeasuredAs (some ip4) n = (length n.ip == 4) ≡ true

abbrev pub IsMeasured : IpNet → Type 0
IsMeasured n = IsMeasuredAs (to4 n.ip) n

abbrev pub IsMeasuredSource : Netlib → Text → Type 0
IsMeasuredSource net src = (n : IpNet) → entry_net net (trim_space src) ≡ some n → IsMeasured n

module _ {Packet : Type 0} (nf : Netfilter Packet) (p : Packet) where
  whole-Selected :
      (n : IpNet) (family offset len : ℕ) (addr : Bytes)
      → sent_by nf p n.ip
        ≡ (has_family nf p family && reads nf p (payload network 1 offset len) eq addr)
      → sent_from nf p n ≡ (
          has_family nf p family
          && reads_masked nf p (payload network 1 offset len) (mask_of n) eq addr)
      → sent_within nf p n ≡ true
      → Selected nf p (some (net_match family offset len eq addr n))
  unfolding net_match
  whole-Selected n family offset len addr by from h =
      elim (Bool-cases (n.bits == 8 * length n.ip)) [
        | inl f ↦
            rw (f, net_match)
              (source_is-Selected nf p family offset len addr (sym by ∙ (rw f at h)))
        | inr f ↦
            rw (f, net_match)
              (source_in-Selected nf p family offset len (mask_of n) addr (sym from ∙ (rw f at h)))
      ]

  net_match-Selected :
      (n : IpNet)
      → IsMeasured n
      → sent_within nf p n ≡ true
      → Selected nf p (elim (to4 n.ip) as (λ o. Option (List Expr)) [
        | some ip4 ↦
            if length n.ip == 4
            then some (net_match nfproto_ipv4 pos_src_addr.v4 4 eq ip4 n)
            else none
        | none ↦
            if length n.ip == 16
            then some (net_match nfproto_ipv6 pos_src_addr.v6 16 eq n.ip n)
            else none
      ])
  unfolding sent_by sent_from
  net_match-Selected n m h = elim (Option-cases (to4 n.ip)) [
    | inl e ↦
        let l = subst (λ o. IsMeasuredAs o n) e m in
        rw (e, l)
          (whole-Selected n nfproto_ipv6 8 16 n.ip (rw (e, sent_by) refl) (rw (e, sent_from) refl)
            h)
    | inr (ip4, e) ↦
        let l = subst (λ o. IsMeasuredAs o n) e m in
        rw (e, l)
          (whole-Selected n nfproto_ipv4 12 4 ip4 (rw (e, sent_by) refl) (rw (e, sent_from) refl) h)
  ]

  pub source_match-Selected :
      (net : Netlib) (src : Text)
      → IsMeasuredSource net src
      → is_source nf p net src ≡ true
      → Selected nf p (cidr_match net src pos_src_addr)
  unfolding cidr_match_op
  source_match-Selected net src m h = elim (Bool-cases (is_list_comment src)) [
    | inl c ↦ cc (rw c at h)
    | inr c ↦ elim (Option-cases (entry_net net (trim_space src))) [
      | inl e ↦ cc (rw (c, e) at h)
      | inr (n, e) ↦ rw (c, e, cidr_match_op) (net_match-Selected n (m n e) (rw (c, e) at h))
    ]
  ]
