-- ===== src/Nftables/Admitted.antt =====
-- Whom the input chain lets in, in the words of the configuration: no rule, chain or register is in it.
pub mod Runs
pub mod Early
pub mod Ports
pub mod Late
pub mod Whole
pub mod Selected
pub mod Blocked
pub mod Reached
pub mod Sources
pub mod Opened
use easywall.Prelude.{
  ℕ, ◌*◌, ◌==◌, leb, Bool, true, false, not, ◌&&◌, ◌||◌, Option, none, some, List, [], ◌∷◌, is_nil,
  length, if◌then◌else◌,
}
use easywall.Text.{Text, cut, trim_space}
use easywall.Rules.{PortRule}
use easywall.Rules.Validate.{is_list_comment, parse_port_number}
use easywall.Nftables.{
  Bytes, Expr, Op, meta, payload, ct_state, nfproto, l4proto, iifname, network, transport, eq, neq,
  nfproto_ipv4, nfproto_ipv6, ipproto_icmp, ipproto_icmpv6, ipproto_tcp, ipproto_udp, loopback_name,
  native_u32, ct_state_tracked, ct_state_no_match,
}
use easywall.Nftables.Net.{Netlib, IpNet, to4, mask_of, parse_network}
use easywall.Nftables.Match.{entry_net}
use easywall.Nftables.Accepts.{
  Ipv6Mode, is_filter, passthrough, block, filter, icmpv4_accepted, icmpv6_accepted, filters_host,
}
use easywall.Nftables.Build.{Apply, docker_cidrs, ipv6_mode_of}
use easywall.Nftables.Netfilter.{Netfilter}
use easywall.Nftables.Reading.{reads, reads_masked}

abbrev pub any {ℓ} : {A : Type ℓ} → (A → Bool) → List A → Bool
any f [] = false
any f (x ∷ xs) = f x || any f xs

-- The ports that the text of a port rule names: one, or those from one to another.
abbrev between : Option ℕ → Option ℕ → ℕ → Bool
between (some lo) (some hi) n = leb lo n && leb n hi
between none hi n = false
between (some lo) none n = false

abbrev exactly : Option ℕ → ℕ → Bool
exactly none n = false
exactly (some m) n = n == m

unfoldable pub names_port : Text → ℕ → Bool
names_port spec n = elim (cut b':' spec) [
  | none ↦ exactly (parse_port_number (trim_space spec)) n
  | some (lo, hi) ↦
      between (parse_port_number (trim_space lo)) (parse_port_number (trim_space hi)) n
]

-- A destination port is there and satisfies a test.
abbrev pub port_is : (ℕ → Bool) → Option ℕ → Bool
port_is f none = false
port_is f (some n) = f n

module _ {Packet : Type 0} (nf : Netfilter Packet) (p : Packet) where
  abbrev pub has_family : ℕ → Bool
  has_family f = reads nf p (meta nfproto 1) eq (f ∷ [])

  abbrev pub has_protocol : ℕ → Bool
  has_protocol proto = reads nf p (meta l4proto 1) eq (proto ∷ [])

  abbrev pub from_loopback : Bool
  from_loopback = reads nf p (meta iifname 1) eq loopback_name

  -- Established or related.
  abbrev pub is_tracked : Bool
  is_tracked = reads_masked nf p (ct_state 1) (native_u32 ct_state_tracked) neq ct_state_no_match

  abbrev pub has_icmp_type : ℕ → ℕ → Bool
  has_icmp_type proto typ = has_protocol proto && reads nf p (payload transport 1 0 1) eq (typ ∷ [])

  -- The source is this address.
  unfoldable pub sent_by : Bytes → Bool
  sent_by ip = elim (to4 ip) [
    | some ip4 ↦ has_family nfproto_ipv4 && reads nf p (payload network 1 12 4) eq ip4
    | none ↦ has_family nfproto_ipv6 && reads nf p (payload network 1 8 16) eq ip
  ]

  -- The source lies in this network.
  unfoldable pub sent_from : IpNet → Bool
  sent_from n = elim (to4 n.ip) [
    | some ip4 ↦
        has_family nfproto_ipv4 && reads_masked nf p (payload network 1 12 4) (mask_of n) eq ip4
    | none ↦
        has_family nfproto_ipv6 && reads_masked nf p (payload network 1 8 16) (mask_of n) eq n.ip
  ]

  abbrev pub in_parsed : Option IpNet → Bool
  in_parsed none = false
  in_parsed (some n) = sent_from n

  -- Entries of the lists: an address, else a network. A comment is neither.
  abbrev pub is_entry : Netlib → Text → Text → Bool
  is_entry net entry as_network = not (is_list_comment entry) && elim (net.parse_ip entry) [
    | some ip ↦ sent_by ip
    | none ↦ in_parsed (parse_network net as_network)
  ]

  abbrev pub is_blocked : Netlib → Text → Bool
  is_blocked net entry = is_entry net entry entry

  abbrev pub is_allowed : Netlib → Text → Bool
  is_allowed net entry = is_entry net entry (trim_space entry)

  abbrev pub from_docker : Netlib → Text → Bool
  from_docker net cidr =
      not (is_list_comment cidr) && in_parsed (parse_network net (trim_space cidr))

  -- A source of a port rule; a network of one address is compared whole.
  abbrev pub sent_within : IpNet → Bool
  sent_within n = if n.bits == 8 * length n.ip then sent_by n.ip else sent_from n

  abbrev pub is_source : Netlib → Text → Bool
  is_source net src =
      not (is_list_comment src)
      && elim (entry_net net (trim_space src)) [ none ↦ false | some n ↦ sent_within n ]

  abbrev pub to_port : Text → Bool
  to_port spec = port_is (names_port spec) (nf.dport p)

  -- A port rule that concerns the host opens the packet's port to its source.
  abbrev pub is_opened : Netlib → ℕ → PortRule → Bool
  is_opened net proto r =
      has_protocol proto && (to_port r.port && (is_nil r.sources || any (is_source net) r.sources))

  abbrev pub opened_to : Netlib → ℕ → PortRule → Bool
  opened_to net proto r = filters_host r && is_opened net proto r

  abbrev pub passes_ipv6 : Ipv6Mode → Bool
  passes_ipv6 passthrough = has_family nfproto_ipv6
  passes_ipv6 filter = false
  passes_ipv6 block = false

  abbrev pub neighbour_types : Apply → List ℕ
  neighbour_types a = icmpv6_accepted false a.cfg.router_advertisement a.cfg.neighbor_advertisement

  -- Before the lists are asked.
  unfoldable pub admitted_early : Apply → Bool
  admitted_early a =
      from_loopback
      || (passes_ipv6 (ipv6_mode_of a.cfg.ipv6_mode)
          || (is_tracked
              || ((is_filter (ipv6_mode_of a.cfg.ipv6_mode)
                    && any (has_icmp_type ipproto_icmpv6) (neighbour_types a))
                  || any (from_docker a.net) (docker_cidrs a))))

  -- Behind the blocklist.
  unfoldable pub admitted_late : Apply → Bool
  admitted_late a =
      any (is_allowed a.net) a.rules.allowlist
      || (any (has_icmp_type ipproto_icmp) (icmpv4_accepted a.opts.icmp_allow_echo_request)
          || ((is_filter (ipv6_mode_of a.cfg.ipv6_mode)
                && any (has_icmp_type ipproto_icmpv6)
                    (icmpv6_accepted a.opts.icmp_allow_echo_request false false))
              || (any (opened_to a.net ipproto_tcp) a.rules.tcp
                  || any (opened_to a.net ipproto_udp) a.rules.udp)))
