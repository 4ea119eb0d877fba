-- ===== src/Nftables/Net.antt =====
-- Addresses and networks as bytes: shared.ParseNetwork (internal/shared/validate.go) and what
-- nftables.go does with net.IP and net.IPMask. Go's parsers are fields of Netlib.
use easywall.Prelude.{
  ℕ, zero, suc, ◌-◌, ◌==◌, leb, Bool, true, false, ◌&&◌, Option, none, some, [], ◌∷◌, length,
  if◌then◌else◌,
}
use Prim.Native.Nat.{◌^◌, bit_and}
use easywall.Text.{Text, trim_space}
use easywall.Rules.Feeds.{cut_prefix}
use easywall.Nftables.{Bytes}

-- net.ParseIP, whose result has sixteen bytes, and net.ParseCIDR: the network's address, of four
-- bytes for an IPv4 network and sixteen for any other, and the number of ones in its mask. Then whether the netlink connection
-- takes a set and a set's elements.
pub record Netlib : Type 0 where
  pub parse_ip : Text → Option Bytes
  pub parse_cidr : Text → Option (Bytes × ℕ)
  pub adds_set : Text → Bool
  pub adds_elements : Text → Bool

-- net.IPNet, its mask by the number of ones.
pub record IpNet : Type 0 where
  pub ip : Bytes
  pub bits : ℕ

-- net.CIDRMask
unfoldable pub cidr_mask : ℕ → ℕ → Bytes
cidr_mask zero ones = []
cidr_mask (suc k) ones = (256 - 2 ^ (8 - ones)) ∷ cidr_mask k (ones - 8)

unfoldable pub and_bytes : Bytes → Bytes → Bytes
and_bytes [] m = []
and_bytes (x ∷ xs) [] = []
and_bytes (x ∷ xs) (m ∷ ms) = bit_and x m ∷ and_bytes xs ms

unfoldable pub same_bytes : Bytes → Bytes → Bool
same_bytes [] [] = true
same_bytes [] (d ∷ ds) = false
same_bytes (c ∷ cs) [] = false
same_bytes (c ∷ cs) (d ∷ ds) = c == d && same_bytes cs ds

-- The first twelve bytes of an IPv4 address in sixteen.
abbrev mapped_prefix : Bytes
mapped_prefix = 0 ∷ 0 ∷ 0 ∷ 0 ∷ 0 ∷ 0 ∷ 0 ∷ 0 ∷ 0 ∷ 0 ∷ 255 ∷ 255 ∷ []

-- net.IP.To4
unfoldable pub to4 : Bytes → Option Bytes
unfolding cut_prefix
to4 ip =
    if length ip == 4
    then some ip
    else if length ip == 16
    then cut_prefix ip mapped_prefix
    else none

abbrev pub mask_of : IpNet → Bytes
mask_of n = cidr_mask (length n.ip) n.bits

-- netip.Prefix.Masked
abbrev pub masked : Bytes → ℕ → IpNet
masked ip bits = record { ip = and_bytes ip (cidr_mask (length ip) bits); bits = bits }

-- ParseNetwork, behind ParseCIDR: a mapped network of 96 bits or more is one of IPv4.
unfoldable pub unmapped : Bytes → ℕ → IpNet
unfolding to4 and_bytes cidr_mask
unmapped ip bits =
    if length ip == 16 && leb 96 bits
    then elim (to4 ip) [ none ↦ masked ip bits | some ip4 ↦ masked ip4 (bits - 96) ]
    else masked ip bits

-- ParseNetwork, and parseIPNet, which turns its prefix into a net.IPNet.
unfoldable pub parse_network : Netlib → Text → Option IpNet
unfolding unmapped trim_space
parse_network net s = elim (net.parse_cidr (trim_space s)) [
  | none ↦ none
  | some (ip, bits) ↦ some (unmapped ip bits)
]
