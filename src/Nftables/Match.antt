-- ===== src/Nftables/Match.antt =====
-- The matches of internal/core/nftables.go: ports, and addresses of an entry. A match is a list of
-- expressions; none is Go's nil.
use easywall.Prelude.{
  ℕ, zero, suc, ◌*◌, ◌/◌, ◌%◌, ◌==◌, ltb, ◌||◌, Option, none, some, List, [], ◌∷◌, ◌++◌, length,
  if◌then◌else◌, ◌>>=◌,
}
use easywall.Text.{Text, trim_space, cut}
use easywall.Rules.Validate.{is_list_comment, parse_port_number}
use easywall.Nftables.{
  Bytes, Op, Expr, meta, payload, bitwise, cmp, nfproto, l4proto, network, transport, eq, neq, gte,
  lte, nfproto_ipv4, nfproto_ipv6,
}
use easywall.Nftables.Net.{Netlib, IpNet, to4, mask_of, parse_network, cidr_mask}

-- The tests that begin most matches.
abbrev pub family_is : ℕ → List Expr
family_is family = meta nfproto 1 ∷ cmp eq 1 (family ∷ []) ∷ []

abbrev pub protocol_is : ℕ → List Expr
protocol_is proto = meta l4proto 1 ∷ cmp eq 1 (proto ∷ []) ∷ []

-- portBytes
unfoldable pub port_bytes : ℕ → Bytes
port_bytes p = if ltb p 1 || ltb 65535 p then 0 ∷ 0 ∷ [] else (p / 256) ∷ (p % 256) ∷ []

abbrev pub load_dest_port : Expr
load_dest_port = payload transport 1 2 2

-- matchPortEq
unfoldable pub match_port_eq : ℕ → List Expr
unfolding port_bytes
match_port_eq p = load_dest_port ∷ cmp eq 1 (port_bytes p) ∷ []

-- parsePort
unfoldable pub parse_port : Text → ℕ
unfolding parse_port_number trim_space
parse_port s = elim (parse_port_number (trim_space s)) [ none ↦ 0 | some p ↦ p ]

abbrev pub port_range : ℕ → ℕ → List Expr
port_range start end =
    load_dest_port ∷ cmp gte 1 (port_bytes start) ∷ cmp lte 1 (port_bytes end) ∷ []

unfoldable pub match_range : Text → Text → List Expr
unfolding match_port_eq parse_port_number trim_space port_bytes
match_range lo hi = elim (parse_port_number (trim_space lo)) [
  | none ↦ match_port_eq 0
  | some start ↦ elim (parse_port_number (trim_space hi)) [
    | none ↦ match_port_eq 0
    | some end ↦ if ltb end start then match_port_eq 0 else port_range start end
  ]
]

-- buildPortExprs
unfoldable pub build_port_exprs : Text → List Expr
unfolding match_range match_port_eq parse_port cut
build_port_exprs port = elim (cut b':' port) [
  | some (lo, hi) ↦ match_range lo hi
  | none ↦ match_port_eq (parse_port port)
]

-- addrPos: where a header has the address, by family.
pub record AddrPos : Type 0 where
  pub v4 : ℕ
  pub v6 : ℕ

abbrev pub pos_src_addr : AddrPos
pos_src_addr = record { v4 = 12; v6 = 8 }

abbrev pub pos_dst_addr : AddrPos
pos_dst_addr = record { v4 = 16; v6 = 24 }

abbrev pub zeros : ℕ → Bytes
zeros zero = []
zeros (suc n) = 0 ∷ zeros n

-- The network of an entry that is an address, else a network.
abbrev host_net : Bytes → IpNet
host_net ip = elim (to4 ip) [
  | none ↦ record { ip = ip; bits = 128 }
  | some ip4 ↦ record { ip = ip4; bits = 32 }
]

unfoldable pub entry_net : Netlib → Text → Option IpNet
unfolding to4 parse_network
entry_net net entry = elim (net.parse_ip entry) [
  | some ip ↦ some (host_net ip)
  | none ↦ parse_network net entry
]

-- An address of one family against a network; the mask is left out where it is all ones.
unfoldable pub net_match : ℕ → ℕ → ℕ → Op → Bytes → IpNet → List Expr
unfolding cidr_mask
net_match family offset len op addr n =
    family_is family
    ++ (payload network 1 offset len
        ∷ (if n.bits == 8 * length n.ip
            then cmp op 1 addr ∷ []
            else bitwise 1 1 (mask_of n) (zeros len) ∷ cmp op 1 addr ∷ []))

-- cidrMatchOp
unfoldable pub cidr_match_op : Netlib → Text → AddrPos → Op → Option (List Expr)
unfolding entry_net to4 net_match is_list_comment trim_space
cidr_match_op net entry pos op =
    if is_list_comment entry
    then none
    else entry_net net (trim_space entry) >>= λ n. elim (to4 n.ip) [
      | some ip4 ↦
          if length n.ip == 4 then some (net_match nfproto_ipv4 pos.v4 4 op ip4 n) else none
      | none ↦ if length n.ip == 16 then some (net_match nfproto_ipv6 pos.v6 16 op n.ip n) else none
    ]

-- cidrMatch
abbrev pub cidr_match : Netlib → Text → AddrPos → Option (List Expr)
cidr_match net entry pos = cidr_match_op net entry pos eq

-- cidrMatchNegated
abbrev pub cidr_match_negated : Netlib → Text → AddrPos → Option (List Expr)
cidr_match_negated net entry pos = cidr_match_op net entry pos neq

-- withoutFamilyTest
unfoldable pub without_family_test : List Expr → List Expr
without_family_test (meta k r ∷ cmp o s d ∷ rest) = rest
without_family_test exprs = exprs

-- A source address, whole.
abbrev pub source_is : ℕ → ℕ → ℕ → Bytes → List Expr
source_is family offset len addr =
    family_is family ++ (payload network 1 offset len ∷ cmp eq 1 addr ∷ [])

-- A source address under a mask.
abbrev pub source_in : ℕ → ℕ → ℕ → Bytes → Bytes → List Expr
source_in family offset len mask addr =
    family_is family
    ++ (payload network 1 offset len ∷ bitwise 1 1 mask (zeros len) ∷ cmp eq 1 addr ∷ [])

-- ipv4SourceMatch
unfoldable pub ipv4_source_match : Netlib → Text → Option (List Expr)
unfolding to4 parse_network cidr_mask is_list_comment trim_space
ipv4_source_match net entry =
    if is_list_comment entry then none else elim (net.parse_ip (trim_space entry)) [
      | some ip ↦ to4 ip >>= λ ip4. some (source_in nfproto_ipv4 12 4 (cidr_mask 4 32) ip4)
      | none ↦ parse_network net (trim_space entry) >>= λ n.
          to4 n.ip >>= λ ip4. some (source_in nfproto_ipv4 12 4 (mask_of n) ip4)
    ]

-- cidrDropMatch, and the match of addCIDRAccept.
unfoldable pub cidr_drop_match : Netlib → Text → Option (List Expr)
unfolding to4 parse_network cidr_mask
cidr_drop_match net cidr = parse_network net cidr >>= λ n. elim (to4 n.ip) [
  | some ip4 ↦ some (source_in nfproto_ipv4 12 4 (mask_of n) ip4)
  | none ↦ some (source_in nfproto_ipv6 8 16 (mask_of n) n.ip)
]

-- The match of addBlocklistRule and of addAllowlistRule.
unfoldable pub entry_match : Netlib → Text → Option (List Expr)
unfolding cidr_drop_match to4 is_list_comment
entry_match net ip = if is_list_comment ip then none else elim (net.parse_ip ip) [
  | none ↦ cidr_drop_match net ip
  | some parsed ↦ elim (to4 parsed) [
    | some ip4 ↦ some (source_is nfproto_ipv4 12 4 ip4)
    | none ↦ some (source_is nfproto_ipv6 8 16 parsed)
  ]
]
