-- ===== src/Nftables.antt =====
-- internal/core/nftables.go: the rules that ApplyWithFeeds builds, as values. Here are the netlink
-- expressions that the builders use, the rules, and the helpers all builders share. A rule's place
-- in the batch is its place in the list; the chain it goes to is named in it.
pub mod Net
pub mod Match
pub mod Accepts
pub mod Options
pub mod Filters
pub mod Drops
pub mod Forward
pub mod Build
pub mod Netfilter
pub mod Reading
pub mod Quiet
pub mod Admitted
use easywall.Prelude.{
  ℕ, zero, ◌+◌, ◌*◌, ◌%◌, ◌==◌, Bool, true, false, Option, none, some, List, [], ◌∷◌, ◌++◌,
  if◌then◌else◌,
}
use easywall.Text.{Text, codes, ℤ, pos, negsuc}

abbrev pub Bytes : Type 0
Bytes = List ℕ

pub data MetaKey : Type 0 where
  nfproto l4proto iifname pkttype : MetaKey

pub data Base : Type 0 where
  network transport : Base

pub data Op : Type 0 where
  eq neq gte lte : Op

pub data Kind : Type 0 where
  accept drop back : Kind
  jump : Text → Kind

pub data LimitTime : Type 0 where
  second minute : LimitTime

-- expr.Limit; `over` is whether it matches beyond the rate.
pub record Limit : Type 0 where
  pub rate : ℕ
  pub over : Bool
  pub unit : LimitTime
  pub burst : ℕ

-- What a dynamic set keeps for a source: a rate, or a number of connections (inverted: over it).
pub data PerSource : Type 0 where
  update : Limit → ℕ → PerSource
  connlimit : ℕ → PerSource

-- The expressions, with their registers. fib asks for the type of the destination address. The
-- prefix of a log comes with the group of a log sink that is nflog.
pub data Expr : Type 0 where
  meta : MetaKey → ℕ → Expr
  payload : Base → ℕ → ℕ → ℕ → Expr
  ct_state : ℕ → Expr
  fib : ℕ → Expr
  bitwise : ℕ → ℕ → Bytes → Bytes → Expr
  cmp : Op → ℕ → Bytes → Expr
  lookup : ℕ → Text → Expr
  dynset : ℕ → Text → PerSource → Expr
  limit : Limit → Expr
  log : Text → Option ℕ → Expr
  counter : Expr
  immediate : ℕ → Bytes → Expr
  redir : ℕ → Expr
  verdict : Kind → Expr

pub record Rule : Type 0 where
  pub chain : Text
  pub exprs : List Expr
  pub tag : Option Text

-- A rule without user data.
abbrev pub rule : Text → List Expr → Rule
rule chain exprs = record { chain = chain; exprs = exprs; tag = none }

abbrev pub nfproto_ipv4 : ℕ
nfproto_ipv4 = 2

abbrev pub nfproto_ipv6 : ℕ
nfproto_ipv6 = 10

abbrev pub ipproto_icmp : ℕ
ipproto_icmp = 1

abbrev pub ipproto_tcp : ℕ
ipproto_tcp = 6

abbrev pub ipproto_udp : ℕ
ipproto_udp = 17

abbrev pub ipproto_icmpv6 : ℕ
ipproto_icmpv6 = 58

-- A host-endian 32-bit number, on a little-endian host, as binaryutil.NativeEndian writes it.
abbrev pub native_u32 : ℕ → Bytes
native_u32 n = n ∷ 0 ∷ 0 ∷ 0 ∷ []

abbrev pub rtn_local : ℕ
rtn_local = 2

abbrev pub rtn_anycast : ℕ
rtn_anycast = 4

-- "lo\x00"
abbrev pub loopback_name : Bytes
loopback_name = b'l' ∷ b'o' ∷ 0 ∷ []

abbrev pub ct_state_invalid : ℕ
ct_state_invalid = 1

abbrev pub ct_state_new : ℕ
ct_state_new = 8

-- ctStateEstablished | ctStateRelated
abbrev pub ct_state_tracked : ℕ
ct_state_tracked = 6

abbrev pub ct_state_no_match : Bytes
ct_state_no_match = 0 ∷ 0 ∷ 0 ∷ 0 ∷ []

abbrev pub input_chain : Text
input_chain = codes "input"

abbrev pub forward_chain : Text
forward_chain = codes "forward"

abbrev pub forward_lists_chain : Text
forward_lists_chain = codes "forward-lists"

abbrev pub fragment_chain : Text
fragment_chain = codes "fragments"

-- A setting of the operator's, or the default where it is not positive.
abbrev pub or_default : ℕ → ℤ → ℕ
or_default d (pos n) = if n == 0 then d else n
or_default d (negsuc n) = d

pub record LogSpec : Type 0 where
  pub enabled : Bool
  pub prefix : Text
  pub per_minute : ℤ

pub record LogSink : Type 0 where
  pub nflog : Bool
  pub group : ℕ

-- logExprs
unfoldable pub log_exprs : Text → ℤ → LogSink → List Expr
log_exprs prefix per_minute sink =
    let rate = or_default 60 per_minute in
    limit (record { rate = rate; over = false; unit = minute; burst = rate % 4294967296 })
    ∷ log prefix (if sink.nflog then some sink.group else none)
    ∷ []

-- addLogged
unfoldable pub add_logged :
    Text → List Expr → LogSpec → LogSink → Option Text → List Expr → List Rule
unfolding log_exprs
add_logged c match lg sink tag action =
    let acted : Rule = record { chain = c; exprs = match ++ action; tag = tag } in
    if lg.enabled
    then rule c (match ++ log_exprs lg.prefix lg.per_minute sink) ∷ acted ∷ []
    else acted ∷ []

-- addFiltered
unfoldable pub add_filtered : Text → List Expr → Expr → LogSpec → LogSink → List Rule
unfolding add_logged
add_filtered c match action lg sink = add_logged c match lg sink none (action ∷ [])
