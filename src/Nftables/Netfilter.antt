-- ===== src/Nftables/Netfilter.antt =====
-- The kernel's side, which the builders write for: what nft(8) and the netlink interface say of how
-- a rule's expressions are evaluated and in which order rules are. The evaluation of a packet is
-- a parameter with laws; the order of rules is a function over them.
use easywall.Prelude.{
  ℕ, zero, suc, ◌/◌, ◌%◌, ◌<◌, ◌==◌, ltb, ◌≡◌, Bool, true, false, not, ◌&&◌, Option, none, some,
  List, [], ◌∷◌, if◌then◌else◌,
}
use easywall.Text.{Text, same}
use easywall.Nftables.{
  Bytes, Expr, Op, Kind, Rule, meta, payload, ct_state, fib, bitwise, cmp, counter, verdict, accept,
  drop, back, jump, eq, neq, gte, lte,
}
use easywall.Nftables.Net.{same_bytes, and_bytes}
use easywall.Nftables.Match.{zeros, load_dest_port}

-- Bytes are compared from the first.
unfoldable pub leb_bytes : Bytes → Bytes → Bool
leb_bytes [] ds = true
leb_bytes (c ∷ cs) [] = false
leb_bytes (c ∷ cs) (d ∷ ds) =
    let rest = leb_bytes cs ds in if ltb c d then true else (c == d && rest)

unfoldable pub test : Op → Bytes → Bytes → Bool
unfolding same_bytes leb_bytes
test eq v d = same_bytes v d
test neq v d = not (same_bytes v d)
test gte v d = leb_bytes d v
test lte v d = leb_bytes v d

-- The expressions that load register 1.
abbrev pub is_load : Expr → Bool
is_load (meta k r) = r == 1
is_load (payload b r o l) = r == 1
is_load (ct_state r) = r == 1
is_load (fib r) = r == 1
is_load e = false

abbrev pub port_value : Option ℕ → Option Bytes
port_value none = none
port_value (some n) = some (n / 256 ∷ n % 256 ∷ [])

abbrev pub when_loaded : Option Bytes → (Bytes → Bool) → Bool
when_loaded none f = false
when_loaded (some v) f = f v

-- `runs p v es`: whether the expressions, begun with v in the register, reach their end on the
-- packet. `value` is what a load finds, `dport` the destination port of a transport header.
pub record Netfilter (Packet : Type 0) : Type 0 where
  pub runs : Packet → Bytes → List Expr → Bool
  pub value : Packet → Expr → Option Bytes
  pub dport : Packet → Option ℕ
  pub runs-load :
      (p : Packet) (v : Bytes) (e : Expr) (rest : List Expr)
      → is_load e ≡ true
      → runs p v (e ∷ rest) ≡ when_loaded (value p e) (λ w. runs p w rest)
  pub runs-cmp :
      (p : Packet) (v : Bytes) (op : Op) (d : Bytes) (rest : List Expr)
      → runs p v (cmp op 1 d ∷ rest) ≡ (test op v d && runs p v rest)
  pub runs-bitwise :
      (p : Packet) (v m : Bytes) (k : ℕ) (rest : List Expr)
      → runs p v (bitwise 1 1 m (zeros k) ∷ rest) ≡ runs p (and_bytes v m) rest
  pub runs-counter :
      (p : Packet) (v : Bytes) (rest : List Expr) → runs p v (counter ∷ rest) ≡ runs p v rest
  pub runs-verdict : (p : Packet) (v : Bytes) (k : Kind) → runs p v (verdict k ∷ []) ≡ true
  pub value-load_dest_port : (p : Packet) → value p load_dest_port ≡ port_value (dport p)
  pub dport_bound : (p : Packet) (n : ℕ) → dport p ≡ some n → n < 65536

pub data Outcome : Type 0 where
  accepted dropped through : Outcome

-- The verdict that ends a rule; none is a rule that only logs.
abbrev kind : Expr → Option Kind
kind (verdict k) = some k
kind e = none

unfoldable pub kind_of : List Expr → Option Kind
kind_of [] = none
kind_of (e ∷ []) = kind e
kind_of (e ∷ f ∷ rest) = kind_of (f ∷ rest)

-- What a rule that matches makes of the packet: `rest` is the fate behind it in its chain, `enter`
-- that in the chain of a jump, and a chain that is left without a verdict goes on behind the jump.
abbrev pub on_kind : Option Kind → Outcome → (Text → Outcome) → Outcome
on_kind none rest enter = rest
on_kind (some accept) rest enter = accepted
on_kind (some drop) rest enter = dropped
on_kind (some back) rest enter = through
on_kind (some (jump t)) rest enter = elim (enter t) [
  | accepted ↦ accepted
  | dropped ↦ dropped
  | through ↦ rest
]

-- A packet in chain `c`, before the rules `rs` of the table `table`, with `depth` jumps allowed.
module _ {Packet : Type 0} (nf : Netfilter Packet) where
  unfoldable pub walk : ℕ → List Rule → Text → List Rule → Packet → Outcome
  unfolding kind_of same
  walk depth table c [] p = through
  walk zero table c (r ∷ rs) p =
      let rest = walk zero table c rs p in
      if same r.chain c && nf.runs p [] r.exprs
      then on_kind (kind_of r.exprs) rest (λ t. dropped)
      else rest
  walk (suc n) table c (r ∷ rs) p =
      let rest = walk (suc n) table c rs p in
      let enter = λ (t : Text). walk n table t table p in
      if same r.chain c && nf.runs p [] r.exprs then on_kind (kind_of r.exprs) rest enter else rest
