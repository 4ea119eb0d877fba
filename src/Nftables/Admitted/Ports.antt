-- ===== src/Nftables/Admitted/Ports.antt =====
-- The accepts of a storable port rule let in whom the rule opens its ports to.
use easywall.Prelude.{
  ℕ, subst, ◌/◌, ◌%◌, ◌==◌, ◌≤◌, ◌<◌, ltb, leb, ◌≡◌, refl, sym, ◌∙◌, Bool, true, false, ◌&&◌,
  Option, none, some, List, [], ◌∷◌, ◌++◌, arith, inl, inr, ==_iff,
}
use easywall.Text.{Text, trim_space, cut, pos}
use easywall.Text.Numbers.{trim_space-atoi}
use easywall.Rules.Validate.{parse_port_number}
use easywall.Rules.Validate.Storable.{IsPortNumber, IsPortText}
use easywall.Rules.Validate.Ports.{parse_port_number_iff}
use easywall.Nftables.{Bytes, Expr, cmp, eq, gte, lte}
use easywall.Nftables.Net.{same_bytes}
use easywall.Nftables.Match.{
  load_dest_port, port_bytes, parse_port, port_range, match_range, match_port_eq, build_port_exprs,
}
use easywall.Nftables.Netfilter.{Netfilter, test, when_loaded, port_value, leb_bytes}
use easywall.Nftables.Admitted.{names_port, port_is, to_port}
use easywall.Nftables.Admitted.Runs.{run-reads}

-- The bytes of two ports, compared.
port_bytes-same :
    (k n : ℕ)
    → k < 65536
    → 1 ≤ n
    → n ≤ 65535
    → same_bytes (k / 256 ∷ k % 256 ∷ []) (port_bytes n) ≡ true
    → k ≡ n
unfolding same_bytes port_bytes
port_bytes-same k n h l u e = ground arith

port_bytes-leb :
    (k n : ℕ) → 1 ≤ n → n ≤ 65535 → leb_bytes (port_bytes n) (k / 256 ∷ k % 256 ∷ []) ≡ true → n ≤ k
unfolding leb_bytes port_bytes
port_bytes-leb k n l u e = ground arith

leb-port_bytes :
    (k n : ℕ) → 1 ≤ n → n ≤ 65535 → leb_bytes (k / 256 ∷ k % 256 ∷ []) (port_bytes n) ≡ true → k ≤ n
unfolding leb_bytes port_bytes
leb-port_bytes k n l u e = ground arith

-- A storable number is read the same with and without its spaces cut.
pub parse-IsPortNumber :
    (s : Text) (n : ℕ) → IsPortNumber s n → parse_port_number (trim_space s) ≡ some n
parse-IsPortNumber s n h = rw (trim_space-atoi s (pos n) h.0) ((parse_port_number_iff s n).1 h)

pub port_is-ext :
    (f g : ℕ → Bool) (o : Option ℕ)
    → ((k : ℕ) → f k ≡ g k)
    → port_is g o ≡ true
    → port_is f o ≡ true
port_is-ext f g none e h = h
port_is-ext f g (some n) e h = e n ∙ h

one_port :
    (o : Option ℕ) (n : ℕ)
    → 1 ≤ n
    → n ≤ 65535
    → ((k : ℕ) → o ≡ some k → k < 65536)
    → when_loaded (port_value o) (λ v. test eq v (port_bytes n)) ≡ true
    → port_is (λ k. k == n) o ≡ true
unfolding test
one_port none n l u bound h = cc h
one_port (some k) n l u bound h = (==_iff k n).1 (port_bytes-same k n (bound k refl) l u h)

some_ports :
    (o : Option ℕ) (lo hi : ℕ)
    → 1 ≤ lo
    → lo ≤ hi
    → hi ≤ 65535
    → when_loaded (port_value o) (λ v. test gte v (port_bytes lo) && test lte v (port_bytes hi))
      ≡ true
    → port_is (λ k. leb lo k && leb k hi) o ≡ true
unfolding test
some_ports none lo hi l m u h = cc h
some_ports (some k) lo hi l m u h =
    let below = port_bytes-leb k lo l (omega arith) (ground (arith, h)) in
    let above = leb-port_bytes k hi (omega arith) u (ground (arith, h)) in
    ground (arith, below, above)

pub built_one :
    (spec : Text) (n : ℕ)
    → cut b':' spec ≡ none
    → parse_port_number (trim_space spec) ≡ some n
    → build_port_exprs spec ≡ match_port_eq n
unfolding build_port_exprs parse_port
built_one spec n c e = rw (c, e, build_port_exprs, parse_port) refl

pub built_range :
    (spec a b : Text) (lo hi : ℕ)
    → cut b':' spec ≡ some (a, b)
    → parse_port_number (trim_space a) ≡ some lo
    → parse_port_number (trim_space b) ≡ some hi
    → lo ≤ hi
    → build_port_exprs spec ≡ port_range lo hi
unfolding build_port_exprs match_range
built_range spec a b lo hi c d e h =
    let backwards : ltb hi lo ≡ false = ground (arith, h) in
    rw (c, d, e, backwards, build_port_exprs, match_range) refl

module _ {Packet : Type 0} (nf : Netfilter Packet) (p : Packet) where
  run-match_port_eq :
      (v : Bytes) (n : ℕ) (rest : List Expr)
      → 1 ≤ n
      → n ≤ 65535
      → nf.runs p v (match_port_eq n ++ rest) ≡ true
      → port_is (λ k. k == n) (nf.dport p) ≡ true
  unfolding match_port_eq
  run-match_port_eq v n rest l u m =
      let h = (run-reads nf p v load_dest_port eq (port_bytes n) rest refl m).0 in
      one_port (nf.dport p) n l u (nf.dport_bound p) (
        subst (λ o. when_loaded o (λ v. test eq v (port_bytes n)) ≡ true)
          (nf.value-load_dest_port p) h)

  two_tests :
      (o : Option Bytes) (c d : Bytes) (rest : List Expr)
      → when_loaded o (λ w. nf.runs p w (cmp gte 1 c ∷ cmp lte 1 d ∷ rest)) ≡ true
      → when_loaded o (λ v. test gte v c && test lte v d) ≡ true
  two_tests none c d rest h = h
  two_tests (some w) c d rest h =
      let g = sym (nf.runs-cmp p w gte c (cmp lte 1 d ∷ rest)) ∙ h in
      let k : nf.runs p w (cmp lte 1 d ∷ rest) ≡ true = ground (arith, g) in
      let l = sym (nf.runs-cmp p w lte d rest) ∙ k in ground (arith, g, l)

  run-port_range :
      (v : Bytes) (lo hi : ℕ) (rest : List Expr)
      → 1 ≤ lo
      → lo ≤ hi
      → hi ≤ 65535
      → nf.runs p v (port_range lo hi ++ rest) ≡ true
      → port_is (λ k. leb lo k && leb k hi) (nf.dport p) ≡ true
  run-port_range v lo hi rest l m u h =
      let c = port_bytes lo in
      let d = port_bytes hi in
      let g = sym (nf.runs-load p v load_dest_port (cmp gte 1 c ∷ cmp lte 1 d ∷ rest) refl) ∙ h in
      some_ports (nf.dport p) lo hi l m u (
        subst (λ o. when_loaded o (λ v. test gte v c && test lte v d) ≡ true)
          (nf.value-load_dest_port p) (two_tests (nf.value p load_dest_port) c d rest g))

  -- A match of a storable port text is on a port that the text names.
  pub run-build_port_exprs :
      (v : Bytes) (spec : Text) (rest : List Expr)
      → IsPortText spec
      → nf.runs p v (build_port_exprs spec ++ rest) ≡ true
      → to_port nf p spec ≡ true
  unfolding names_port
  run-build_port_exprs v spec rest (inl (c, (n, k))) m =
      let e = parse-IsPortNumber spec n k in
      port_is-ext (names_port spec) (λ k. k == n) (nf.dport p) (λ k. rw (c, e, names_port) refl)
        (run-match_port_eq v n rest k.1 k.2 (rw (built_one spec n c e) at m))
  run-build_port_exprs v spec rest (inr (a, b, lo, hi, c, k, l, h)) m =
      let d = parse-IsPortNumber a lo k in
      let e = parse-IsPortNumber b hi l in
      port_is-ext (names_port spec) (λ k. leb lo k && leb k hi) (nf.dport p)
        (λ k. rw (c, d, e, names_port) refl)
        (run-port_range v lo hi rest k.1 h l.2 (rw (built_range spec a b lo hi c d e h) at m))
