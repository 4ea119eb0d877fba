-- ===== src/Nftables/Admitted/Reached.antt =====
-- What a packet to an opened port meets: the match of its port, and rules that can only accept.
use easywall.Prelude.{
  ℕ, zero, suc, ◌/◌, ◌%◌, ◌==◌, ◌≤◌, ◌<◌, leb, ◌≡◌, refl, sym, ◌∙◌, true, ◌&&◌, Option, none, some,
  List, [], ◌∷◌, ◌++◌, All, arith, inl, inr, ==_iff, Bool-cases, subst,
}
use easywall.Text.{Text, same}
use easywall.Rules.Validate.Storable.{IsPortText}
use easywall.Nftables.{Bytes, Expr, Rule, cmp, accept, eq, gte, lte}
use easywall.Nftables.Net.{same_bytes}
use easywall.Nftables.Match.{
  load_dest_port, port_bytes, port_range, match_port_eq, build_port_exprs,
}
use easywall.Nftables.Netfilter.{
  Netfilter, accepted, test, when_loaded, port_value, leb_bytes, kind_of, walk,
}
use easywall.Nftables.Admitted.{names_port, port_is, to_port}
use easywall.Nftables.Admitted.Ports.{parse-IsPortNumber, port_is-ext, built_one, built_range}
use easywall.Nftables.Admitted.Selected.{Ends, reads-run}

-- Ports that compare well have bytes that do.
bytes-same : (n : ℕ) → 1 ≤ n → n ≤ 65535 → same_bytes (n / 256 ∷ n % 256 ∷ []) (port_bytes n) ≡ true
unfolding same_bytes port_bytes
bytes-same n l u = ground arith

bytes-leb :
    (k n : ℕ) → 1 ≤ n → n ≤ k → k < 65536 → leb_bytes (port_bytes n) (k / 256 ∷ k % 256 ∷ []) ≡ true
unfolding leb_bytes port_bytes
bytes-leb k n l m u = ground arith

leb-bytes :
    (k n : ℕ) → 1 ≤ n → k ≤ n → n ≤ 65535 → leb_bytes (k / 256 ∷ k % 256 ∷ []) (port_bytes n) ≡ true
unfolding leb_bytes port_bytes
leb-bytes k n l m u = ground arith

one_port-loaded :
    (o : Option ℕ) (n : ℕ)
    → 1 ≤ n
    → n ≤ 65535
    → port_is (λ k. k == n) o ≡ true
    → when_loaded (port_value o) (λ v. test eq v (port_bytes n)) ≡ true
unfolding test
one_port-loaded none n l u h = h
one_port-loaded (some k) n l u h =
    subst (λ k. same_bytes (k / 256 ∷ k % 256 ∷ []) (port_bytes n) ≡ true) (sym ((==_iff k n).0 h))
      (bytes-same n l u)

some_ports-loaded :
    (o : Option ℕ) (lo hi : ℕ)
    → 1 ≤ lo
    → lo ≤ hi
    → hi ≤ 65535
    → port_is (λ k. leb lo k && leb k hi) o ≡ true
    → when_loaded (port_value o) (λ v. test gte v (port_bytes lo) && test lte v (port_bytes hi))
      ≡ true
unfolding test
some_ports-loaded none lo hi l m u h = h
some_ports-loaded (some k) lo hi l m u h =
    let below = bytes-leb k lo l (ground (arith, h)) (ground (arith, h)) in
    let above = leb-bytes k hi (omega arith) (ground (arith, h)) u in ground (arith, below, above)

module _ {Packet : Type 0} (nf : Netfilter Packet) (p : Packet) where
  match_port_eq-Ends :
      (n : ℕ) (rest : List Expr)
      → 1 ≤ n
      → n ≤ 65535
      → port_is (λ k. k == n) (nf.dport p) ≡ true
      → Ends nf p rest
      → Ends nf p (match_port_eq n ++ rest)
  unfolding match_port_eq
  match_port_eq-Ends n rest l u h = reads-run nf p load_dest_port eq (port_bytes n) rest refl (
      subst (λ o. when_loaded o (λ v. test eq v (port_bytes n)) ≡ true)
        (sym (nf.value-load_dest_port p)) (one_port-loaded (nf.dport p) n l u h))

  two_tests-Ends :
      (o : Option Bytes) (c d : Bytes) (rest : List Expr)
      → when_loaded o (λ v. test gte v c && test lte v d) ≡ true
      → Ends nf p rest
      → when_loaded o (λ w. nf.runs p w (cmp gte 1 c ∷ cmp lte 1 d ∷ rest)) ≡ true
  two_tests-Ends none c d rest h e = h
  two_tests-Ends (some w) c d rest h e =
      let k = nf.runs-cmp p w lte d rest in
      nf.runs-cmp p w gte c (cmp lte 1 d ∷ rest) ∙ ground (arith, h, k, e w)

  port_range-Ends :
      (lo hi : ℕ) (rest : List Expr)
      → 1 ≤ lo
      → lo ≤ hi
      → hi ≤ 65535
      → port_is (λ k. leb lo k && leb k hi) (nf.dport p) ≡ true
      → Ends nf p rest
      → Ends nf p (port_range lo hi ++ rest)
  port_range-Ends lo hi rest l m u h e v =
      let c = port_bytes lo in
      let d = port_bytes hi in
      nf.runs-load p v load_dest_port (cmp gte 1 c ∷ cmp lte 1 d ∷ rest) refl
      ∙ two_tests-Ends (nf.value p load_dest_port) c d rest
          (subst (λ o. when_loaded o (λ v. test gte v c && test lte v d) ≡ true)
            (sym (nf.value-load_dest_port p)) (some_ports-loaded (nf.dport p) lo hi l m u h))
          e

  -- A packet to a port that a storable text names runs through the match of the text.
  pub build_port_exprs-Ends :
      (spec : Text) (rest : List Expr)
      → IsPortText spec
      → to_port nf p spec ≡ true
      → Ends nf p rest
      → Ends nf p (build_port_exprs spec ++ rest)
  unfolding names_port
  build_port_exprs-Ends spec rest (inl (c, (n, k))) h e =
      let d = parse-IsPortNumber spec n k in
      let to =
        port_is-ext (λ k. k == n) (names_port spec) (nf.dport p) (λ k. rw (c, d, names_port) refl)
          h in
      rw (built_one spec n c d) (match_port_eq-Ends n rest k.1 k.2 to e)
  build_port_exprs-Ends spec rest (inr (a, b, lo, hi, c, k, l, m)) h e =
      let d = parse-IsPortNumber a lo k in
      let f = parse-IsPortNumber b hi l in
      let to =
        port_is-ext (λ k. leb lo k && leb k hi) (names_port spec) (nf.dport p)
          (λ k. rw (c, d, f, names_port) refl) h in
      rw (built_range spec a b lo hi c d f m) (port_range-Ends lo hi rest k.1 m l.2 to e)

  -- Rules that can only accept, before a rest.
  pub walk-accept :
      (n : ℕ) (table : List Rule) (c : Text) (r : Rule) (more : List Rule)
      → same r.chain c ≡ true
      → nf.runs p [] r.exprs ≡ true
      → kind_of r.exprs ≡ some accept
      → walk nf n table c (r ∷ more) p ≡ accepted
  unfolding walk
  walk-accept zero table c r more f m k = rw (f, m, k) refl
  walk-accept (suc n) table c r more f m k = rw (f, m, k) refl

  pub walk-past :
      (n : ℕ) (table : List Rule) (c : Text) (r : Rule) (more : List Rule)
      → kind_of r.exprs ≡ some accept
      → walk nf n table c more p ≡ accepted
      → walk nf n table c (r ∷ more) p ≡ accepted
  unfolding walk
  walk-past zero table c r more k h = elim (Bool-cases (same r.chain c && nf.runs p [] r.exprs)) [
    | inl m ↦ rw (m, k) refl
    | inr m ↦ rw m h
  ]
  walk-past (suc n) table c r more k h =
      elim (Bool-cases (same r.chain c && nf.runs p [] r.exprs)) [
        | inl m ↦ rw (m, k) refl
        | inr m ↦ rw m h
      ]

  pub walk-past-All :
      (n : ℕ) (table : List Rule) (c : Text) (rs more : List Rule)
      → All (λ r. kind_of r.exprs ≡ some accept) rs
      → walk nf n table c more p ≡ accepted
      → walk nf n table c (rs ++ more) p ≡ accepted
  walk-past-All n table c [] more k h = h
  walk-past-All n table c (r ∷ rs) more k h =
      walk-past n table c r (rs ++ more) k.0 (walk-past-All n table c rs more k.1 h)
