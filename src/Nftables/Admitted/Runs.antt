-- ===== src/Nftables/Admitted/Runs.antt =====
-- What a run of a rule's expressions to their end says of the packet.
use easywall.Prelude.{ℕ, ◌≡◌, sym, ◌∙◌, Bool, true, Option, none, some, List, [], ◌∷◌, arith}
use easywall.Nftables.{Bytes, Expr, Op, Rule, cmp, bitwise, accept}
use easywall.Nftables.Net.{and_bytes}
use easywall.Nftables.Match.{zeros}
use easywall.Nftables.Netfilter.{Netfilter, test, is_load, when_loaded, kind_of}
use easywall.Nftables.Reading.{is_base, reads, reads_masked, OnKind, Safe}
use easywall.Prelude.{subst}

module _ {Packet : Type 0} (nf : Netfilter Packet) (p : Packet) where
  -- The expressions reach their end from some register.
  abbrev pub Goes : List Expr → Type 0
  Goes rest = (w : Bytes) × (nf.runs p w rest ≡ true)

  loaded :
      (o : Option Bytes) (op : Op) (d : Bytes) (rest : List Expr)
      → when_loaded o (λ w. nf.runs p w (cmp op 1 d ∷ rest)) ≡ true
      → (when_loaded o (λ v. test op v d) ≡ true) × Goes rest
  loaded none op d rest h = cc h
  loaded (some w) op d rest h =
      let g = sym (nf.runs-cmp p w op d rest) ∙ h in (ground (arith, g), (w, ground (arith, g)))

  pub run-reads :
      (v : Bytes) (e : Expr) (op : Op) (d : Bytes) (rest : List Expr)
      → is_load e ≡ true
      → nf.runs p v (e ∷ cmp op 1 d ∷ rest) ≡ true
      → (reads nf p e op d ≡ true) × Goes rest
  run-reads v e op d rest l h =
      loaded (nf.value p e) op d rest (sym (nf.runs-load p v e (cmp op 1 d ∷ rest) l) ∙ h)

  loaded_masked :
      (o : Option Bytes) (m : Bytes) (k : ℕ) (op : Op) (d : Bytes) (rest : List Expr)
      → when_loaded o (λ w. nf.runs p w (bitwise 1 1 m (zeros k) ∷ cmp op 1 d ∷ rest)) ≡ true
      → (when_loaded o (λ v. test op (and_bytes v m) d) ≡ true) × Goes rest
  loaded_masked none m k op d rest h = cc h
  loaded_masked (some w) m k op d rest h =
      let g =
        sym (nf.runs-cmp p (and_bytes w m) op d rest)
        ∙ (sym (nf.runs-bitwise p w m k (cmp op 1 d ∷ rest)) ∙ h) in
      (ground (arith, g), (and_bytes w m, ground (arith, g)))

  pub run-reads_masked :
      (v : Bytes) (e : Expr) (m : Bytes) (k : ℕ) (op : Op) (d : Bytes) (rest : List Expr)
      → is_load e ≡ true
      → nf.runs p v (e ∷ bitwise 1 1 m (zeros k) ∷ cmp op 1 d ∷ rest) ≡ true
      → (reads_masked nf p e m op d ≡ true) × Goes rest
  run-reads_masked v e m k op d rest l h =
      loaded_masked (nf.value p e) m k op d rest
        (sym (nf.runs-load p v e (bitwise 1 1 m (zeros k) ∷ cmp op 1 d ∷ rest) l) ∙ h)

  -- An accept is safe where its match gives what is to hold.
  pub accept-Safe :
      (b : Bool) (r : Rule)
      → kind_of r.exprs ≡ some accept
      → is_base r.chain ≡ true
      → (nf.runs p [] r.exprs ≡ true → b ≡ true)
      → Safe nf p b r
  accept-Safe b r k i h = subst (λ o. OnKind nf p b o r) (sym k) (i, λ f m. h m)
