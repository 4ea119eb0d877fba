-- ===== src/Nftables/Admitted/Selected.antt =====
-- Whom the description of an entry names, the match that is built for the entry selects.
use easywall.Prelude.{
  ℕ, ◌≡◌, refl, sym, ◌∙◌, true, ◌&&◌, Option, none, some, List, [], ◌∷◌, ◌++◌, arith, Option-cases,
  Bool-cases, inl, inr, ap,
}
use easywall.Text.{Text}
use easywall.Rules.Validate.{is_list_comment}
use easywall.Nftables.{
  Bytes, Expr, Op, meta, payload, bitwise, cmp, nfproto, network, eq, nfproto_ipv4, nfproto_ipv6,
}
use easywall.Nftables.Net.{Netlib, IpNet, to4, mask_of, parse_network, and_bytes}
use easywall.Nftables.Match.{cidr_drop_match, entry_match, source_in, source_is, zeros}
use easywall.Nftables.Netfilter.{Netfilter, test, is_load, when_loaded}
use easywall.Nftables.Reading.{reads, reads_masked}
use easywall.Nftables.Admitted.{has_family, sent_by, sent_from, in_parsed, is_blocked}

module _ {Packet : Type 0} (nf : Netfilter Packet) (p : Packet) where
  -- The expressions reach their end from any register.
  abbrev pub Ends : List Expr → Type 0
  Ends rest = (w : Bytes) → nf.runs p w rest ≡ true

  loaded-Ends :
      (o : Option Bytes) (op : Op) (d : Bytes) (rest : List Expr)
      → when_loaded o (λ v. test op v d) ≡ true
      → Ends rest
      → when_loaded o (λ w. nf.runs p w (cmp op 1 d ∷ rest)) ≡ true
  loaded-Ends none op d rest h e = cc h
  loaded-Ends (some w) op d rest h e = nf.runs-cmp p w op d rest ∙ ground (arith, h, e w)

  pub reads-run :
      (e : Expr) (op : Op) (d : Bytes) (rest : List Expr)
      → is_load e ≡ true
      → reads nf p e op d ≡ true
      → Ends rest
      → Ends (e ∷ cmp op 1 d ∷ rest)
  reads-run e op d rest l h k v =
      nf.runs-load p v e (cmp op 1 d ∷ rest) l ∙ loaded-Ends (nf.value p e) op d rest h k

  loaded_masked-Ends :
      (o : Option Bytes) (m : Bytes) (k : ℕ) (op : Op) (d : Bytes) (rest : List Expr)
      → when_loaded o (λ v. test op (and_bytes v m) d) ≡ true
      → Ends rest
      → when_loaded o (λ w. nf.runs p w (bitwise 1 1 m (zeros k) ∷ cmp op 1 d ∷ rest)) ≡ true
  loaded_masked-Ends none m k op d rest h e = cc h
  loaded_masked-Ends (some w) m k op d rest h e =
      nf.runs-bitwise p w m k (cmp op 1 d ∷ rest)
      ∙ (nf.runs-cmp p (and_bytes w m) op d rest ∙ ground (arith, h, e (and_bytes w m)))

  reads_masked-run :
      (e : Expr) (m : Bytes) (k : ℕ) (op : Op) (d : Bytes) (rest : List Expr)
      → is_load e ≡ true
      → reads_masked nf p e m op d ≡ true
      → Ends rest
      → Ends (e ∷ bitwise 1 1 m (zeros k) ∷ cmp op 1 d ∷ rest)
  reads_masked-run e m k op d rest l h g v =
      nf.runs-load p v e (bitwise 1 1 m (zeros k) ∷ cmp op 1 d ∷ rest) l
      ∙ loaded_masked-Ends (nf.value p e) m k op d rest h g

  -- A match that selects the packet, whatever follows.
  abbrev pub Selected : Option (List Expr) → Type 0
  Selected none = ⊥
  Selected (some match) = (rest : List Expr) → Ends rest → Ends (match ++ rest)

  pub source_is-Selected :
      (family offset len : ℕ) (addr : Bytes)
      → (has_family nf p family && reads nf p (payload network 1 offset len) eq addr) ≡ true
      → Selected (some (source_is family offset len addr))
  source_is-Selected family offset len addr h rest e =
      let load = payload network 1 offset len in
      reads-run (meta nfproto 1) eq (family ∷ []) (load ∷ cmp eq 1 addr ∷ rest) refl
        (ground (arith, h)) (reads-run load eq addr rest refl (ground (arith, h)) e)

  pub source_in-Selected :
      (family offset len : ℕ) (mask addr : Bytes)
      → (has_family nf p family && reads_masked nf p (payload network 1 offset len) mask eq addr)
        ≡ true
      → Selected (some (source_in family offset len mask addr))
  source_in-Selected family offset len mask addr h rest e =
      let load = payload network 1 offset len in
      reads-run (meta nfproto 1) eq (family ∷ [])
        (load ∷ bitwise 1 1 mask (zeros len) ∷ cmp eq 1 addr ∷ rest) refl (ground (arith, h))
        (reads_masked-run load mask len eq addr rest refl (ground (arith, h)) e)

  net-Selected :
      (n : IpNet)
      → sent_from nf p n ≡ true
      → Selected (elim (to4 n.ip) as (λ o. Option (List Expr)) [
        | some ip4 ↦ some (source_in nfproto_ipv4 12 4 (mask_of n) ip4)
        | none ↦ some (source_in nfproto_ipv6 8 16 (mask_of n) n.ip)
      ])
  unfolding sent_from
  net-Selected n h = elim (Option-cases (to4 n.ip)) [
    | inl f ↦ rw f (source_in-Selected nfproto_ipv6 8 16 (mask_of n) n.ip (rw (f, sent_from) at h))
    | inr (ip4, f) ↦
        rw f (source_in-Selected nfproto_ipv4 12 4 (mask_of n) ip4 (rw (f, sent_from) at h))
  ]

  cidr_drop_match-Selected :
      (net : Netlib) (cidr : Text)
      → in_parsed nf p (parse_network net cidr) ≡ true
      → Selected (cidr_drop_match net cidr)
  unfolding cidr_drop_match
  cidr_drop_match-Selected net cidr h = elim (Option-cases (parse_network net cidr)) [
    | inl e ↦ cc (sym (ap (in_parsed nf p) e) ∙ h)
    | inr (n, e) ↦ rw e (net-Selected n (sym (ap (in_parsed nf p) e) ∙ h))
  ]

  address-Selected :
      (ip : Bytes)
      → sent_by nf p ip ≡ true
      → Selected (elim (to4 ip) as (λ o. Option (List Expr)) [
        | some ip4 ↦ some (source_is nfproto_ipv4 12 4 ip4)
        | none ↦ some (source_is nfproto_ipv6 8 16 ip)
      ])
  unfolding sent_by
  address-Selected ip h = elim (Option-cases (to4 ip)) [
    | inl f ↦ rw f (source_is-Selected nfproto_ipv6 8 16 ip (rw (f, sent_by) at h))
    | inr (ip4, f) ↦ rw f (source_is-Selected nfproto_ipv4 12 4 ip4 (rw (f, sent_by) at h))
  ]

  pub entry_match-Selected :
      (net : Netlib) (ip : Text) → is_blocked nf p net ip ≡ true → Selected (entry_match net ip)
  unfolding entry_match
  entry_match-Selected net ip h = elim (Bool-cases (is_list_comment ip)) [
    | inl c ↦ cc (rw c at h)
    | inr c ↦ elim (Option-cases (net.parse_ip ip)) [
      | inl e ↦ rw (c, e, entry_match) (cidr_drop_match-Selected net ip (rw (c, e) at h))
      | inr (parsed, e) ↦ rw (c, e, entry_match) (address-Selected parsed (rw (c, e) at h))
    ]
  ]
