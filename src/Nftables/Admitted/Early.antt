-- ===== src/Nftables/Admitted/Early.antt =====
-- The accepts before the blocklist let in whom the description names.
use easywall.Prelude.{
  ℕ, ◌≡◌, refl, Bool, true, ◌&&◌, Option, none, some, List, [], ◌∷◌, ◌++◌, All-append, arith,
  if-elim, Option-cases, Bool-cases, inl, inr,
}
use easywall.Text.{Text, same, trim_space}
use easywall.Rules.Validate.{is_list_comment}
use easywall.Nftables.{
  Bytes, Expr, Rule, rule, meta, payload, ct_state, bitwise, cmp, counter, verdict, accept, eq, neq,
  nfproto, l4proto, iifname, network, transport, loopback_name, native_u32, ct_state_tracked,
  ct_state_no_match, input_chain, nfproto_ipv4, nfproto_ipv6,
}
use easywall.Nftables.Net.{Netlib, IpNet, to4, mask_of, parse_network}
use easywall.Nftables.Match.{cidr_drop_match, entry_match, zeros, source_in, source_is}
use easywall.Nftables.Accepts.{
  add_family_verdict, add_loopback_accept, add_established_accept, add_icmp_types_accept, on_match,
  add_cidr_accept, add_allowlist_rule,
}
use easywall.Nftables.Build.{each_entry}
use easywall.Nftables.Netfilter.{Netfilter, kind_of}
use easywall.Nftables.Reading.{Safe, kind_of-append, reads, reads_masked}
use easywall.Nftables.Quiet.{AllSafe}
use easywall.Nftables.Admitted.{
  any, has_family, has_icmp_type, from_loopback, is_tracked, sent_by, sent_from, in_parsed,
  is_allowed, is_blocked, from_docker,
}
use easywall.Nftables.Admitted.Runs.{Goes, run-reads, run-reads_masked, accept-Safe}

module _ {Packet : Type 0} (nf : Netfilter Packet) (p : Packet) (b : Bool) where
  pub add_loopback_accept-AllSafe :
      (from_loopback nf p ≡ true → b ≡ true) → AllSafe nf p b (add_loopback_accept input_chain)
  unfolding add_loopback_accept kind_of same
  add_loopback_accept-AllSafe h = (
    (
      refl,
      λ f m. h (run-reads nf p [] (meta iifname 1) eq loopback_name (verdict accept ∷ []) refl m).0,
    ),
    tt,
  )

  pub add_family_verdict-AllSafe :
      (family : ℕ)
      → (has_family nf p family ≡ true → b ≡ true)
      → AllSafe nf p b (add_family_verdict input_chain family accept)
  unfolding add_family_verdict kind_of same
  add_family_verdict-AllSafe family h = (
    (
      refl,
      λ f m. h (run-reads nf p [] (meta nfproto 1) eq (family ∷ []) (verdict accept ∷ []) refl m).0,
    ),
    tt,
  )

  pub add_established_accept-AllSafe :
      (is_tracked nf p ≡ true → b ≡ true) → AllSafe nf p b (add_established_accept input_chain)
  unfolding add_established_accept kind_of same
  add_established_accept-AllSafe h = (
    (
      refl,
      λ f m.
          h
            (run-reads_masked nf p [] (ct_state 1) (native_u32 ct_state_tracked) 4 neq
              ct_state_no_match (counter ∷ verdict accept ∷ []) refl m).0,
    ),
    tt,
  )

  pub add_icmp_types_accept-AllSafe :
      (proto : ℕ) (types : List ℕ)
      → (any (has_icmp_type nf p proto) types ≡ true → b ≡ true)
      → AllSafe nf p b (add_icmp_types_accept input_chain proto types)
  unfolding add_icmp_types_accept kind_of same
  add_icmp_types_accept-AllSafe proto [] h = tt
  add_icmp_types_accept-AllSafe proto (typ ∷ types) h =
      let typ_load = payload transport 1 0 1 in
      let tail = verdict accept ∷ [] in
      (
        (
          refl,
          λ f m.
              let (q, (w, g)) =
                run-reads nf p [] (meta l4proto 1) eq (proto ∷ [])
                  (typ_load ∷ cmp eq 1 (typ ∷ []) ∷ tail) refl m in
              let (t, rest) = run-reads nf p w typ_load eq (typ ∷ []) tail refl g in
              h (ground (arith, q, t)),
        ),
        add_icmp_types_accept-AllSafe proto types (λ e. h (ground (arith, e))),
      )

  -- A source under a mask, and a whole one.
  pub run-source_in :
      (family offset len : ℕ) (mask addr : Bytes) (rest : List Expr)
      → nf.runs p [] (source_in family offset len mask addr ++ rest) ≡ true
      → ((has_family nf p family && reads_masked nf p (payload network 1 offset len) mask eq addr)
          ≡ true)
        × Goes nf p rest
  run-source_in family offset len mask addr rest m =
      let load = payload network 1 offset len in
      let tail = load ∷ bitwise 1 1 mask (zeros len) ∷ cmp eq 1 addr ∷ rest in
      let (f, (w, g)) = run-reads nf p [] (meta nfproto 1) eq (family ∷ []) tail refl m in
      let (s, goes) = run-reads_masked nf p w load mask len eq addr rest refl g in
      (ground (arith, f, s), goes)

  pub run-source_is :
      (family offset len : ℕ) (addr : Bytes) (rest : List Expr)
      → nf.runs p [] (source_is family offset len addr ++ rest) ≡ true
      → ((has_family nf p family && reads nf p (payload network 1 offset len) eq addr) ≡ true)
        × Goes nf p rest
  run-source_is family offset len addr rest m =
      let load = payload network 1 offset len in
      let tail = load ∷ cmp eq 1 addr ∷ rest in
      let (f, (w, g)) = run-reads nf p [] (meta nfproto 1) eq (family ∷ []) tail refl m in
      let (s, goes) = run-reads nf p w load eq addr rest refl g in (ground (arith, f, s), goes)

  -- A match that lets only in whom `named` says.
  abbrev pub Selects : Bool → Option (List Expr) → Type 0
  Selects named none = Unit {0}
  Selects named (some match) =
      (rest : List Expr) → nf.runs p [] (match ++ rest) ≡ true → (named ≡ true) × Goes nf p rest

  pub on_match-AllSafe :
      (named : Bool) (m : Option (List Expr))
      → Selects named m
      → (named ≡ true → b ≡ true)
      → AllSafe nf p b (on_match input_chain m accept)
  unfolding kind_of same
  on_match-AllSafe named none s h = tt
  on_match-AllSafe named (some match) s h = (
    accept-Safe nf p b (rule input_chain (match ++ (verdict accept ∷ [])))
        (kind_of-append match (verdict accept) []) refl (λ m. h (s (verdict accept ∷ []) m).0),
    tt,
  )

  net-Selects :
      (n : IpNet)
      → Selects (sent_from nf p n) (elim (to4 n.ip) as (λ o. Option (List Expr)) [
        | some ip4 ↦ some (source_in nfproto_ipv4 12 4 (mask_of n) ip4)
        | none ↦ some (source_in nfproto_ipv6 8 16 (mask_of n) n.ip)
      ])
  unfolding sent_from
  net-Selects n = elim (Option-cases (to4 n.ip)) [
    | inl e ↦ rw (e, sent_from) (λ rest m. run-source_in nfproto_ipv6 8 16 (mask_of n) n.ip rest m)
    | inr (ip4, e) ↦
        rw (e, sent_from) (λ rest m. run-source_in nfproto_ipv4 12 4 (mask_of n) ip4 rest m)
  ]

  pub cidr_drop_match-Selects :
      (net : Netlib) (cidr : Text)
      → Selects (in_parsed nf p (parse_network net cidr)) (cidr_drop_match net cidr)
  unfolding cidr_drop_match
  cidr_drop_match-Selects net cidr = elim (Option-cases (parse_network net cidr)) [
    | inl e ↦ rw e tt
    | inr (n, e) ↦ rw e (net-Selects n)
  ]

  pub add_cidr_accept-AllSafe :
      (net : Netlib) (cidr : Text)
      → (from_docker nf p net cidr ≡ true → b ≡ true)
      → AllSafe nf p b (add_cidr_accept net input_chain cidr)
  unfolding add_cidr_accept
  add_cidr_accept-AllSafe net cidr h =
      if-elim {A = List Rule} (AllSafe nf p b) (is_list_comment cidr) _ _ (λ c. tt)
        (λ c.
          on_match-AllSafe (in_parsed nf p (parse_network net (trim_space cidr)))
            (cidr_drop_match net (trim_space cidr)) (cidr_drop_match-Selects net (trim_space cidr))
            (λ e. h (ground (arith, c, e))))

  address-Selects :
      (ip : Bytes)
      → Selects (sent_by nf p ip) (elim (to4 ip) as (λ o. Option (List Expr)) [
        | some ip4 ↦ some (source_is nfproto_ipv4 12 4 ip4)
        | none ↦ some (source_is nfproto_ipv6 8 16 ip)
      ])
  unfolding sent_by
  address-Selects ip = elim (Option-cases (to4 ip)) [
    | inl e ↦ rw (e, sent_by) (λ rest m. run-source_is nfproto_ipv6 8 16 ip rest m)
    | inr (ip4, e) ↦ rw (e, sent_by) (λ rest m. run-source_is nfproto_ipv4 12 4 ip4 rest m)
  ]

  entry_match-Selects :
      (net : Netlib) (ip : Text) → Selects (is_blocked nf p net ip) (entry_match net ip)
  unfolding entry_match
  entry_match-Selects net ip = elim (Bool-cases (is_list_comment ip)) [
    | inl c ↦ rw c tt
    | inr c ↦ elim (Option-cases (net.parse_ip ip)) [
      | inl e ↦ rw (c, e) (cidr_drop_match-Selects net ip)
      | inr (parsed, e) ↦ rw (c, e) (address-Selects parsed)
    ]
  ]

  pub add_allowlist_rule-AllSafe :
      (net : Netlib) (ip : Text)
      → (is_allowed nf p net ip ≡ true → b ≡ true)
      → AllSafe nf p b (add_allowlist_rule net input_chain ip)
  unfolding add_allowlist_rule
  add_allowlist_rule-AllSafe net ip h =
      if-elim {A = List Rule} (AllSafe nf p b) (is_list_comment ip) _ _ (λ c. tt)
        (λ c. elim (Option-cases (net.parse_ip ip)) [
          | inl e ↦ rw e (add_cidr_accept-AllSafe net ip (λ d. h (rw e d)))
          | inr (parsed, e) ↦
              let found : is_blocked nf p net ip ≡ true → b ≡ true =
                λ d. h (ground (arith, d, e)) in
              rw e (
                on_match-AllSafe (is_blocked nf p net ip) (entry_match net ip)
                  (entry_match-Selects net ip) found)
        ])

  pub each_entry-AllSafe :
      (f : Text → List Rule) (named : Text → Bool) (xs : List Text)
      → ((x : Text) → (named x ≡ true → b ≡ true) → AllSafe nf p b (f x))
      → (any named xs ≡ true → b ≡ true)
      → AllSafe nf p b (each_entry f xs)
  unfolding each_entry
  each_entry-AllSafe f named [] each h = tt
  each_entry-AllSafe f named (x ∷ xs) each h =
      All-append (Safe nf p b) _ _ (each x (λ e. h (ground (arith, e))))
        (each_entry-AllSafe f named xs each (λ e. h (ground (arith, e))))
