-- ===== src/Diff/Ports.antt =====
-- The port part of the preview: it is empty exactly if both rule sets list the same ports with
-- the same details.
use easywall.Prelude.{
  ◌≡◌, ◌≢◌, refl, sym, ◌↔◌, Option, none, some, List, [], ◌∷◌, inl, inr, arith, Option-cases, ◌∙◌,
}
use easywall.Text.{Text, same}
use easywall.Text.Laws.{same_iff}
use easywall.Rules.{PortRule}
use easywall.Diff.{
  SetName, add_detail, index_from, index_ports, port_arrival, port_removal, diff_ports,
}
use easywall.Diff.Once.{first, append_nil_iff, once_each-Silent, Silent-once_each}

abbrev port_of : PortRule → Text
port_of r = r.port

-- Before and after the same for the kernel: the same ports, with the same details.
abbrev pub SamePorts : List PortRule → List PortRule → Type 0
SamePorts current staged = (p : Text) → index_ports current p ≡ index_ports staged p

-- A port has a detail if it had one before, or some rule lists it.
index_from-none :
    (m : Text → Option Text) (rs : List PortRule) (p : Text)
    → (index_from m rs p ≡ none) ↔ ((m p ≡ none) × (first same port_of p rs ≡ none))
unfolding index_from
index_from-none m [] p = ground arith
index_from-none m (r ∷ rs) p =
    let ih = index_from-none (λ q. add_detail m r q) rs p in ground (arith, ih, same_iff r.port p)

index_ports-none :
    (rs : List PortRule) (p : Text) → (index_ports rs p ≡ none) ↔ (first same port_of p rs ≡ none)
unfolding index_ports
index_ports-none rs p = let k = index_from-none (λ q. none) rs p in ground (arith, k)

first-port :
    (p : Text) (rs : List PortRule) (r : PortRule) → first same port_of p rs ≡ some r → r.port ≡ p
first-port p [] r e = cc
first-port p (x ∷ rs) r e = ground (arith, same_iff x.port p, first-port p rs r)

present :
    (p : Text) (rs : List PortRule) (r : PortRule)
    → first same port_of p rs ≡ some r
    → index_ports rs r.port ≢ none
present p rs r f z =
    let n = (index_ports-none rs r.port).0 z in let n' = rw (first-port p rs r f) at n in cc

port_arrival_iff :
    (set : SetName) (cur next : Text → Option Text) (r : PortRule)
    → next r.port ≢ none
    → (port_arrival set cur next r ≡ []) ↔ (cur r.port ≡ next r.port)
unfolding port_arrival
port_arrival_iff set cur next r h = elim (Option-cases (next r.port)) [
  | inl e ↦ absurd (h e)
  | inr (d, e) ↦ elim (Option-cases (cur r.port)) [
    | inl c ↦ ground arith
    | inr (b, c) ↦ ground (arith, same_iff b d)
  ]
]

port_removal_iff :
    (set : SetName) (cur next : Text → Option Text) (r : PortRule)
    → (port_removal set cur next r ≡ []) ↔ (next r.port ≢ none)
unfolding port_removal
port_removal_iff set cur next r = ground arith

module _ (set : SetName) (current staged : List PortRule) where
  listed :
      (p : Text) (rs : List PortRule)
      → index_ports rs p ≢ none
      → (r : PortRule) × (first same port_of p rs ≡ some r)
  listed p rs h = elim (Option-cases (first same port_of p rs)) [
    | inl e ↦ absurd (h ((index_ports-none rs p).1 e))
    | inr k ↦ k
  ]

  no_delta : diff_ports set current staged ≡ [] → SamePorts current staged
  unfolding diff_ports
  no_delta e p =
      let parts = (append_nil_iff _ _).0 e in
      let arrive = once_each-Silent same port_of _ same_iff [] staged parts.0 in
      let leave = once_each-Silent same port_of _ same_iff [] current parts.1 in
      elim (Option-cases (index_ports staged p)) [
        | inr (d, q) ↦
            let (r, f) = listed p staged (λ z. cc) in
            let at_p = first-port p staged r f in
            let h =
              (port_arrival_iff set (index_ports current) (index_ports staged) r
                  (present p staged r f)).0
                (arrive p r refl f) in
            rw at_p at h
        | inl q ↦ elim (Option-cases (index_ports current p)) [
          | inl c ↦ c ∙ sym q
          | inr (b, c) ↦
              let (r, f) = listed p current (λ z. cc) in
              let at_p = first-port p current r f in
              let h =
                (port_removal_iff set (index_ports current) (index_ports staged) r).0
                  (leave p r refl f) in
              absurd ((rw at_p at h) q)
        ]
      ]

  same-no_delta : SamePorts current staged → diff_ports set current staged ≡ []
  unfolding diff_ports
  same-no_delta h = (append_nil_iff _ _).1 (
    Silent-once_each same port_of _ same_iff [] staged (λ p r u f.
        (port_arrival_iff set (index_ports current) (index_ports staged) r (present p staged r f)).1
          (h r.port)),
    Silent-once_each same port_of _ same_iff [] current (λ p r u f.
        (port_removal_iff set (index_ports current) (index_ports staged) r).1
          (λ z. present p current r f (h r.port ∙ z))),
  )

-- The preview of the ports is empty exactly if every port has the same details before and after.
pub diff_ports_iff :
    (set : SetName) (current staged : List PortRule)
    → (diff_ports set current staged ≡ []) ↔ SamePorts current staged
diff_ports_iff set current staged = (no_delta set current staged, same-no_delta set current staged)
