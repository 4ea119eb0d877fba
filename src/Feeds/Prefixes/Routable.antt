-- ===== src/Feeds/Prefixes/Routable.antt =====
-- No address of a prefix that isGlobal lets pass is one of the ranges it stands against.
use easywall.Prelude.{
  ℕ, suc, ◌+◌, ◌-◌, ◌/◌, ◌≤◌, ◌≡◌, ◌⊎◌, inl, inr, Bool, true, false, List, [], ◌∷◌, All, refl,
  arith, leb, Bool-cases, ap, ◌∙◌, sym, subst,
}
use easywall.Feeds.Prefixes.{
  Addr, Prefix, lesser, shr, holds_addr, overlaps, non_global_v4, global_v6, doc_v6, none_overlaps,
  is_global,
}

shr-add : (i j x : ℕ) → shr x (i + j) ≡ shr (shr x i) j
unfolding shr
shr-add ℕ.zero j x = let e : j ≡ 0 + j = omega arith in subst (λ n. shr x n ≡ shr x j) e refl
shr-add (suc i) j x =
    let e : suc (i + j) ≡ suc i + j = omega arith in
    subst (λ n. shr x n ≡ shr (shr (x / 2) i) j) e (shr-add i j (x / 2))

-- Two numbers that agree above k bits agree above more.
shr-more : (k l x y : ℕ) → k ≤ l → shr x k ≡ shr y k → shr x l ≡ shr y l
shr-more k l x y h e =
    let more : (z : ℕ) → shr z l ≡ shr (shr z k) (l - k) =
      λ z. subst (λ n. shr z n ≡ shr (shr z k) (l - k)) (omega (arith, h)) (shr-add k (l - k) z) in
    more x ∙ ap (λ z. shr z (l - k)) e ∙ sym (more y)

-- Where an address is in both of two prefixes, these agree on the bits that both have.
agree :
    (w n p nv pv av : ℕ)
    → shr av (w - n) ≡ shr nv (w - n)
    → shr av (w - p) ≡ shr pv (w - p)
    → shr nv (w - lesser n p) ≡ shr pv (w - lesser n p)
agree w n p nv pv av e f = elim (Bool-cases (leb n p)) [
  | inl b ↦ rw b (sym e ∙ shr-more (w - p) (w - n) av pv (ground (arith, b)) f)
  | inr b ↦ rw b (sym (shr-more (w - n) (w - p) av nv (ground (arith, b)) e) ∙ f)
]

-- An address is in two prefixes only if they overlap.
overlaps-holds_addr :
    (n p : Prefix) (a : Addr)
    → overlaps n p ≡ false
    → holds_addr p a ≡ true
    → holds_addr n a ≡ false
unfolding overlaps holds_addr
overlaps-holds_addr n p a o h = ground (
  arith,
  agree 32 n.bits p.bits n.addr.value p.addr.value a.value,
  agree 128 n.bits p.bits n.addr.value p.addr.value a.value,
)

none_overlaps-holds_addr :
    (p : Prefix) (a : Addr) (ns : List Prefix)
    → none_overlaps p ns ≡ true
    → holds_addr p a ≡ true
    → All (λ n. holds_addr n a ≡ false) ns
none_overlaps-holds_addr p a [] o h = tt
none_overlaps-holds_addr p a (n ∷ ns) o h =
    let apart : (overlaps n p ≡ false) × (none_overlaps p ns ≡ true) = ground (arith, o) in
    (overlaps-holds_addr n p a apart.0 h, none_overlaps-holds_addr p a ns apart.1 h)

-- A prefix holds what a narrower one within it does.
narrower-holds_addr :
    (n p : Prefix) (a : Addr)
    → n.bits ≤ p.bits
    → holds_addr n p.addr ≡ true
    → holds_addr p a ≡ true
    → holds_addr n a ≡ true
unfolding holds_addr
narrower-holds_addr n p a b i h = ground (
  arith,
  shr-more (32 - p.bits) (32 - n.bits) a.value p.addr.value,
  shr-more (128 - p.bits) (128 - n.bits) a.value p.addr.value,
)

-- An address of globally routed space, as isGlobal describes it: an IPv4 one in none of the
-- ranges that are not, an IPv6 one in 2000::/3 and not among those for documentation.
abbrev pub IsRoutable : Bool → Addr → Type 0
IsRoutable false a = All (λ n. holds_addr n a ≡ false) non_global_v4
IsRoutable true a = (holds_addr global_v6 a ≡ true) × (holds_addr doc_v6 a ≡ false)

is_global_parts :
    (p : Prefix)
    → is_global p ≡ true
    → ((p.addr.six ≡ false) × (none_overlaps p non_global_v4 ≡ true))
      ⊎ ((p.addr.six ≡ true)
          × (global_v6.bits ≤ p.bits)
          × (holds_addr global_v6 p.addr ≡ true)
          × (overlaps doc_v6 p ≡ false))
unfolding is_global
is_global_parts p g = elim (Bool-cases p.addr.six) [
  | inl six ↦ ground (arith, six, g)
  | inr four ↦ ground (arith, four, g)
]

-- What isGlobal lets pass holds only routable addresses.
pub is_global-IsRoutable :
    (p : Prefix) (a : Addr) → is_global p ≡ true → holds_addr p a ≡ true → IsRoutable p.addr.six a
is_global-IsRoutable p a g h = elim (is_global_parts p g) [
  | inl (four, apart) ↦
      subst (λ b. IsRoutable b a) (sym four) (none_overlaps-holds_addr p a non_global_v4 apart h)
  | inr (six, narrow, within, apart) ↦
      subst (λ b. IsRoutable b a) (sym six)
        (narrower-holds_addr global_v6 p a narrow within h, overlaps-holds_addr doc_v6 p a apart h)
]
