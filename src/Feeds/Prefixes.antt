-- ===== src/Feeds/Prefixes.antt =====
-- Addresses and prefixes as netip has them, and which of them are globally routable
-- (internal/core/feeds.go).
pub mod Routable
use easywall.Prelude.{
  ℕ, suc, ◌+◌, ◌-◌, ◌*◌, ◌/◌, ◌%◌, Bool, true, false, not, ◌&&◌, ◌||◌, Option, none, some, List, [],
  ◌∷◌, ltb, leb, ◌==◌, if◌then◌else◌,
}

-- netip.Addr: an IPv6 address or an IPv4 one, its number, and whether it has a zone.
pub record Addr : Type 0 where
  pub six : Bool
  pub value : ℕ
  pub zone : Bool

pub record Prefix : Type 0 where
  pub addr : Addr
  pub bits : ℕ

abbrev pub bit_len : Bool → ℕ
bit_len true = 128
bit_len false = 32

-- x >> k
unfoldable pub shr : ℕ → ℕ → ℕ
shr x ℕ.zero = x
shr x (suc k) = shr (x / 2) k

-- x << k
unfoldable pub shl : ℕ → ℕ → ℕ
shl x ℕ.zero = x
shl x (suc k) = shl (x * 2) k

abbrev pub same_bool : Bool → Bool → Bool
same_bool true b = b
same_bool false b = not b

-- Addr.Is4In6 and Addr.Unmap.
abbrev pub is_4_in_6 : Addr → Bool
is_4_in_6 a = a.six && a.value / 4294967296 == 0xffff

unfoldable pub unmap : Addr → Addr
unmap a =
    if is_4_in_6 a then record { six = false; value = a.value % 4294967296; zone = false } else a

-- The bits of an address under its first ones.
abbrev pub top : Bool → ℕ → ℕ → ℕ
top six bits value = shr value (bit_len six - bits)

-- Prefix.Masked
unfoldable pub masked : Prefix → Prefix
unfolding shr shl
masked p = record p {
  addr = record p.addr {
    value = shl (top p.addr.six p.bits p.addr.value) (bit_len p.addr.six - p.bits);
  };
}

-- Prefix.Contains
unfoldable pub holds_addr : Prefix → Addr → Bool
unfolding shr
holds_addr p a =
    not a.zone
    && (same_bool p.addr.six a.six
        && top p.addr.six p.bits a.value == top p.addr.six p.bits p.addr.value)

-- Prefix.Overlaps: the two agree on the bits that both have.
abbrev pub lesser : ℕ → ℕ → ℕ
lesser a b = if leb a b then a else b

unfoldable pub overlaps : Prefix → Prefix → Bool
unfolding shr
overlaps p q =
    same_bool p.addr.six q.addr.six
    && top p.addr.six (lesser p.bits q.bits) p.addr.value
      == top p.addr.six (lesser p.bits q.bits) q.addr.value

abbrev v4 : ℕ → ℕ → Prefix
v4 value bits = record { addr = record { six = false; value = value; zone = false }; bits = bits }

-- nonGlobalV4: 0/8, 10/8, 100.64/10, 127/8, 169.254/16, 172.16/12, 192.168/16 and 224/3.
abbrev pub non_global_v4 : List Prefix
non_global_v4 =
    v4 0 8
    ∷ (v4 167772160 8
        ∷ (v4 1681915904 10
            ∷ (v4 2130706432 8
                ∷ (v4 2851995648 16
                    ∷ (v4 2886729728 12 ∷ (v4 3232235520 16 ∷ (v4 3758096384 3 ∷ [])))))))

-- globalV6, 2000::/3, and docV6, 2001:db8::/32.
abbrev pub global_v6 : Prefix
global_v6 = record {
  addr = record { six = true; value = 0x20000000000000000000000000000000; zone = false };
  bits = 3;
}

abbrev pub doc_v6 : Prefix
doc_v6 = record {
  addr = record { six = true; value = 0x20010db8000000000000000000000000; zone = false };
  bits = 32;
}

abbrev pub none_overlaps : Prefix → List Prefix → Bool
none_overlaps p [] = true
none_overlaps p (n ∷ ns) = if overlaps n p then false else none_overlaps p ns

-- isGlobal
unfoldable pub is_global : Prefix → Bool
unfolding holds_addr overlaps
is_global p =
    if p.addr.six
    then leb global_v6.bits p.bits && (holds_addr global_v6 p.addr && not (overlaps doc_v6 p))
    else none_overlaps p non_global_v4

abbrev pub some_holds : Prefix → List Prefix → Bool
some_holds p [] = false
some_holds p (n ∷ ns) = (leb n.bits p.bits && holds_addr n p.addr) || some_holds p ns

-- entirelyNonGlobal
unfoldable pub entirely_non_global : Prefix → Bool
unfolding holds_addr overlaps
entirely_non_global p =
    if p.addr.six
    then (if overlaps global_v6 p then leb doc_v6.bits p.bits && holds_addr doc_v6 p.addr else true)
    else some_holds p non_global_v4
