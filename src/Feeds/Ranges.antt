-- ===== src/Feeds/Ranges.antt =====
-- mergeRanges of internal/core/nftables_feeds.go: the ranges of a feed as the kernel's interval set
-- takes them.
pub mod Bits
pub mod Merged
use easywall.Prelude.{
  ℕ, suc, ◌+◌, ◌-◌, ◌*◌, Bool, true, false, ◌||◌, List, [], ◌∷◌, ltb, leb, ◌==◌, if◌then◌else◌,
}
use easywall.Feeds.Prefixes.{Addr, Prefix, bit_len, masked}

pub record Range : Type 0 where
  pub from : Addr
  pub to : Addr

-- netip.Addr.Compare: IPv4 before IPv6. The successor of the last IPv4 address is none: between
-- the two families there is a gap.
abbrev pub key : Addr → ℕ
key a = if a.six then 8589934592 + a.value else a.value

-- 1<<k - 1
unfoldable pub ones : ℕ → ℕ
ones ℕ.zero = 0
ones (suc k) = ones k * 2 + 1

-- lastAddr: the host bits, which Masked has cleared, are set.
unfoldable pub last_addr : Prefix → Addr
unfolding masked ones
last_addr p = record (masked p).addr {
  value = (masked p).addr.value + ones (bit_len p.addr.six - p.bits);
}

-- Prefix.IsValid, for a prefix of a valid address.
abbrev pub is_valid : Prefix → Bool
is_valid p = leb p.bits (bit_len p.addr.six)

unfoldable pub ranges_of : List Prefix → List Range
unfolding masked last_addr
ranges_of [] = []
ranges_of (p ∷ ps) =
    let rest = ranges_of ps in
    if is_valid p then record { from = (masked p).addr; to = last_addr p } ∷ rest else rest

-- SortFunc by the first address.
unfoldable pub insert_range : Range → List Range → List Range
insert_range r [] = r ∷ []
insert_range r (s ∷ ss) =
    let rest = insert_range r ss in if leb (key r.from) (key s.from) then r ∷ (s ∷ ss) else s ∷ rest

unfoldable pub sort_ranges : List Range → List Range
unfolding insert_range
sort_ranges [] = []
sort_ranges (r ∷ rs) = insert_range r (sort_ranges rs)

-- Whether a range begins within the last one or right behind it.
abbrev pub joins : Range → Range → Bool
joins last r = leb (key r.from) (key last.to) || key last.to + 1 == key r.from

abbrev pub widened : Range → Range → Range
widened last r = if ltb (key last.to) (key r.to) then record last { to = r.to } else last

-- The loop, with the last range that was put out.
unfoldable pub merge_from : Range → List Range → List Range
merge_from last [] = last ∷ []
merge_from last (r ∷ rs) = elim (joins last r) [
  | true ↦ merge_from (widened last r) rs
  | false ↦ last ∷ merge_from r rs
]

unfoldable pub merge_sorted : List Range → List Range
unfolding merge_from
merge_sorted [] = []
merge_sorted (r ∷ rs) = merge_from r rs

unfoldable pub merge_ranges : List Prefix → List Range
unfolding ranges_of sort_ranges merge_sorted
merge_ranges ps = merge_sorted (sort_ranges (ranges_of ps))

abbrev begins_before : Range → List Range → Bool
begins_before r [] = false
begins_before r (s ∷ ss) = leb (key s.from) (key r.to)

-- sort.Search on ranges in order: those behind the first that does not end before r.
unfoldable pub search : Range → List Range → List Range
search r [] = []
search r (s ∷ ss) = let rest = search r ss in if leb (key r.from) (key s.to) then s ∷ ss else rest

-- overlapsAny of feedstore.go.
unfoldable pub overlaps_any : List Range → Range → Bool
unfolding search
overlaps_any rs r = begins_before r (search r rs)
