-- ===== src/Feeds/Ranges/Merged.antt =====
-- Merged ranges hold the addresses of the prefixes, and stand apart.
use easywall.Prelude.{
  ℕ, ◌+◌, ◌≤◌, ◌<◌, ◌≡◌, ◌↔◌, ◌⊎◌, inl, inr, true, List, [], ◌∷◌, All, arith, Bool-cases, if-elim,
  leb, ltb,
}
use easywall.Feeds.Prefixes.{Addr, Prefix, masked, holds_addr}
use easywall.Feeds.Ranges.{
  Range, key, last_addr, ranges_of, insert_range, sort_ranges, joins, widened, merge_from,
  merge_sorted, merge_ranges, search, overlaps_any,
}
use easywall.Feeds.Ranges.Bits.{IsPlain, IsAddr, Between, holds_addr-Between}

-- An address, by its place in the order, lies in one of the ranges.
abbrev pub InSome : ℕ → List Range → Type 0
InSome n [] = ⊥
InSome n (r ∷ rs) = Between n r.from r.to ⊎ InSome n rs

-- Some prefix holds it.
abbrev pub Held : Addr → List Prefix → Type 0
Held a [] = ⊥
Held a (p ∷ ps) = (holds_addr p a ≡ true) ⊎ Held a ps

-- The first range, if there is one, begins behind.
abbrev pub Above : ℕ → List Range → Type 0
Above n [] = Unit
Above n (r ∷ rs) = n < key r.from

-- Ranges that are not empty, each begins behind the address that follows the one before.
abbrev pub Apart : List Range → Type 0
Apart [] = Unit
Apart (r ∷ rs) = (key r.from ≤ key r.to) × Above (key r.to + 1) rs × Apart rs

-- Ranges that are not empty, in the order of their first addresses.
abbrev Ordered : ℕ → List Range → Type 0
Ordered low [] = Unit
Ordered low (r ∷ rs) = (low ≤ key r.from) × (key r.from ≤ key r.to) × Ordered (key r.from) rs

Ordered-lower : (low low' : ℕ) (rs : List Range) → low' ≤ low → Ordered low rs → Ordered low' rs
Ordered-lower low low' [] h o = tt
Ordered-lower low low' (r ∷ rs) h o = (omega (arith, h, o.0), o.1, o.2)

widened-Between :
    (n : ℕ) (last r : Range)
    → joins last r ≡ true
    → key last.from ≤ key r.from
    → key last.from ≤ key last.to
    → key r.from ≤ key r.to
    → (Between n (widened last r).from (widened last r).to
        ↔ (Between n last.from last.to ⊎ Between n r.from r.to))
      × (key (widened last r).from ≡ key last.from)
      × (key (widened last r).from ≤ key (widened last r).to)
widened-Between n last r j h l m = ground (arith, j, h, l, m)

merge_from-Above :
    (n : ℕ) (last : Range) (rs : List Range) → n < key last.from → Above n (merge_from last rs)
unfolding merge_from
merge_from-Above n last [] h = h
merge_from-Above n last (r ∷ rs) h = elim (Bool-cases (joins last r)) [
  | inl j ↦
      rw (j, merge_from)
        (merge_from-Above n (widened last r) rs (
          if-elim (λ s. n < key s.from) (ltb (key last.to) (key r.to)) (record last { to = r.to })
            last (λ b. h) (λ b. h)))
  | inr j ↦ rw (j, merge_from) h
]

-- One range joined to the last, or put behind it.
abbrev Merges : ℕ → Range → List Range → List Range → Type 0
Merges n last rs out = (InSome n out ↔ (Between n last.from last.to ⊎ InSome n rs)) × Apart out

merge_from-Merges :
    (n : ℕ) (last : Range) (rs : List Range)
    → key last.from ≤ key last.to
    → Ordered (key last.from) rs
    → Merges n last rs (merge_from last rs)
unfolding merge_from
merge_from-Merges n last [] h o = ((λ x. x, λ x. x), (h, tt, tt))
merge_from-Merges n last (r ∷ rs) h o = elim (Bool-cases (joins last r)) [
  | inl j ↦
      let (both, from, fine) = widened-Between n last r j o.0 h o.1 in
      let rest = merge_from-Merges n (widened last r) rs fine (
        Ordered-lower (key r.from) (key (widened last r).from) rs (omega (arith, from, o.0)) o.2) in
      rw (j, merge_from) (ground (arith, both, rest.0), rest.1)
  | inr j ↦
      let rest = merge_from-Merges n r rs o.1 o.2 in
      let behind : key last.to + 1 < key r.from = ground (arith, j, o.0, h) in
      rw (j, merge_from)
        (ground (arith, rest.0), (h, merge_from-Above (key last.to + 1) r rs behind, rest.1))
]

insert_range-InSome :
    (n : ℕ) (r : Range) (ss : List Range)
    → InSome n (insert_range r ss) ↔ (Between n r.from r.to ⊎ InSome n ss)
unfolding insert_range
insert_range-InSome n r [] = (λ x. x, λ x. x)
insert_range-InSome n r (s ∷ ss) = ground (arith, insert_range-InSome n r ss)

insert_range-Ordered :
    (low : ℕ) (r : Range) (ss : List Range)
    → low ≤ key r.from
    → key r.from ≤ key r.to
    → Ordered low ss
    → Ordered low (insert_range r ss)
unfolding insert_range
insert_range-Ordered low r [] l h o = (l, h, tt)
insert_range-Ordered low r (s ∷ ss) l h o = elim (Bool-cases (leb (key r.from) (key s.from))) [
  | inl b ↦ rw (b, insert_range) (l, h, (ground (arith, b), o.1, o.2))
  | inr b ↦
      rw (b, insert_range)
        (o.0, o.1, insert_range-Ordered (key s.from) r ss (ground (arith, b)) h o.2)
]

sort_ranges-Ordered :
    (rs : List Range)
    → All (λ r. key r.from ≤ key r.to) rs
    → Ordered 0 (sort_ranges rs) × ((n : ℕ) → InSome n (sort_ranges rs) ↔ InSome n rs)
unfolding sort_ranges
sort_ranges-Ordered [] h = (tt, λ n. (λ x. x, λ x. x))
sort_ranges-Ordered (r ∷ rs) h =
    let (o, same) = sort_ranges-Ordered rs h.1 in
    (
      insert_range-Ordered 0 r (sort_ranges rs) (omega arith) h.0 o,
      λ n. ground (arith, insert_range-InSome n r (sort_ranges rs), same n),
    )

merge_sorted-Merged :
    (n : ℕ) (rs : List Range)
    → Ordered 0 rs
    → (InSome n (merge_sorted rs) ↔ InSome n rs) × Apart (merge_sorted rs)
unfolding merge_sorted
merge_sorted-Merged n [] o = ((λ x. x, λ x. x), tt)
merge_sorted-Merged n (r ∷ rs) o = merge_from-Merges n r rs o.1 o.2

-- A prefix is not empty.
first_to_last : (p : Prefix) → key (masked p).addr ≤ key (last_addr p)
unfolding last_addr
first_to_last p = ground arith

ranges_of-Held :
    (a : Addr) (ps : List Prefix)
    → IsAddr a
    → All IsPlain ps
    → All (λ r. key r.from ≤ key r.to) (ranges_of ps) × (InSome (key a) (ranges_of ps) ↔ Held a ps)
unfolding ranges_of
ranges_of-Held a [] v h = (tt, (λ x. x, λ x. x))
ranges_of-Held a (p ∷ ps) v h =
    let (all, same) = ranges_of-Held a ps v h.1 in
    let held = holds_addr-Between p a h.0 v in
    rw (h.0.0, ranges_of) ((first_to_last p, all), ground (arith, held, same))

-- Ranges that stand apart and behind have nothing before.
behind_not_InSome :
    (n low : ℕ) (rs : List Range) → n ≤ low → Above low rs → Apart rs → InSome n rs → ⊥
behind_not_InSome n low [] h b o i = i
behind_not_InSome n low (r ∷ rs) h b o (inl i) = ground (arith, h, b, i)
behind_not_InSome n low (r ∷ rs) h b o (inr i) =
    behind_not_InSome n (key r.to + 1) rs (omega (arith, h, b, o.0)) o.1 o.2 i

abbrev pub only_addr : Addr → Range
only_addr a = record { from = a; to = a }

overlaps_any-InSome :
    (a : Addr) (rs : List Range)
    → Apart rs
    → (overlaps_any rs (only_addr a) ≡ true) ↔ InSome (key a) rs
unfolding overlaps_any search
overlaps_any-InSome a [] o = ground arith
overlaps_any-InSome a (r ∷ rs) o = elim (Bool-cases (leb (key a) (key r.to))) [
  | inl b ↦
      let later = behind_not_InSome (key a) (key r.to + 1) rs (ground (arith, b)) o.1 o.2 in
      rw (b, overlaps_any) (ground (arith, b, later))
  | inr b ↦
      let rest = overlaps_any-InSome a rs o.2 in rw (b, overlaps_any) (ground (arith, b, rest))
]

-- The ranges that the kernel gets for a feed hold exactly the addresses of its prefixes. For valid
-- prefixes and an address without a zone, mergeRanges gives ranges that are not empty, stand in
-- order, neither overlap nor touch; one of them has the address exactly if a prefix does, and
-- overlapsAny finds it in them exactly then.
pub merge_ranges-Held :
    (a : Addr) (ps : List Prefix)
    → IsAddr a
    → All IsPlain ps
    → Apart (merge_ranges ps)
      × (InSome (key a) (merge_ranges ps) ↔ Held a ps)
      × ((overlaps_any (merge_ranges ps) (only_addr a) ≡ true) ↔ Held a ps)
unfolding merge_ranges
merge_ranges-Held a ps v h =
    let (all, held) = ranges_of-Held a ps v h in
    let (ordered, sorted) = sort_ranges-Ordered (ranges_of ps) all in
    let (merged, apart) = merge_sorted-Merged (key a) (sort_ranges (ranges_of ps)) ordered in
    let found = overlaps_any-InSome a (merge_sorted (sort_ranges (ranges_of ps))) apart in
    (
      apart,
      ground (arith, merged, sorted (key a), held),
      ground (arith, merged, sorted (key a), held, found),
    )
