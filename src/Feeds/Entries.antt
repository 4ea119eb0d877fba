-- ===== src/Feeds/Entries.antt =====
-- feedPrefix and validateFeedEntries of internal/core/feeds.go: what the core keeps of the entries
-- that the web process sends.
pub mod Kept
use easywall.Prelude.{
  ℕ, ◌+◌, ◌-◌, Bool, true, false, not, ◌&&◌, ◌||◌, Option, none, some, List, [], ◌∷◌, ◌++◌, ltb,
  leb, ◌==◌, if◌then◌else◌, length,
}
use easywall.Text.{Text, trim_space}
use easywall.Rules.Feeds.{is_country_feed}
use easywall.Feeds.Prefixes.{
  Addr, Prefix, bit_len, same_bool, is_4_in_6, unmap, masked, is_global, entirely_non_global,
}

-- netip.ParseAddr and netip.ParsePrefix, with their errors dropped.
pub record Netip : Type 0 where
  pub parse_addr : Text → Option Addr
  pub parse_prefix : Text → Option Prefix

abbrev pub feed_max_entries : ℕ
feed_max_entries = 100000

-- FeedMaxBits of internal/shared/countries.go: for IPv4 and for IPv6.
unfoldable pub feed_max_bits : Text → ℕ × ℕ
feed_max_bits id = if is_country_feed id then (4, 16) else (8, 16)

of_addr : Addr → Option Prefix
unfolding unmap
of_addr a =
    if (unmap a).zone then none else some (record { addr = unmap a; bits = bit_len (unmap a).six })

of_prefix : Prefix → Option Prefix
unfolding unmap masked
of_prefix p =
    if is_4_in_6 p.addr
    then (if ltb p.bits 96
        then none
        else some (masked (record { addr = unmap p.addr; bits = p.bits - 96 })))
    else some (masked p)

-- feedPrefix; none is its false.
unfoldable pub feed_prefix : Netip → Text → Option Prefix
unfolding of_addr of_prefix
feed_prefix n e = elim (n.parse_addr e) [
  | some a ↦ of_addr a
  | none ↦ elim (n.parse_prefix e) [ none ↦ none | some p ↦ of_prefix p ]
]

-- Why an update is refused; a position counts from 1.
pub data Refusal : Type 0 where
  too_many : Refusal
  not_an_entry : ℕ → Refusal
  too_broad : Prefix → Refusal

-- What the loop does with one entry.
pub data Verdict : Type 0 where
  refuses : Refusal → Verdict
  drops : Verdict
  keeps : Prefix → Verdict

unfoldable pub judge_prefix : ℕ × ℕ → Prefix → Verdict
judge_prefix (max_v4, max_v6) p =
    if entirely_non_global p
    then drops
    else if (not p.addr.six && ltb p.bits max_v4) || (p.addr.six && ltb p.bits max_v6)
    then refuses (too_broad p)
    else if not (is_global p)
    then drops
    else keeps p

unfoldable pub judge : Netip → ℕ × ℕ → ℕ → Text → Verdict
unfolding feed_prefix judge_prefix
judge n limits i e = elim (feed_prefix n (trim_space e)) [
  | none ↦ refuses (not_an_entry (i + 1))
  | some p ↦ judge_prefix limits p
]

-- seen[p]
abbrev pub same_prefix : Prefix → Prefix → Bool
same_prefix p q =
    same_bool p.addr.six q.addr.six
    && (p.addr.value == q.addr.value && (same_bool p.addr.zone q.addr.zone && p.bits == q.bits))

abbrev pub seen : Prefix → List Prefix → Bool
seen p [] = false
seen p (q ∷ qs) = same_prefix p q || seen p qs

abbrev pub added : Prefix → List Prefix → List Prefix
added p kept = if seen p kept then kept else kept ++ (p ∷ [])

-- What the update would store, and how many entries were dropped; or why it is refused.
pub data Checked : Type 0 where
  refused : Refusal → Checked
  accepted : List Prefix → ℕ → Checked

-- The loop.
unfoldable pub check_entries : Netip → ℕ × ℕ → ℕ → List Text → List Prefix → ℕ → Checked
unfolding judge
check_entries n limits i [] kept dropped = accepted kept dropped
check_entries n limits i (e ∷ es) kept dropped = elim (judge n limits i e) [
  | refuses why ↦ refused why
  | drops ↦ check_entries n limits (i + 1) es kept (dropped + 1)
  | keeps p ↦ check_entries n limits (i + 1) es (added p kept) dropped
]

-- The order of SortFunc: netip.Addr.Compare, IPv4 first, then the narrower prefix.
abbrev pub before : Prefix → Prefix → Bool
before p q =
    if same_bool p.addr.six q.addr.six
    then ltb p.addr.value q.addr.value || (p.addr.value == q.addr.value && leb p.bits q.bits)
    else q.addr.six

unfoldable pub insert : Prefix → List Prefix → List Prefix
insert p [] = p ∷ []
insert p (q ∷ qs) = let rest = insert p qs in if before p q then p ∷ (q ∷ qs) else q ∷ rest

unfoldable pub sorted : List Prefix → List Prefix
unfolding insert
sorted [] = []
sorted (p ∷ ps) = insert p (sorted ps)

abbrev pub sort_kept : Checked → Checked
sort_kept (refused why) = refused why
sort_kept (accepted kept dropped) = accepted (sorted kept) dropped

unfoldable pub validate_feed_entries : Netip → Text → List Text → Checked
unfolding check_entries sorted feed_max_bits
validate_feed_entries n id entries =
    if ltb feed_max_entries (length entries)
    then refused too_many
    else sort_kept (check_entries n (feed_max_bits id) 0 entries [] 0)
