-- ===== src/Feeds/Entries/Kept.antt =====
-- What an update keeps: prefixes of globally routed space, none broader than allowed, each once.
use easywall.Prelude.{
  ℕ, suc, ◌+◌, ◌≤◌, ◌≡◌, ◌⊎◌, inl, inr, ltb, subst, length-append, Bool, true, false, List, [], ◌∷◌,
  All, All-append, refl, arith, if-elim, length, Option-cases, Bool-cases,
}
use easywall.Text.{Text, trim_space}
use easywall.Feeds.Prefixes.{Addr, Prefix, holds_addr, is_global}
use easywall.Feeds.Prefixes.Routable.{IsRoutable, is_global-IsRoutable}
use easywall.Feeds.Entries.{
  Netip, feed_max_entries, feed_max_bits, feed_prefix, Refusal, Verdict, refuses, drops, keeps,
  judge_prefix, judge, seen, added, Checked, refused, accepted, check_entries, before, insert,
  sorted, sort_kept, validate_feed_entries,
}

-- The limit that is for a prefix's family.
abbrev pub limit : Bool → ℕ × ℕ → ℕ
limit false limits = limits.0
limit true limits = limits.1

-- A prefix that the core may store: no broader than allowed, and routable throughout.
abbrev pub IsKept : ℕ × ℕ → Prefix → Type 0
IsKept limits p =
    (limit p.addr.six limits ≤ p.bits)
    × ((a : Addr) → holds_addr p a ≡ true → IsRoutable p.addr.six a)

judge_prefix-keeps :
    (limits : ℕ × ℕ) (p q : Prefix)
    → judge_prefix limits p ≡ keeps q
    → (p ≡ q) × (limit p.addr.six limits ≤ p.bits) × (is_global p ≡ true)
unfolding judge_prefix
judge_prefix-keeps limits p q e = ground arith

verdict_cases :
    (v : Verdict)
    → ((why : Refusal) × (v ≡ refuses why)) ⊎ (v ≡ drops) ⊎ ((p : Prefix) × (v ≡ keeps p))
verdict_cases (refuses why) = inl (why, refl)
verdict_cases drops = inr (inl refl)
verdict_cases (keeps p) = inr (inr (p, refl))

judge-keeps :
    (n : Netip) (limits : ℕ × ℕ) (i : ℕ) (e : Text) (q : Prefix)
    → judge n limits i e ≡ keeps q
    → IsKept limits q
unfolding judge
judge-keeps n limits i e q h = elim (Option-cases (feed_prefix n (trim_space e))) [
  | inl f ↦ ground (arith, f, h)
  | inr (p, f) ↦
      let (same_p, wide, global) = judge_prefix-keeps limits p q (rw (f, judge) at h) in
      let kept : IsKept limits p = (wide, λ a m. is_global-IsRoutable p a global m) in
      subst (IsKept limits) same_p kept
]

added-All :
    (limits : ℕ × ℕ) (p : Prefix) (kept : List Prefix)
    → IsKept limits p
    → All (IsKept limits) kept
    → All (IsKept limits) (added p kept)
added-All limits p kept h a =
    if-elim (All (IsKept limits)) (seen p kept) _ _ (λ q. a)
      (λ q. All-append (IsKept limits) kept (p ∷ []) a (h, tt))

length-added : (p : Prefix) (kept : List Prefix) → length (added p kept) ≤ length kept + 1
length-added p kept =
    if-elim (λ ps. length ps ≤ length kept + 1) (seen p kept) _ _ (λ q. omega arith)
      (λ q. omega (arith, length-append kept (p ∷ [])))

-- What is kept may be stored, and no more entries are kept and dropped than there are.
abbrev Holds : ℕ × ℕ → ℕ → Checked → Type 0
Holds limits total (refused why) = Unit
Holds limits total (accepted kept dropped) =
    All (IsKept limits) kept × (length kept + dropped ≤ total)

check_entries-Holds :
    (n : Netip) (limits : ℕ × ℕ) (i total : ℕ) (es : List Text) (kept : List Prefix) (dropped : ℕ)
    → All (IsKept limits) kept
    → length kept + dropped + length es ≤ total
    → Holds limits total (check_entries n limits i es kept dropped)
unfolding check_entries
check_entries-Holds n limits i total [] kept dropped a b = (a, omega (arith, b))
check_entries-Holds n limits i total (e ∷ es) kept dropped a b =
    elim (verdict_cases (judge n limits i e)) [
      | inl (why, j) ↦ rw (j, check_entries) tt
      | inr (inl j) ↦
          rw (j, check_entries)
            (check_entries-Holds n limits (i + 1) total es kept (dropped + 1) a (omega (arith, b)))
      | inr (inr (p, j)) ↦
          rw (j, check_entries)
            (check_entries-Holds n limits (i + 1) total es (added p kept) dropped
              (added-All limits p kept (judge-keeps n limits i e p j) a)
              (omega (arith, b, length-added p kept)))
    ]

insert-All :
    (limits : ℕ × ℕ) (p : Prefix) (qs : List Prefix)
    → IsKept limits p
    → All (IsKept limits) qs
    → All (IsKept limits) (insert p qs) × (length (insert p qs) ≡ length qs + 1)
unfolding insert
insert-All limits p [] h a = ((h, tt), omega arith)
insert-All limits p (q ∷ qs) h a =
    let (rest, n) = insert-All limits p qs h a.1 in
    if-elim (λ ps. All (IsKept limits) ps × (length ps ≡ suc (length qs) + 1)) (before p q) _ _
      (λ b. ((h, (a.0, a.1)), omega arith)) (λ b. ((a.0, rest), omega (arith, n)))

sorted-All :
    (limits : ℕ × ℕ) (ps : List Prefix)
    → All (IsKept limits) ps
    → All (IsKept limits) (sorted ps) × (length (sorted ps) ≡ length ps)
unfolding sorted
sorted-All limits [] a = (tt, refl)
sorted-All limits (p ∷ ps) a =
    let (rest, n) = sorted-All limits ps a.1 in
    let (all, m) = insert-All limits p (sorted ps) a.0 rest in (all, omega (arith, n, m))

sort_kept-Holds :
    (limits : ℕ × ℕ) (total : ℕ) (c : Checked)
    → Holds limits total c
    → Holds limits total (sort_kept c)
sort_kept-Holds limits total (refused why) h = tt
sort_kept-Holds limits total (accepted kept dropped) h =
    let (all, n) = sorted-All limits kept h.0 in (all, omega (arith, n, h.1))

-- What an update may store cannot lock the operator out of the local network. Of whatever entries
-- the web process sends, and however they parse, validateFeedEntries keeps only prefixes that are
-- no broader than the feed's limit for their family and hold routable addresses alone: no IPv4 one
-- in a range that is not globally routed, only IPv6 ones in 2000::/3 outside 2001:db8::/32; and no
-- more of them than there are entries less the dropped ones, and at most FeedMaxEntries.
pub validate_feed_entries-IsKept :
    (n : Netip) (id : Text) (entries : List Text) (kept : List Prefix) (dropped : ℕ)
    → validate_feed_entries n id entries ≡ accepted kept dropped
    → All (IsKept (feed_max_bits id)) kept
      × (length kept + dropped ≤ length entries)
      × (length entries ≤ feed_max_entries)
unfolding validate_feed_entries
validate_feed_entries-IsKept n id entries kept dropped e =
    elim (Bool-cases (ltb feed_max_entries (length entries))) [
      | inl b ↦ ground (arith, b, e)
      | inr b ↦
          let checked = check_entries n (feed_max_bits id) 0 entries [] 0 in
          let holds = sort_kept-Holds (feed_max_bits id) (length entries) checked (
            check_entries-Holds n (feed_max_bits id) 0 (length entries) entries [] 0 tt
              (omega arith)) in
          let (all, few) = subst (Holds (feed_max_bits id) (length entries)) (rw b at e) holds in
          (all, few, ground (arith, b))
    ]
