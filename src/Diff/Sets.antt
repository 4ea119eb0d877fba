-- ===== src/Diff/Sets.antt =====
-- The other parts of the preview: the address lists and the feeds as sets, the redirects by their
-- incoming side, the custom rules as a sequence.
use easywall.Prelude.{
  ℕ, ◌+◌, ◌≡◌, ◌≢◌, refl, sym, ap, ◌↔◌, true, Option, none, some, List, [], ◌∷◌, inl, inr, arith,
  Bool-cases, Option-cases, ◌∙◌, subst, map,
}
use easywall.Text.{Text, same, contains, ℤ, pos, negsuc}
use easywall.Text.Laws.{same_iff, same_refl}
use easywall.Rules.{ForwardingRule}
use easywall.Diff.{
  SetName, RuleDelta, missing_entries, list_entries, diff_list, diff_feeds, feeds, forward_id,
  same_int, same_id, index_forwards, forward_arrival, forward_removal, diff_forwarding,
  custom_lines, diff_lines, diff_custom,
}
use easywall.Diff.Once.{first, append_nil_iff, once_each-Silent, Silent-once_each}

-- The same addresses, in whatever order and however often.
abbrev pub SameEntries : List Text → List Text → Type 0
SameEntries current staged =
    (e : Text) → contains e (list_entries [] current) ≡ contains e (list_entries [] staged)

missing_entries_iff :
    (f : Text → RuleDelta) (others es : List Text)
    → (missing_entries f others es ≡ [])
      ↔ ((e : Text) → contains e es ≡ true → contains e others ≡ true)
unfolding missing_entries contains
missing_entries_iff f others [] = ((λ h e c. cc), (λ h. refl))
missing_entries_iff f others (x ∷ es) =
    let ih = missing_entries_iff f others es in
    (
      (λ h e c. elim (Bool-cases (same e x)) [
        | inl s ↦ let q = (same_iff e x).0 s in rw q (ground arith)
        | inr d ↦ ih.0 (ground arith) e (ground arith)
      ]),
      (λ h.
          let here = h x (ground (arith, same_refl x)) in
          let rest = ih.1 (λ e c. h e (ground arith)) in ground arith),
    )

pub diff_list_iff :
    (set : SetName) (current staged : List Text)
    → (diff_list set current staged ≡ []) ↔ SameEntries current staged
unfolding diff_list
diff_list_iff set current staged =
    let cur = list_entries [] current in
    let next = list_entries [] staged in
    let a = missing_entries_iff _ cur next in
    let b = missing_entries_iff _ next cur in
    (
      (λ h e.
          let parts = (append_nil_iff _ _).0 h in
          let x = a.0 parts.0 e in let y = b.0 parts.1 e in ground arith),
      (λ h. (append_nil_iff _ _).1 (a.1 (λ e c. h e ∙ c), b.1 (λ e c. sym (h e) ∙ c))),
    )

map-nil {ℓ κ} : {A : Type ℓ} {B : Type κ} (f : A → B) (xs : List A) → (map f xs ≡ []) ↔ (xs ≡ [])
map-nil f [] = ground arith
map-nil f (x ∷ xs) = ground arith

pub diff_feeds_iff :
    (current staged : List Text) → (diff_feeds current staged ≡ []) ↔ SameEntries current staged
unfolding diff_feeds
diff_feeds_iff current staged =
    let m = map-nil _ (diff_list feeds current staged) in
    let d = diff_list_iff feeds current staged in ((λ h. d.0 (m.0 h)), (λ h. m.1 (d.1 h)))

same_int_iff : (a b : ℤ) → (same_int a b ≡ true) ↔ (a ≡ b)
unfolding same_int
same_int_iff (pos a) (pos b) = ground arith
same_int_iff (pos a) (negsuc b) = ground arith
same_int_iff (negsuc a) (pos b) = ground arith
same_int_iff (negsuc a) (negsuc b) = ground arith

same_id_iff : (a b : ℤ × Text) → (same_id a b ≡ true) ↔ (a ≡ b)
unfolding same_id
same_id_iff (p, s) (q, t) = ground (arith, same_int_iff p q, same_iff s t)

abbrev pub dest_of : Option ForwardingRule → Option ℤ
dest_of none = none
dest_of (some r) = some r.dest_port

-- Each incoming port of each protocol is redirected to the same port, or not at all.
abbrev pub SameForwards : List ForwardingRule → List ForwardingRule → Type 0
SameForwards current staged =
    (id : ℤ × Text) → dest_of (index_forwards current id) ≡ dest_of (index_forwards staged id)

index_forwards-first :
    (rs : List ForwardingRule) (id : ℤ × Text)
    → index_forwards rs id ≡ first same_id forward_id id rs
unfolding index_forwards
index_forwards-first [] id = refl
index_forwards-first (r ∷ rs) id = ground (arith, index_forwards-first rs id)

first-id :
    (id : ℤ × Text) (rs : List ForwardingRule) (r : ForwardingRule)
    → first same_id forward_id id rs ≡ some r
    → forward_id r ≡ id
first-id id [] r e = cc
first-id id (x ∷ rs) r e = elim (Bool-cases (same_id (forward_id x) id)) [
  | inl s ↦ let k = (same_id_iff (forward_id x) id).0 s in let q : x ≡ r = ground arith in rw q at k
  | inr d ↦ first-id id rs r (ground arith)
]

forward_arrival_iff :
    (cur : ℤ × Text → Option ForwardingRule) (r : ForwardingRule)
    → (forward_arrival cur r ≡ []) ↔ (dest_of (cur (forward_id r)) ≡ some r.dest_port)
unfolding forward_arrival
forward_arrival_iff cur r = elim (Option-cases (cur (forward_id r))) [
  | inl c ↦ ground arith
  | inr (was, c) ↦ ground (arith, same_int_iff was.dest_port r.dest_port)
]

forward_removal_iff :
    (next : ℤ × Text → Option ForwardingRule) (r : ForwardingRule)
    → (forward_removal next r ≡ []) ↔ (next (forward_id r) ≢ none)
unfolding forward_removal
forward_removal_iff next r = ground arith

-- The index at the id of the first rule with some id.
index_at :
    (id : ℤ × Text) (rs : List ForwardingRule) (r : ForwardingRule)
    → first same_id forward_id id rs ≡ some r
    → index_forwards rs (forward_id r) ≡ some r
index_at id rs r f =
    let k = index_forwards-first rs (forward_id r) in
    let e = first-id id rs r f in
    k ∙ (subst (λ x. first same_id forward_id x rs ≡ some r) (sym e) f)

forwards_no_delta :
    (current staged : List ForwardingRule)
    → diff_forwarding current staged ≡ []
    → SameForwards current staged
unfolding diff_forwarding
forwards_no_delta current staged e id =
    let parts = (append_nil_iff _ _).0 e in
    let arrive = once_each-Silent same_id forward_id _ same_id_iff [] staged parts.0 in
    let leave = once_each-Silent same_id forward_id _ same_id_iff [] current parts.1 in
    elim (Option-cases (index_forwards staged id)) [
      | inr (r, q) ↦
          let f = sym (index_forwards-first staged id) ∙ q in
          let h = (forward_arrival_iff (index_forwards current) r).0 (arrive id r refl f) in
          let h' =
            subst (λ x. dest_of (index_forwards current x) ≡ some r.dest_port)
              (first-id id staged r f) h in
          h' ∙ sym (ap dest_of q)
      | inl q ↦ elim (Option-cases (index_forwards current id)) [
        | inl c ↦ ap dest_of (c ∙ sym q)
        | inr (r, c) ↦
            let f = sym (index_forwards-first current id) ∙ c in
            let h = (forward_removal_iff (index_forwards staged) r).0 (leave id r refl f) in
            let h' = subst (λ x. index_forwards staged x ≢ none) (first-id id current r f) h in
            absurd (h' q)
      ]
    ]

SameForwards-no_delta :
    (current staged : List ForwardingRule)
    → SameForwards current staged
    → diff_forwarding current staged ≡ []
unfolding diff_forwarding
SameForwards-no_delta current staged h = (append_nil_iff _ _).1 (
  Silent-once_each same_id forward_id _ same_id_iff [] staged (λ id r u f.
      (forward_arrival_iff (index_forwards current) r).1
        (h (forward_id r) ∙ ap dest_of (index_at id staged r f))),
  Silent-once_each same_id forward_id _ same_id_iff [] current (λ id r u f.
      (forward_removal_iff (index_forwards staged) r).1 (λ z.
        let a = ap dest_of (index_at id current r f) in
        let b = ap dest_of z in let c = sym (h (forward_id r)) ∙ a in cc)),
)

pub diff_forwarding_iff :
    (current staged : List ForwardingRule)
    → (diff_forwarding current staged ≡ []) ↔ SameForwards current staged
diff_forwarding_iff current staged =
    (forwards_no_delta current staged, SameForwards-no_delta current staged)

diff_lines_iff : (i : ℕ) (cs ns : List Text) → (diff_lines i cs ns ≡ []) ↔ (cs ≡ ns)
unfolding diff_lines
diff_lines_iff i [] [] = ground arith
diff_lines_iff i (c ∷ cs) [] = ground arith
diff_lines_iff i [] (n ∷ ns) = ground arith
diff_lines_iff i (c ∷ cs) (n ∷ ns) = ground (arith, same_iff c n, diff_lines_iff (i + 1) cs ns)

pub diff_custom_iff :
    (current staged : List Text)
    → (diff_custom current staged ≡ []) ↔ (custom_lines current ≡ custom_lines staged)
unfolding diff_custom
diff_custom_iff current staged = diff_lines_iff 1 (custom_lines current) (custom_lines staged)
