-- ===== src/Rules/Ids/Ensure.antt =====
-- What EnsureRuleIDs guarantees, for a random source whose draws do not repeat within the fuel.
use easywall.Prelude.{
  ℕ, zero, suc, ◌+◌, ◌≤◌, ◌<◌, ◌≡◌, ◌≢◌, refl, sym, ◌↔◌, ◌⊎◌, true, false, ◌||◌, some, List, [],
  ◌∷◌, ◌++◌, arith, inl, inr, Bool-cases, length,
}
use native.Mathlib.Decide.{dec_le}
use easywall.Text.{Text, same, contains}
use easywall.Text.Laws.{same_iff}
use easywall.Rules.{PortRule}
use easywall.Rules.Ids.{valid_rule_id, new_rule_id, draw, Walk, needs_id, ensure_rule}

-- The ids are well-formed, and each is new to those before it.
abbrev pub IdsOk : List Text → List PortRule → Type 0
IdsOk seen [] = Unit {0}
IdsOk seen (r ∷ rs) =
    (valid_rule_id r.id ≡ true) × (contains r.id seen ≡ false) × IdsOk (r.id ∷ seen) rs

-- The keys of the map after the walk.
abbrev pub seen_after : List Text → List PortRule → List Text
seen_after seen [] = seen
seen_after seen (r ∷ rs) = seen_after (r.id ∷ seen) rs

pub IdsOk-append :
    (seen : List Text) (rs us : List PortRule)
    → IdsOk seen rs
    → IdsOk (seen_after seen rs) us
    → IdsOk seen (rs ++ us)
IdsOk-append seen [] us h k = k
IdsOk-append seen (r ∷ rs) us h k = (h.0, h.1, IdsOk-append (r.id ∷ seen) rs us h.2 k)

-- What holds of a list before and after the walk: only ids differ, and only of the rules that
-- needed one; `changed` says whether any did.
abbrev pub Kept : List Text → List PortRule → List PortRule → Type 0
Kept seen [] [] = Unit {0}
Kept seen (r ∷ rs) (r' ∷ rs') =
    (r' ≡ record r { id = r'.id })
    × ((needs_id seen r.id ≡ false) ↔ (r'.id ≡ r.id))
    × Kept (r'.id ∷ seen) rs rs'
Kept seen _ _ = ⊥

-- The draws that are not used again within the fuel are distinct, and each is an id.
pub record IsSource (fuel : ℕ) (source : ℕ → List ℕ) : Type 0 where
  pub well_formed : (n : ℕ) → valid_rule_id (new_rule_id source n) ≡ true
  pub distinct : (i j : ℕ) → i < j → j < i + fuel → new_rule_id source i ≢ new_rule_id source j

-- The texts without the first that is x.
without : Text → List Text → List Text
without x [] = []
without x (y ∷ ys) = elim (same x y) [ true ↦ ys | false ↦ y ∷ without x ys ]

length-without :
    (x : Text) (ys : List Text) → contains x ys ≡ true → length ys ≡ suc (length (without x ys))
unfolding contains without
length-without x [] h = ground arith
length-without x (y ∷ ys) h = ground (arith, length-without x ys)

contains-without :
    (x z : Text) (ys : List Text) → z ≢ x → contains z ys ≡ true → contains z (without x ys) ≡ true
unfolding contains without
contains-without x z [] ne h = ground arith
contains-without x z (y ∷ ys) ne h =
    ground (arith, same_iff x y, same_iff z y, contains-without x z ys ne)

-- As many draws in a row that are all in use need as many texts in use.
all_used :
    (k : ℕ) (f : ℕ → Text) (n : ℕ) (seen : List Text)
    → ((i j : ℕ) → i < j → j < n + k → n ≤ i → f i ≢ f j)
    → ((i : ℕ) → n ≤ i → i < n + k → contains (f i) seen ≡ true)
    → k ≤ length seen
all_used zero f n seen d u = omega arith
all_used (suc k) f n seen d u =
    let here = u n (omega arith) (omega arith) in
    let rest =
      all_used k f (n + 1) (without (f n) seen) (λ i j a b c. d i j a (omega arith) (omega arith))
        (λ i a b.
          contains-without (f n) (f i) seen
            (λ e. d n i (omega arith) (omega arith) (omega arith) (sym e))
            (u i (omega arith) (omega arith))) in
    omega (arith, rest, length-without (f n) seen here)

-- The draw ends with an id that is not in use, or all that it looked at were.
abbrev Draws : ℕ → (ℕ → List ℕ) → List Text → ℕ → Type 0
Draws fuel source seen n =
    ((d : Text × ℕ) × (draw fuel source seen n ≡ some d)
      × (contains d.0 seen ≡ false)
      × ((i : ℕ) × (d.0 ≡ new_rule_id source i)))
    ⊎ ((i : ℕ) → n ≤ i → i < n + fuel → contains (new_rule_id source i) seen ≡ true)

draw-Draws : (fuel : ℕ) (source : ℕ → List ℕ) (seen : List Text) (n : ℕ) → Draws fuel source seen n
unfolding draw
draw-Draws zero source seen n = inr (λ i a b. absurd (omega arith))
draw-Draws (suc fuel) source seen n = elim (Bool-cases (contains (new_rule_id source n) seen)) [
  | inr free ↦ inl ((new_rule_id source n, n + 1), rw free, free, (n, refl))
  | inl used ↦ elim (draw-Draws fuel source seen (n + 1)) [
    | inl found ↦ inl (found.0, rw used found.1, found.2, found.3)
    | inr all ↦ inr (λ i a b. elim (dec_le (n + 1) i) [
      | yes h ↦ all i h (omega arith)
      | no h ↦ let e : i ≡ n = omega arith in rw e used
    ])
  ]
]

draw_total :
    (fuel : ℕ) (source : ℕ → List ℕ) (seen : List Text) (n : ℕ)
    → IsSource fuel source
    → length seen < fuel
    → (d : Text × ℕ) × (draw fuel source seen n ≡ some d)
      × (contains d.0 seen ≡ false)
      × (valid_rule_id d.0 ≡ true)
draw_total fuel source seen n s h = elim (draw-Draws fuel source seen n) [
  | inl found ↦ (found.0, found.1, found.2, rw found.3.1 (s.well_formed found.3.0))
  | inr all ↦ absurd (
      omega (
        arith,
        all_used fuel (new_rule_id source) n seen (λ i j a b c. s.distinct i j a (omega arith)) all,
      ))
]

-- An id that needed replacing is not the one it was replaced by.
needs_id-ne :
    (seen : List Text) (id id' : Text)
    → needs_id seen id ≡ true
    → valid_rule_id id' ≡ true
    → contains id' seen ≡ false
    → id' ≢ id
unfolding needs_id valid_rule_id
needs_id-ne seen [] id' h v free = λ e. let v' = rw e at v in cc v'
needs_id-ne seen (c ∷ cs) id' h v free =
    λ e. let v' = rw e at v in let free' = rw e at free in ground (arith, v', free')

-- One rule: its id is well-formed and new, and nothing else of it differs.
abbrev pub RuleEnsured : ℕ → (ℕ → List ℕ) → Walk → PortRule → Type 0
RuleEnsured fuel source w r =
    (r' : PortRule) × (w' : Walk) × (ensure_rule fuel source w r ≡ some (r', w'))
    × (w'.seen ≡ r'.id ∷ w.seen)
    × (valid_rule_id r'.id ≡ true)
    × (contains r'.id w.seen ≡ false)
    × (r' ≡ record r { id = r'.id })
    × ((needs_id w.seen r.id ≡ false) ↔ (r'.id ≡ r.id))
    × (w'.changed ≡ (w.changed || needs_id w.seen r.id))

pub ensure_rule_total :
    (fuel : ℕ) (source : ℕ → List ℕ) (w : Walk) (r : PortRule)
    → IsSource fuel source
    → length w.seen < fuel
    → RuleEnsured fuel source w r
unfolding ensure_rule needs_id
ensure_rule_total fuel source w r s h = elim (Bool-cases (needs_id w.seen r.id)) [
  | inr fine ↦ (
    r,
    record w { seen = r.id ∷ w.seen },
    ground arith,
    refl,
    ground arith,
    ground arith,
    refl,
    ground arith,
    ground arith,
  )
  | inl needs ↦
      let (d, e, free, valid) = draw_total fuel source w.seen w.next s h in
      (
        record r { id = d.0 },
        record { seen = d.0 ∷ w.seen; next = d.1; changed = true },
        ground arith,
        refl,
        valid,
        free,
        refl,
        ((λ k. cc), (λ k. absurd (needs_id-ne w.seen r.id d.0 needs valid free k))),
        ground arith,
      )
]
