-- ===== src/Rules/Ids/Walks.antt =====
-- EnsureRuleIDs over both lists.
use easywall.Prelude.{
  ℕ, suc, ◌+◌, ◌≤◌, ◌≡◌, refl, ap, ◌↔◌, ◌∙◌, Bool, true, false, ◌||◌, some, List, [], subst, ◌∷◌,
  ◌++◌, arith, length,
}
use easywall.Text.{Text, contains}
use easywall.Rules.{PortRule, Rules}
use easywall.Rules.Ids.{Walk, needs_id, valid_rule_id, ensure_rule, ensure_list, ensure_rule_ids}
use easywall.Rules.Ids.Ensure.{IdsOk, seen_after, Kept, IsSource, IdsOk-append, ensure_rule_total}

-- Whether some rule needed an id when the walk came to it.
abbrev needs_any : List Text → List PortRule → List PortRule → Bool
needs_any seen (r ∷ rs) (r' ∷ rs') = needs_id seen r.id || needs_any (r'.id ∷ seen) rs rs'
needs_any seen _ _ = false

abbrev ListEnsured : ℕ → (ℕ → List ℕ) → Walk → List PortRule → Type 0
ListEnsured fuel source w rs =
    (rs' : List PortRule) × (w' : Walk) × (ensure_list fuel source w rs ≡ some (rs', w'))
    × (w'.seen ≡ seen_after w.seen rs')
    × IdsOk w.seen rs'
    × Kept w.seen rs rs'
    × (w'.changed ≡ (w.changed || needs_any w.seen rs rs'))

||_assoc : (a b c : Bool) → ((a || b) || c) ≡ (a || (b || c))
||_assoc a b c = ground arith

ensure_list_total :
    (fuel : ℕ) (source : ℕ → List ℕ) (w : Walk) (rs : List PortRule)
    → IsSource fuel source
    → length w.seen + length rs ≤ fuel
    → ListEnsured fuel source w rs
unfolding ensure_list
ensure_list_total fuel source w [] s h = ([], w, refl, refl, tt, tt, ground arith)
ensure_list_total fuel source w (r ∷ rs) s h =
    let (r', w1, e, seen, valid, free, rest, kept, ch) =
      ensure_rule_total fuel source w r s (omega arith) in
    let (rs', w2, e', seen', oks, kepts, chs) =
      ensure_list_total fuel source w1 rs s (omega (arith, ap length seen)) in
    let chs' = subst (λ x. w2.changed ≡ (w1.changed || needs_any x rs rs')) seen chs in
    (
      r' ∷ rs',
      w2,
      rw (e, ensure_list) (rw (e', ensure_list) refl),
      seen' ∙ ap (λ x. seen_after x rs') seen,
      (valid, free, subst (λ x. IdsOk x rs') seen oks),
      (rest, kept, subst (λ x. Kept x rs rs') seen kepts),
      ground (arith, chs', ch),
    )

pub Kept-length :
    (seen : List Text) (rs rs' : List PortRule) → Kept seen rs rs' → length rs' ≡ length rs
Kept-length seen [] [] k = refl
Kept-length seen [] (r' ∷ rs') k = absurd k
Kept-length seen (r ∷ rs) [] k = absurd k
Kept-length seen (r ∷ rs) (r' ∷ rs') k = ap suc (Kept-length (r'.id ∷ seen) rs rs' k.2)

needs_any-Kept :
    (seen : List Text) (rs rs' : List PortRule)
    → Kept seen rs rs'
    → (needs_any seen rs rs' ≡ false) ↔ (rs' ≡ rs)
needs_any-Kept seen [] [] k = ((λ h. refl), (λ h. refl))
needs_any-Kept seen [] (r' ∷ rs') k = absurd k
needs_any-Kept seen (r ∷ rs) [] k = absurd k
needs_any-Kept seen (r ∷ rs) (r' ∷ rs') k =
    let ih = needs_any-Kept (r'.id ∷ seen) rs rs' k.2 in
    ((λ h. ground (arith, ih)), (λ h. ground (arith, ih)))

length-seen_after :
    (seen : List Text) (rs : List PortRule) → length (seen_after seen rs) ≡ length seen + length rs
length-seen_after seen [] = omega arith
length-seen_after seen (r ∷ rs) = omega (arith, length-seen_after (r.id ∷ seen) rs)

-- With a random source whose draws are ids and do not repeat within the fuel, and as much fuel as
-- there are port rules, EnsureRuleIDs ends; afterwards the ids of the TCP rules followed by those
-- of the UDP rules are all well-formed and pairwise distinct; of each rule only the id may differ,
-- and it differs exactly if it was missing, malformed or in use by an earlier rule; the other rule
-- sets are as they were; and the function reports a change exactly if the rules differ.
pub ensure_rule_ids-IdsOk :
    (fuel : ℕ) (source : ℕ → List ℕ) (next : ℕ) (r : Rules)
    → IsSource fuel source
    → length r.tcp + length r.udp ≤ fuel
    → (r' : Rules) × (w : Walk) × (ensure_rule_ids fuel source next r ≡ some (r', w))
      × IdsOk [] (r'.tcp ++ r'.udp)
      × Kept [] r.tcp r'.tcp
      × Kept (seen_after [] r'.tcp) r.udp r'.udp
      × (r' ≡ record r { tcp = r'.tcp; udp = r'.udp })
      × ((w.changed ≡ false) ↔ (r' ≡ r))
unfolding ensure_rule_ids
ensure_rule_ids-IdsOk fuel source next r s h =
    let (tcp, w1, e, seen, oks, kept, ch) =
      ensure_list_total fuel source (record { seen = []; next = next; changed = false }) r.tcp s
        (omega arith) in
    let small : length w1.seen + length r.udp ≤ fuel =
      omega (arith, ap length seen, length-seen_after [] tcp, Kept-length [] r.tcp tcp kept) in
    let (udp, w2, e', seen', oks', kept', ch') = ensure_list_total fuel source w1 r.udp s small in
    let n = needs_any-Kept [] r.tcp tcp kept in
    let n' = needs_any-Kept w1.seen r.udp udp kept' in
    (
      record r { tcp = tcp; udp = udp },
      w2,
      rw (e, ensure_rule_ids) (rw (e', ensure_rule_ids) refl),
      IdsOk-append [] tcp udp oks (subst (λ x. IdsOk x udp) seen oks'),
      kept,
      (subst (λ x. Kept x r.udp udp) seen kept'),
      refl,
      (
        (λ c. ground (arith, n, n', ch, ch')),
        (λ c.
            ground
              (arith, n, n', ch, ch', ap (λ (x : Rules). x.tcp) c, ap (λ (x : Rules). x.udp) c)),
      ),
    )

needs_id_of_ok :
    (seen : List Text) (id : Text)
    → valid_rule_id id ≡ true
    → contains id seen ≡ false
    → needs_id seen id ≡ false
unfolding needs_id valid_rule_id
needs_id_of_ok seen [] v c = cc
needs_id_of_ok seen (d ∷ ds) v c = ground arith

ensure_rule_fine :
    (fuel : ℕ) (source : ℕ → List ℕ) (w : Walk) (r : PortRule)
    → needs_id w.seen r.id ≡ false
    → ensure_rule fuel source w r ≡ some (r, record w { seen = r.id ∷ w.seen })
unfolding ensure_rule
ensure_rule_fine fuel source w r h = ground arith

ensure_list-IdsOk :
    (fuel : ℕ) (source : ℕ → List ℕ) (w : Walk) (rs : List PortRule)
    → IdsOk w.seen rs
    → ensure_list fuel source w rs ≡ some (rs, record w { seen = seen_after w.seen rs })
unfolding ensure_list
ensure_list-IdsOk fuel source w [] h = refl
ensure_list-IdsOk fuel source w (r ∷ rs) h =
    rw (ensure_rule_fine fuel source w r (needs_id_of_ok w.seen r.id h.0 h.1), ensure_list)
      (rw (ensure_list-IdsOk fuel source (record w { seen = r.id ∷ w.seen }) rs h.2, ensure_list)
        refl)

IdsOk-split :
    (seen : List Text) (rs us : List PortRule)
    → IdsOk seen (rs ++ us)
    → IdsOk seen rs × IdsOk (seen_after seen rs) us
IdsOk-split seen [] us h = (tt, h)
IdsOk-split seen (r ∷ rs) us h =
    let k = IdsOk-split (r.id ∷ seen) rs us h.2 in ((h.0, h.1, k.0), k.1)

-- A rule set whose ids are in order is left as it is: no random read is made, and no change is
-- reported.
pub ensure_rule_ids_idem :
    (fuel : ℕ) (source : ℕ → List ℕ) (next : ℕ) (r : Rules)
    → IdsOk [] (r.tcp ++ r.udp)
    → (w : Walk) × (ensure_rule_ids fuel source next r ≡ some (r, w))
      × (w.next ≡ next)
      × (w.changed ≡ false)
unfolding ensure_rule_ids
ensure_rule_ids_idem fuel source next r h =
    let k = IdsOk-split [] r.tcp r.udp h in
    let start : Walk = record { seen = []; next = next; changed = false } in
    let first = record start { seen = seen_after [] r.tcp } in
    (
      record first { seen = seen_after first.seen r.udp },
      rw (ensure_list-IdsOk fuel source start r.tcp k.0, ensure_rule_ids)
          (rw (ensure_list-IdsOk fuel source first r.udp k.1, ensure_rule_ids) refl),
      refl,
      refl,
    )
