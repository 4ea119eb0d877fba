-- ===== src/Rules/Validate/Ports.antt =====
-- The check of one port rule against its description, and checks of a whole list.
use easywall.Prelude.{
  ℕ, ◌≤◌, ◌≡◌, refl, ◌↔◌, inl, inr, Bool, true, false, Option, none, some, List, [], ◌∷◌, All,
  arith, Option-cases, is_nil,
}
use easywall.Text.{Text, cut, atoi}
use easywall.Text.Laws.{same_iff}
use easywall.Rules.{PortRule, scope_host, scope_forwarded, scope_both}
use easywall.Rules.Validate.{
  Error, ◌then_check◌, require, check_all, in_port_range, parse_port_number, check_range,
  check_port, known_scope, check_source, validate_port_rule, check_entry,
}
use easywall.Rules.Validate.Storable.{
  IsPortNumber, IsPortText, IsSource, IsEntry, IsScope, IsPortRule,
}

pub then_check_iff {ℓ} :
    {E : Type ℓ} (a b : Option E) → ((a then_check b) ≡ none) ↔ ((a ≡ none) × (b ≡ none))
then_check_iff none b = ground arith
then_check_iff (some e) b = ground arith

pub require_iff {ℓ} : {E : Type ℓ} (b : Bool) (e : E) → (require b e ≡ none) ↔ (b ≡ true)
require_iff true e = ground arith
require_iff false e = ground arith

-- A check of every entry against a description of one.
pub check_all_iff {ℓ κ μ} :
    {A : Type ℓ} {E : Type κ} (f : A → Option E) (P : A → Type μ)
    → ((x : A) → (f x ≡ none) ↔ P x)
    → (xs : List A) → (check_all f xs ≡ none) ↔ All P xs
unfolding check_all
check_all_iff f P h [] = ((λ e. tt), (λ p. refl))
check_all_iff f P h (x ∷ xs) =
    let t = then_check_iff (f x) (check_all f xs) in
    let ih = check_all_iff f P h xs in
    ((λ e. ((h x).0 (t.0 e).0, ih.0 (t.0 e).1)), (λ p. t.1 ((h x).1 p.0, ih.1 p.1)))

pub parse_port_number_iff : (s : Text) (n : ℕ) → (parse_port_number s ≡ some n) ↔ IsPortNumber s n
unfolding parse_port_number in_port_range
parse_port_number_iff s n = ground arith

check_range-none :
    (a b : Text)
    → check_range a b ≡ none
    → (lo hi : ℕ) × (parse_port_number a ≡ some lo) × (parse_port_number b ≡ some hi) × (lo ≤ hi)
unfolding check_range
check_range-none a b e = elim (Option-cases (parse_port_number a)) [
  | inl n ↦ absurd (ground arith)
  | inr (lo, p) ↦ elim (Option-cases (parse_port_number b)) [
    | inl n ↦ absurd (ground arith)
    | inr (hi, q) ↦ (lo, hi, p, q, ground arith)
  ]
]

range_none-check :
    (a b : Text) (lo hi : ℕ)
    → parse_port_number a ≡ some lo
    → parse_port_number b ≡ some hi
    → lo ≤ hi
    → check_range a b ≡ none
unfolding check_range
range_none-check a b lo hi p q h = ground arith

check_port-none : (s : Text) → check_port s ≡ none → IsPortText s
unfolding check_port
check_port-none s e = elim (Option-cases (cut b':' s)) [
  | inl c ↦ elim (Option-cases (parse_port_number s)) [
    | inl n ↦ absurd (ground arith)
    | inr (n, p) ↦ inl (c, (n, (parse_port_number_iff s n).0 p))
  ]
  | inr ((a, b), c) ↦
      let (lo, hi, p, q, h) = check_range-none a b (ground arith) in
      inr (a, b, lo, hi, c, (parse_port_number_iff a lo).0 p, (parse_port_number_iff b hi).0 q, h)
]

port_text-check : (s : Text) → IsPortText s → check_port s ≡ none
unfolding check_port
port_text-check s (inl (c, (n, p))) = let q = (parse_port_number_iff s n).1 p in ground arith
port_text-check s (inr (a, b, lo, hi, c, p, q, h)) =
    let p' = (parse_port_number_iff a lo).1 p in
    let q' = (parse_port_number_iff b hi).1 q in
    let r = range_none-check a b lo hi p' q' h in ground arith

pub check_port_iff : (s : Text) → (check_port s ≡ none) ↔ IsPortText s
check_port_iff s = (check_port-none s, port_text-check s)

pub check_source_iff : (s : Text) → (check_source s ≡ none) ↔ IsSource s
unfolding check_source
check_source_iff s = ground arith

pub check_entry_iff : (f : Text → Error) (s : Text) → (check_entry f s ≡ none) ↔ IsEntry s
unfolding check_entry
check_entry_iff f s = ground arith

known_scope_iff : (s : Text) → (known_scope s ≡ true) ↔ IsScope s
unfolding known_scope
known_scope_iff [] = ((λ e. inl refl), (λ k. refl))
known_scope_iff (c ∷ cs) = ground (
  arith,
  same_iff (c ∷ cs) scope_host,
  same_iff (c ∷ cs) scope_forwarded,
  same_iff (c ∷ cs) scope_both,
)

port_text-ne-nil : (s : Text) → IsPortText s → is_nil s ≡ false
unfolding atoi cut
port_text-ne-nil [] (inl (c, (n, p))) = cc p.0
port_text-ne-nil [] (inr (a, b, lo, hi, c, p, q, h)) = cc c
port_text-ne-nil (c ∷ cs) k = refl

pub validate_port_rule-none : (r : PortRule) → validate_port_rule r ≡ none → IsPortRule r
unfolding validate_port_rule
validate_port_rule-none r e =
    let p : check_port r.port ≡ none = ground arith in
    let s : known_scope r.scope ≡ true = ground arith in
    let t : check_all check_source r.sources ≡ none = ground arith in
    record {
      port = (check_port_iff r.port).0 p;
      scope = (known_scope_iff r.scope).0 s;
      sources = (check_all_iff check_source IsSource check_source_iff r.sources).0 t;
    }

pub port_rule-validate : (r : PortRule) → IsPortRule r → validate_port_rule r ≡ none
unfolding validate_port_rule
port_rule-validate r k =
    let n = port_text-ne-nil r.port k.port in
    let p = (check_port_iff r.port).1 k.port in
    let s = (known_scope_iff r.scope).1 k.scope in
    let t = (check_all_iff check_source IsSource check_source_iff r.sources).1 k.sources in
    ground arith
