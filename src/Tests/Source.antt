-- ===== src/Tests/Source.antt =====
-- A random source for the tests: the n-th read is five zero bytes and n modulo 8.
use easywall.Prelude.{ℕ, ◌+◌, ◌/◌, ◌%◌, ◌≤◌, ◌≡◌, refl, true, List, [], ◌∷◌, arith, ap}
use easywall.Text.{Text}
use easywall.Rules.Ids.{is_hex, all_hex, valid_rule_id, hex_digit, hex_encode, new_rule_id}
use easywall.Rules.Ids.Ensure.{IsSource}

abbrev pub numbered : ℕ → List ℕ
numbered n = 0 ∷ 0 ∷ 0 ∷ 0 ∷ 0 ∷ (n % 8) ∷ []

hex_digit-small : (n : ℕ) → n ≤ 9 → hex_digit n ≡ n + 48
unfolding hex_digit
hex_digit-small n h = ground arith

is_hex-small : (n : ℕ) → n ≤ 9 → is_hex (n + 48) ≡ true
unfolding is_hex
is_hex-small n h = ground arith

new_rule_id-numbered :
    (n : ℕ)
    → new_rule_id numbered n
      ≡ 48 ∷ 48 ∷ 48 ∷ 48 ∷ 48 ∷ 48 ∷ 48 ∷ 48 ∷ 48 ∷ 48 ∷ 48 ∷ (n % 8 + 48) ∷ []
unfolding new_rule_id hex_encode
new_rule_id-numbered n =
    let a = hex_digit-small (n % 8 / 16) (omega arith) in
    let b = hex_digit-small (n % 8 % 16) (omega arith) in
    let c : n % 8 / 16 + 48 ≡ 48 = omega arith in
    let d : n % 8 % 16 + 48 ≡ n % 8 + 48 = omega arith in rw (a, b, c, d) refl

last_of : Text → ℕ
last_of (a ∷ b ∷ c ∷ d ∷ e ∷ f ∷ g ∷ h ∷ i ∷ j ∷ k ∷ l ∷ s) = l
last_of s = 0

pub numbered-IsSource : IsSource 8 numbered
unfolding valid_rule_id all_hex last_of
numbered-IsSource = record {
  well_formed =
      λ n. let d = is_hex-small (n % 8) (omega arith) in rw (new_rule_id-numbered n) (rw d refl);
  distinct = λ i j a b e.
      let same = ap last_of (rw (new_rule_id-numbered i, new_rule_id-numbered j) at e) in
      omega (arith, same);
}
