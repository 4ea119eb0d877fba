-- ===== src/Text/Numbers.antt =====
-- A text that strconv.Atoi reads has no space: strings.TrimSpace leaves it as it is.
use easywall.Prelude.{
  ℕ, ◌+◌, ◌-◌, ◌*◌, ◌==◌, ◌≡◌, refl, Bool, true, false, not, ◌&&◌, some, [], ◌∷◌, arith,
  Option-cases, Bool-cases, inl, inr, All,
}
use easywall.Text.Laws.{trim_space-All}
use easywall.Text.{
  Text, is_space, is_digit, trim_space, parse_digits, unsigned, negative, positive, atoi, ℤ,
  max_int,
}

no_space : Text → Bool
no_space [] = true
no_space (c ∷ cs) = not (is_space c) && no_space cs

is_digit-is_space : (c : ℕ) → is_digit c ≡ true → is_space c ≡ false
unfolding is_digit is_space
is_digit-is_space c h = ground arith

parse_digits-no_space :
    (acc : ℕ) (s : Text) (n : ℕ) → parse_digits acc s ≡ some n → no_space s ≡ true
unfolding parse_digits no_space
parse_digits-no_space acc [] n h = refl
parse_digits-no_space acc (c ∷ cs) n h =
    ground (arith, is_digit-is_space c, parse_digits-no_space (acc * 10 + (c - b'0')) cs n)

unsigned-no_space : (limit : ℕ) (s : Text) (n : ℕ) → unsigned limit s ≡ some n → no_space s ≡ true
unfolding unsigned
unsigned-no_space limit [] n h = cc h
unsigned-no_space limit (c ∷ cs) n h = elim (Option-cases (parse_digits 0 (c ∷ cs))) [
  | inl e ↦ absurd (ground arith)
  | inr (m, e) ↦ parse_digits-no_space 0 (c ∷ cs) m e
]

negative-no_space : (s : Text) (n : ℤ) → negative s ≡ some n → no_space s ≡ true
unfolding negative
negative-no_space s n h = elim (Option-cases (unsigned (max_int + 1) s)) [
  | inl e ↦ absurd (ground arith)
  | inr (m, e) ↦ unsigned-no_space (max_int + 1) s m e
]

positive-no_space : (s : Text) (n : ℤ) → positive s ≡ some n → no_space s ≡ true
unfolding positive
positive-no_space s n h = elim (Option-cases (unsigned max_int s)) [
  | inl e ↦ absurd (ground arith)
  | inr (m, e) ↦ unsigned-no_space max_int s m e
]

atoi-no_space : (s : Text) (n : ℤ) → atoi s ≡ some n → no_space s ≡ true
unfolding atoi no_space is_space
atoi-no_space [] n h = refl
atoi-no_space (c ∷ cs) n h = elim (Bool-cases (c == b'-')) [
  | inl e ↦ ground (arith, negative-no_space cs n)
  | inr e ↦ elim (Bool-cases (c == b'+')) [
    | inl f ↦ ground (arith, positive-no_space cs n)
    | inr f ↦ positive-no_space (c ∷ cs) n (ground arith)
  ]
]

no_space-All : (s : Text) → no_space s ≡ true → All (λ c. is_space c ≡ false) s
unfolding no_space
no_space-All [] h = tt
no_space-All (c ∷ cs) h = (ground arith, no_space-All cs (ground arith))

pub trim_space-atoi : (s : Text) (n : ℤ) → atoi s ≡ some n → trim_space s ≡ s
trim_space-atoi s n h = trim_space-All s (no_space-All s (atoi-no_space s n h))
