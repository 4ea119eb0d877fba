-- ===== src/Login/Totp/Digits.antt =====
-- The codes themselves: what hotp makes of the sum of an HMAC is always a code of the right
-- shape, and never reads past the sum's end.
use easywall.Prelude.{
  ℕ, suc, ◌+◌, ◌-◌, ◌<◌, ◌++◌, if-elim, if◌then◌else◌, ltb, ◌/◌, ◌%◌, false, ◌≤◌, ◌≡◌, true, some,
  List, [], ◌∷◌, ◌*◌, ◌∙◌, ap, length, length-append, All, All-append, refl, arith,
}
use Prim.Native.Nat.{◌^◌}
use easywall.Text.{Text, is_digit, is_space}
use easywall.Text.Laws.{trim_space-All}
use easywall.Login.Totp.{
  Crypto, drop, last_byte, big_endian, zero_padded, decimal, zero_digits, code_modulus, all_digits,
  truncated, hotp, totp_at, is_totp_shape, totp_digits,
}

-- Decimal digits.
abbrev pub IsDigit : ℕ → Type 0
IsDigit c = (b'0' ≤ c) × (c ≤ b'9')

decimal-IsDigit : (fuel n : ℕ) → All IsDigit (decimal fuel n)
unfolding decimal
decimal-IsDigit ℕ.zero n = tt
decimal-IsDigit (suc fuel) n =
    All-append IsDigit (if ltb n 10 then [] else decimal fuel (n / 10)) _
      (if-elim {A = Text} (All IsDigit) (ltb n 10) _ _ (λ h. tt)
        (λ h. decimal-IsDigit fuel (n / 10)))
      (omega arith, tt)

-- A number below 10 ^ (k + 1) has k + 1 digits at most.
decimal-length : (fuel k n : ℕ) → n < 10 ^ suc k → length (decimal fuel n) ≤ suc k
unfolding decimal
decimal-length ℕ.zero k n h = omega arith
decimal-length (suc fuel) ℕ.zero n h = ground (arith, h)
decimal-length (suc fuel) (suc k) n h =
    let smaller : n / 10 < 10 ^ suc k = omega (arith, h) in
    let rest = decimal-length fuel k (n / 10) smaller in
    if-elim {A = Text} (λ s. length (s ++ ((b'0' + n % 10) ∷ [])) ≤ suc (suc k)) (ltb n 10) _ _
      (λ h. omega arith)
      (λ h. omega (arith, rest, length-append (decimal fuel (n / 10)) ((b'0' + n % 10) ∷ [])))

zero_digits-length : (n : ℕ) → length (zero_digits n) ≡ n
unfolding zero_digits
zero_digits-length ℕ.zero = refl
zero_digits-length (suc n) = omega (arith, zero_digits-length n)

zero_digits-IsDigit : (n : ℕ) → All IsDigit (zero_digits n)
unfolding zero_digits
zero_digits-IsDigit ℕ.zero = tt
zero_digits-IsDigit (suc n) = (omega arith, zero_digits-IsDigit n)

zero_padded-length : (k n : ℕ) → n < 10 ^ suc k → length (zero_padded (suc k) n) ≡ suc k
unfolding zero_padded
zero_padded-length k n h =
    let d = decimal 10 n in
    omega (
      arith,
      length-append (zero_digits (suc k - length d)) d,
      zero_digits-length (suc k - length d),
      decimal-length 10 k n h,
    )

zero_padded-IsDigit : (w n : ℕ) → All IsDigit (zero_padded w n)
unfolding zero_padded
zero_padded-IsDigit w n =
    All-append IsDigit (zero_digits (w - length (decimal 10 n))) _ (zero_digits-IsDigit _)
      (decimal-IsDigit 10 n)

-- The number that a text of decimal digits stands for, behind one that has been read.
abbrev pub number : Text → ℕ → ℕ
number [] read = read
number (c ∷ cs) read = number cs (read * 10 + (c - b'0'))

number-append : (xs ys : Text) (n : ℕ) → number (xs ++ ys) n ≡ number ys (number xs n)
number-append [] ys n = refl
number-append (x ∷ xs) ys n = number-append xs ys (n * 10 + (x - b'0'))

-- As much fuel as digits is enough.
number-decimal : (fuel n : ℕ) → n < 10 ^ fuel → number (decimal fuel n) 0 ≡ n
unfolding decimal
number-decimal ℕ.zero n h = omega (arith, h)
number-decimal (suc fuel) n h =
    let digit = (b'0' + n % 10) ∷ [] in
    let smaller : n / 10 < 10 ^ fuel = omega (arith, h) in
    let rest = number-decimal fuel (n / 10) smaller in
    if-elim {A = Text} (λ s. number (s ++ digit) 0 ≡ n) (ltb n 10) _ _ (λ e. ground (arith, e))
      (λ e. number-append (decimal fuel (n / 10)) digit 0 ∙ (rw rest (omega arith)))

number-zero_digits : (k : ℕ) → number (zero_digits k) 0 ≡ 0
unfolding zero_digits
number-zero_digits ℕ.zero = refl
number-zero_digits (suc k) = number-zero_digits k

number-zero_padded : (w n : ℕ) → n < 10 ^ 10 → number (zero_padded w n) 0 ≡ n
unfolding zero_padded
number-zero_padded w n h =
    let d = decimal 10 n in
    let k = w - length d in
    number-append (zero_digits k) d 0 ∙ (rw (number-zero_digits k) (number-decimal 10 n h))

-- The last byte of a sum that has one.
last_byte_total :
    (b : ℕ) (bs : List ℕ)
    → (x : ℕ) × (init : List ℕ) × (last_byte (b ∷ bs) ≡ some x) × ((b ∷ bs) ≡ (init ++ (x ∷ [])))
unfolding last_byte
last_byte_total b [] = (b, [], refl, refl)
last_byte_total b (c ∷ bs) =
    let (x, init, e, f) = last_byte_total c bs in (x, b ∷ init, e, ap (λ ys. b ∷ ys) f)

-- A big-endian word of a list, with so many elements before it.
abbrev IsWordAt : List ℕ → ℕ → ℕ → Type 0
IsWordAt bs n w =
    (before after : List ℕ) × (a b c d : ℕ) × (bs ≡ (before ++ (a ∷ b ∷ c ∷ d ∷ after)))
    × (length before ≡ n)
    × (w ≡ a * 16777216 + b * 65536 + c * 256 + d)

big_endian_total :
    (n : ℕ) (bs : List ℕ)
    → n + 4 ≤ length bs
    → (w : ℕ) × (big_endian (drop n bs) ≡ some w) × IsWordAt bs n w
unfolding big_endian drop
big_endian_total ℕ.zero (a ∷ (b ∷ (c ∷ (d ∷ rest)))) h =
    (_, refl, ([], rest, a, b, c, d, refl, refl, omega arith))
big_endian_total (suc n) (x ∷ xs) h =
    let (w, e, (before, after, a, b, c, d, f, l, v)) = big_endian_total n xs (omega (arith, h)) in
    (w, e, (x ∷ before, after, a, b, c, d, ap (λ ys. x ∷ ys) f, omega (arith, l), v))
big_endian_total n _ h = ground arith

-- What RFC 4226 makes of a sum: the low four bits of its last byte say where a word of 31 bits
-- stands, which is reduced to six digits.
abbrev pub IsTruncation : List ℕ → ℕ → Type 0
IsTruncation sum n =
    (init : List ℕ) × (last w : ℕ) × (sum ≡ (init ++ (last ∷ [])))
    × IsWordAt sum (last % 16) w
    × (n ≡ w % 2147483648 % 1000000)

-- A sum as long as SHA-1's is read within its bounds, and gives a code of six digits.
truncated_total :
    (sum : List ℕ)
    → 20 ≤ length sum
    → (code : Text) × (truncated totp_digits sum ≡ some code)
      × (length code ≡ totp_digits)
      × All IsDigit code
      × IsTruncation sum (number code 0)
unfolding truncated code_modulus
truncated_total [] h = ground arith
truncated_total (x ∷ xs) h =
    let (b, init, e, f) = last_byte_total x xs in
    let (w, e', at) = big_endian_total (b % 16) (x ∷ xs) (omega arith) in
    let value = w % 2147483648 % code_modulus totp_digits in
    (
      zero_padded totp_digits value,
      rw (e, e') refl,
      zero_padded-length 5 value (omega arith),
      zero_padded-IsDigit totp_digits value,
      (init, b, w, f, at, number-zero_padded totp_digits value (omega arith)),
    )

all_digits-All : (s : Text) → All IsDigit s → all_digits s ≡ true
unfolding is_digit
all_digits-All [] h = refl
all_digits-All (c ∷ cs) h = ground (arith, all_digits-All cs h.1, h.0)

spaceless : (s : Text) → All IsDigit s → All (λ c. is_space c ≡ false) s
unfolding is_space
spaceless [] h = tt
spaceless (c ∷ cs) h = (ground (arith, h.0), spaceless cs h.1)

-- If the sums of the HMAC are of 20 bytes or more, as those of SHA-1, totpAt never reads past
-- the end of one: for every secret and step it returns a code of six decimal digits, which the
-- sign-in takes for one, and whose number is RFC 4226's truncation of the sum: the word that stands
-- where the low four bits of the last byte say, without its highest bit, modulo a million.
pub totp_at_total :
    (c : Crypto) (secret : List ℕ) (step : ℕ)
    → ((key : List ℕ) (n : ℕ) → 20 ≤ length (c.hmac key n))
    → (code : Text) × (totp_at c secret step ≡ some code)
      × (length code ≡ totp_digits)
      × All IsDigit code
      × (is_totp_shape code ≡ true)
      × IsTruncation (c.hmac secret step) (number code 0)
unfolding totp_at hotp is_totp_shape
totp_at_total c secret step h =
    let (code, e, l, d, t) = truncated_total (c.hmac secret step) (h secret step) in
    (code, e, l, d, rw (trim_space-All code (spaceless code d), l) (all_digits-All code d), t)
