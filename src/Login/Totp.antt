-- ===== src/Login/Totp.antt =====
-- internal/web/totp.go, totpreplay.go and acceptTOTP of handler_login.go: one-time codes, and
-- the memory of the last step that one was accepted for. A slice that is read past its end is
-- Go's panic, `none`.
pub mod Steps
pub mod History
pub mod Digits
use easywall.Prelude.{
  ℕ, suc, ◌+◌, ◌-◌, ◌*◌, ◌/◌, ◌%◌, Bool, true, false, ◌||◌, ◌&&◌, Option, none, some, List, [], ◌∷◌,
  ◌++◌, ltb, leb, ◌==◌, if◌then◌else◌, is_nil, length, ◌>>=◌,
}
use easywall.Text.{Text, same, trim_space, is_digit, ℤ, pos, negsuc}

-- strings.ToUpper, base32's DecodeString without padding, and the sum that HMAC-SHA1 returns
-- for a key and the eight bytes of a counter.
pub record Crypto : Type 0 where
  pub to_upper : Text → Text
  pub base32 : Text → Option (List ℕ)
  pub hmac : List ℕ → ℕ → List ℕ

abbrev pub totp_digits : ℕ
totp_digits = 6

abbrev pub totp_period : ℕ
totp_period = 30

abbrev pub totp_window_login : ℕ
totp_window_login = 1

unfoldable pub drop {ℓ} : {A : Type ℓ} → ℕ → List A → List A
drop ℕ.zero xs = xs
drop (suc n) [] = []
drop (suc n) (x ∷ xs) = drop n xs

-- sum[len(sum)-1]
unfoldable pub last_byte : List ℕ → Option ℕ
last_byte [] = none
last_byte (b ∷ []) = some b
last_byte (b ∷ (c ∷ bs)) = last_byte (c ∷ bs)

-- binary.BigEndian.Uint32 of the next four bytes.
unfoldable pub big_endian : List ℕ → Option ℕ
big_endian (a ∷ (b ∷ (c ∷ (d ∷ rest)))) = some (((a * 256 + b) * 256 + c) * 256 + d)
big_endian _ = none

-- 10 ^ digits in a uint32.
unfoldable pub code_modulus : ℕ → ℕ
code_modulus ℕ.zero = 1
code_modulus (suc n) = code_modulus n * 10 % 4294967296

-- The decimal digits of a number; ten are enough for a uint32.
unfoldable pub decimal : ℕ → ℕ → Text
decimal ℕ.zero n = []
decimal (suc fuel) n =
    let higher = decimal fuel (n / 10) in
    (if ltb n 10 then [] else higher) ++ ((b'0' + n % 10) ∷ [])

unfoldable pub zero_digits : ℕ → Text
zero_digits ℕ.zero = []
zero_digits (suc n) = b'0' ∷ zero_digits n

-- fmt's %0*d of a uint32: zeros up to the width, and every digit of a number that is longer.
unfoldable pub zero_padded : ℕ → ℕ → Text
unfolding decimal zero_digits
zero_padded w n = zero_digits (w - length (decimal 10 n)) ++ decimal 10 n

-- What hotp makes of the sum, with a code of `digits` digits: & 0x0f and & 0x7fffffff are remainders.
unfoldable pub truncated : ℕ → List ℕ → Option Text
unfolding last_byte big_endian drop code_modulus zero_padded
truncated digits sum = last_byte sum >>= λ b. big_endian (drop (b % 16) sum) >>= λ w.
    some (zero_padded digits (w % 2147483648 % code_modulus digits))

unfoldable pub hotp : Crypto → List ℕ → ℕ → ℕ → Option Text
unfolding truncated
hotp c secret counter digits = truncated digits (c.hmac secret counter)

unfoldable pub totp_at : Crypto → List ℕ → ℕ → Option Text
unfolding hotp
totp_at c secret step = hotp c secret step totp_digits

-- `now` is t.Unix(), for a clock past 1970.
unfoldable pub step_at : ℕ → ℕ
step_at now = now / totp_period

-- i - window, the offset d of the loop's i-th round.
abbrev offset : ℕ → ℕ → ℤ
offset i window = if leb window i then pos (i - window) else negsuc (window - i - 1)

-- One round of the loop of matchTOTP: nothing before step 0, and the first match is kept.
unfoldable pub scan_one :
    Crypto → List ℕ → ℕ → Text → ℕ → ℕ → Option (ℕ × ℤ) → Option (Option (ℕ × ℤ))
unfolding totp_at
scan_one c secret cur code window i (some m) =
    if ltb (cur + i) window
    then some (some m)
    else totp_at c secret (cur + i - window) >>= λ candidate. some (some m)
scan_one c secret cur code window i none =
    if ltb (cur + i) window
    then some none
    else totp_at c secret (cur + i - window) >>= λ candidate.
        some (if same candidate code then some (cur + i - window, offset i window) else none)

unfoldable pub scan :
    Crypto → List ℕ → ℕ → Text → ℕ → ℕ → ℕ → Option (ℕ × ℤ) → Option (Option (ℕ × ℤ))
scan c secret cur code window i ℕ.zero found = some found
scan c secret cur code window i (suc n) found =
    scan_one c secret cur code window i found >>= λ found'.
    scan c secret cur code window (i + 1) n found'

-- matchTOTP. The loop runs from -window to window.
unfoldable pub match_totp : Crypto → List ℕ → ℕ → Text → ℕ → Option (Option (ℕ × ℤ))
unfolding scan
match_totp c secret now code window =
    scan c secret (step_at now) code window 0 (2 * window + 1) none

abbrev removed : ℕ → Bool
removed c = c == b' ' || (c == b'-' || c == b'=')

without_separators : Text → Text
without_separators [] = []
without_separators (c ∷ cs) =
    let rest = without_separators cs in if removed c then rest else c ∷ rest

abbrev not_empty : List ℕ → Option (List ℕ)
not_empty raw = if is_nil raw then none else some raw

unfoldable pub decode_totp_secret : Crypto → Text → Option (List ℕ)
unfolding without_separators
decode_totp_secret c s = c.base32 (c.to_upper (without_separators s)) >>= not_empty

-- totpReplay, with what its file holds: none where it is missing or does not parse.
pub record Replay : Type 0 where
  pub step : ℕ
  pub file : Option ℕ

abbrev stored : Option ℕ → ℕ
stored none = 0
stored (some n) = n

unfoldable pub new_totp_replay : Option ℕ → Replay
new_totp_replay file = record { step = stored file; file = file }

-- accept; `written` is whether the file could be written.
unfoldable pub accept_step : Bool → ℕ → Replay → Replay × Bool
accept_step written step r =
    if leb step r.step
    then (r, false)
    else (record { step = step; file = if written then some step else r.file }, true)

abbrev accept_match : Bool → Replay → Option (ℕ × ℤ) → Replay × Bool
accept_match written r none = (r, false)
accept_match written r (some (step, d)) = accept_step written step r

-- acceptTOTP, for the secret in the configuration.
unfoldable pub accept_totp : Crypto → Text → ℕ → Bool → Text → Replay → Option (Replay × Bool)
unfolding match_totp decode_totp_secret accept_step
accept_totp c secret now written code r =
    if is_nil secret then some (r, false) else elim (decode_totp_secret c secret) [
      | none ↦ some (r, false)
      | some raw ↦
          match_totp c raw now code totp_window_login >>= λ m. some (accept_match written r m)
    ]

abbrev all_digits : Text → Bool
all_digits [] = true
all_digits (c ∷ cs) = is_digit c && all_digits cs

-- isTOTPShape of recovery.go. Its length is in bytes, and six bytes with a character of more
-- than one among them are not six digits either.
unfoldable pub is_totp_shape : Text → Bool
is_totp_shape s = let t = trim_space s in if length t == totp_digits then all_digits t else false
