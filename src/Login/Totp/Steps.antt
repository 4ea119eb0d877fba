-- ===== src/Login/Totp/Steps.antt =====
-- Which step a code is accepted for, and that no step is accepted twice.
use easywall.Prelude.{
  ℕ, suc, ◌+◌, ◌-◌, ◌*◌, ◌≤◌, ◌<◌, ◌≡◌, ◌≢◌, inl, inr, false, Option, none, some, List, length,
  subst, refl, ◌==◌, ==_iff, ltb, ap, ◌∙◌, Bool-cases, arith,
}
use easywall.Text.{Text, same, ℤ}
use easywall.Text.Laws.{same_iff}
use easywall.Login.Totp.{Crypto, totp_at, step_at, offset, scan_one, scan, match_totp}
use easywall.Login.Totp.Digits.{totp_at_total}

-- The code is that of a step in the window around a clock's step.
abbrev pub Fits : Crypto → List ℕ → ℕ → ℕ → Text → ℕ → Type 0
Fits c raw cur window code step =
    (cur ≤ step + window) × (step ≤ cur + window) × (totp_at c raw step ≡ some code)

module _ (c : Crypto) (raw : List ℕ) (cur window : ℕ) (code : Text) where
  -- What the rounds before the i-th have found: the first step that fits, or that none does.
  Scanned : ℕ → Option (ℕ × ℤ) → Type 0
  Scanned i none =
      (step : ℕ) → cur ≤ step + window → step + window < cur + i → totp_at c raw step ≢ some code
  Scanned i (some (step, d)) =
      (step + window < cur + i)
      × Fits c raw cur window code step
      × ((earlier : ℕ)
          → cur ≤ earlier + window
          → earlier < step
          → totp_at c raw earlier ≢ some code)

  other_code :
      (n : ℕ) (t : Text)
      → totp_at c raw n ≡ some t
      → same t code ≡ false
      → totp_at c raw n ≢ some code
  other_code n t e m = ground (arith, same_iff t code)

  scan_one-Scanned :
      (i : ℕ) (found : Option (ℕ × ℤ))
      → ((step : ℕ) → (t : Text) × (totp_at c raw step ≡ some t))
      → i ≤ 2 * window
      → Scanned i found
      → (found' : Option (ℕ × ℤ)) × (scan_one c raw cur code window i found ≡ some found')
        × Scanned (i + 1) found'
  unfolding scan_one Scanned
  scan_one-Scanned i (some m) total h s =
      let (t, e) = total (cur + i - window) in
      (some m, ground (arith, e), (omega (arith, s.0), s.1, s.2))
  scan_one-Scanned i none total h s = elim (Bool-cases (ltb (cur + i) window)) [
    | inl b ↦ (none, rw b refl, λ step from below. s step from (ground (arith, b, below)))
    | inr b ↦
        let (t, e) = total (cur + i - window) in
        elim (Bool-cases (same t code)) [
          | inl m ↦
              let found : ℕ × ℤ = (cur + i - window, offset i window) in
              let fits = e ∙ ap some ((same_iff t code).0 m) in
              (
                some found,
                rw (b, e, m) refl,
                (
                  ground (arith, b),
                  (ground (arith, b), ground (arith, h, b), fits),
                  λ earlier from below. s earlier from (ground (arith, b, below)),
                ),
              )
          | inr m ↦ (
            none,
            rw (b, e, m) refl,
            λ step from below. elim (Bool-cases (step == cur + i - window)) [
              | inl q ↦
                  ground
                    (arith, ==_iff step (cur + i - window), q, other_code (cur + i - window) t e m)
              | inr q ↦ s step from (ground (arith, q, b, below))
            ],
          )
        ]
  ]

  scan-Scanned :
      (i n j : ℕ) (found : Option (ℕ × ℤ))
      → ((step : ℕ) → (t : Text) × (totp_at c raw step ≡ some t))
      → i + n ≡ j
      → j ≤ 2 * window + 1
      → Scanned i found
      → (found' : Option (ℕ × ℤ)) × (scan c raw cur code window i n found ≡ some found')
        × Scanned j found'
  unfolding scan
  scan-Scanned i ℕ.zero j found total q h s =
      (found, refl, subst (λ k. Scanned k found) (omega (arith, q)) s)
  scan-Scanned i (suc n) j found total q h s =
      let (one, e, s1) = scan_one-Scanned i found total (omega (arith, q, h)) s in
      let (last, e', s2) = scan-Scanned (i + 1) n j one total (omega (arith, q)) h s1 in
      (last, rw e e', s2)

-- What matchTOTP has found: the first step in the window that fits, or that none does.
abbrev pub Found : Crypto → List ℕ → ℕ → ℕ → Text → Option (ℕ × ℤ) → Type 0
Found c raw cur window code none =
    (step : ℕ) → cur ≤ step + window → step ≤ cur + window → totp_at c raw step ≢ some code
Found c raw cur window code (some (step, d)) =
    Fits c raw cur window code step
    × ((earlier : ℕ) → cur ≤ earlier + window → earlier < step → totp_at c raw earlier ≢ some code)

Found-Scanned :
    (c : Crypto) (raw : List ℕ) (cur window : ℕ) (code : Text) (found : Option (ℕ × ℤ))
    → Scanned c raw cur window code (2 * window + 1) found
    → Found c raw cur window code found
unfolding Scanned
Found-Scanned c raw cur window code none s = λ step from to. s step from (omega (arith, to))
Found-Scanned c raw cur window code (some m) s = (s.1, s.2)

-- If the sums of the HMAC are of 20 bytes or more, as those of SHA-1, matchTOTP answers for every
-- secret, clock, code and window: with the earliest step within the window around the clock's
-- whose code was submitted, or with none, and then no step within the window has that code.
pub match_totp-Found :
    (c : Crypto) (raw : List ℕ) (now window : ℕ) (code : Text)
    → ((key : List ℕ) (n : ℕ) → 20 ≤ length (c.hmac key n))
    → (found : Option (ℕ × ℤ)) × (match_totp c raw now code window ≡ some found)
      × Found c raw (step_at now) window code found
unfolding match_totp Scanned
match_totp-Found c raw now window code h =
    let total : (step : ℕ) → (t : Text) × (totp_at c raw step ≡ some t) =
      λ step. let (t, e, _, _, _, _) = totp_at_total c raw step h in (t, e) in
    let (found, e, s) =
      scan-Scanned c raw (step_at now) window code 0 (2 * window + 1) (2 * window + 1) none total
        (omega arith) (omega arith) (λ step from below. omega (arith, from, below)) in
    (found, e, Found-Scanned c raw (step_at now) window code found s)
