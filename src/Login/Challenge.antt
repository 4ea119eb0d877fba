-- ===== src/Login/Challenge.antt =====
-- internal/web/passkeyreplay.go: the WebAuthn challenges that a Finish call has consumed.
use easywall.Prelude.{
  ℕ, ◌+◌, ◌≤◌, ◌≡◌, ◌⊎◌, inl, inr, Bool, true, false, ◌&&◌, Option, none, some, List, [], ◌∷◌, ltb,
  if◌then◌else◌, is_nil, arith, Bool-cases,
}
use easywall.Text.{Text, same}
use easywall.Text.Laws.{same_iff, same_refl}
use easywall.Text.Table.{Table, put, sweep}

abbrev is_some : Option ℕ → Bool
is_some none = false
is_some (some n) = true

-- spendChallenge. The table holds the instant at which a record expires.
unfoldable pub spend_challenge : ℕ → ℕ → Text → Table ℕ → Table ℕ × Bool
spend_challenge now ttl challenge m =
    if is_nil challenge
    then (m, false)
    else let swept = sweep (λ expires. ltb expires now) m in
      if is_some (swept challenge) then (swept, false) else (put challenge (now + ttl) swept, true)

-- A Finish call: its instant, the lifetime of its ceremony and the challenge it presents.
abbrev pub Finish : Type 0
Finish = ℕ × ℕ × Text

bit : Bool → ℕ
bit true = 1
bit false = 0

-- How many calls that present a challenge find it fresh.
unfoldable pub fresh : Text → Table ℕ → List Finish → ℕ
unfolding bit
fresh challenge m [] = 0
fresh challenge m ((now, ttl, c) ∷ fs) =
    let (m', ok) = spend_challenge now ttl c m in
    bit (same c challenge && ok) + fresh challenge m' fs

-- The clock does not run backwards, and the challenge is presented within its lifetime, to the
-- ceremony that it was made for.
abbrev pub Presented : Text → ℕ → ℕ → ℕ → List Finish → Type 0
Presented challenge begun lifetime last [] = Unit {0}
Presented challenge begun lifetime last ((now, ttl, c) ∷ fs) =
    (last ≤ now)
    × (c ≡ challenge → (ttl ≡ lifetime) × (now ≤ begun + lifetime))
    × Presented challenge begun lifetime now fs

-- After k calls that found it fresh: it is out of its lifetime, or unspent, or its record lasts.
abbrev Spent : ℕ → ℕ → Option ℕ → Type 0
Spent ends k none = k ≡ 0
Spent ends k (some expires) = (k ≤ 1) × (ends ≤ expires)

Counted : ℕ → Text → ℕ → ℕ → Table ℕ → Type 0
Counted ends challenge last k m = (k ≤ 1) × ((ends + 1 ≤ last) ⊎ Spent ends k (m challenge))

module _ (begun lifetime last now ttl k : ℕ) (challenge c : Text) (m : Table ℕ) where
  spend-Counted :
      begun ≤ last
      → last ≤ now
      → (c ≡ challenge → (ttl ≡ lifetime) × (now ≤ begun + lifetime))
      → Counted (begun + lifetime) challenge last k m
      → Counted
          (begun + lifetime)
          challenge
          now
          (k + bit (same c challenge && (spend_challenge now ttl c m).1))
          (spend_challenge now ttl c m).0
  unfolding Counted bit spend_challenge put sweep
  spend-Counted b h p s = elim (Bool-cases (same c challenge)) [
    | inl e ↦
        ground (arith, e, same_iff c challenge, same_refl challenge, p ((same_iff c challenge).0 e))
    | inr e ↦ ground (arith, e, same_iff challenge c, same_iff c challenge)
  ]

fresh-Counted :
    (begun lifetime last k : ℕ) (challenge : Text) (m : Table ℕ) (fs : List Finish)
    → begun ≤ last
    → Presented challenge begun lifetime last fs
    → Counted (begun + lifetime) challenge last k m
    → k + fresh challenge m fs ≤ 1
unfolding fresh Counted
fresh-Counted begun lifetime last k challenge m [] b p s = ground arith
fresh-Counted begun lifetime last k challenge m ((now, ttl, c) ∷ fs) b p s =
    let (m', ok) = spend_challenge now ttl c m in
    let after = spend-Counted begun lifetime last now ttl k challenge c m b p.0 p.1 s in
    omega (
      arith,
      fresh-Counted begun lifetime now (k + bit (same c challenge && ok)) challenge m' fs
          (omega (arith, b, p.0)) p.2 after,
    )

-- A challenge is spent at most once. If the server has no record of it at first, the clock does
-- not run backwards, and it is presented within the lifetime of its ceremony's cookie, to a call
-- that passes that lifetime, then whatever else is presented in between, no more than one call
-- finds it fresh.
pub fresh-Presented :
    (begun lifetime last : ℕ) (challenge : Text) (m : Table ℕ) (fs : List Finish)
    → m challenge ≡ none
    → begun ≤ last
    → Presented challenge begun lifetime last fs
    → fresh challenge m fs ≤ 1
unfolding Counted
fresh-Presented begun lifetime last challenge m fs e b p =
    omega (arith, fresh-Counted begun lifetime last 0 challenge m fs b p (ground (arith, e)))
