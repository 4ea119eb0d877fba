-- ===== src/Login/Pending.antt =====
-- internal/web/pendingattempts.go, pending2fa.go and handler_login.go: the state between a
-- correct password and an accepted second factor, and the server's count of its attempts.
use easywall.Prelude.{
  ℕ, ◌+◌, ◌*◌, Bool, true, false, ◌||◌, Option, none, some, ltb, leb, ◌==◌, if◌then◌else◌, is_nil,
  ◌>>=◌,
}
use easywall.Text.{Text, same}
use easywall.Text.Table.{Table, put, sweep}

abbrev pub second : ℕ
second = 1000000000

abbrev pub pending_lifetime : ℕ
pending_lifetime = 180

abbrev pub pending_max_attempts : ℕ
pending_max_attempts = 3

pub record PendingLogin : Type 0 where
  pub user : Text
  pub cred_fp : Text
  pub id : Text
  pub attempts : ℕ
  pub issued_at : ℕ  -- in seconds

pub record PendingCounter : Type 0 where
  pub n : ℕ
  pub begun : ℕ

-- Whether more than the lifetime has passed since an instant.
abbrev pub expired : ℕ → ℕ → Bool
expired now begun = ltb (begun + pending_lifetime * second) now

abbrev count_of : ℕ → Option PendingCounter → ℕ
count_of now none = 0
count_of now (some c) = if expired now c.begun then 0 else c.n

unfoldable pub pending_attempt_count : ℕ → Text → Table PendingCounter → ℕ
pending_attempt_count now id m = if is_nil id then 0 else count_of now (m id)

abbrev counter_of : ℕ → Option PendingCounter → PendingCounter
counter_of now none = record { n = 0; begun = now }
counter_of now (some c) = c

-- The half of reservePendingAttempt behind its sweep.
charge : Text → PendingCounter → Table PendingCounter → Table PendingCounter × ℕ × Bool
charge id c m =
    if leb pending_max_attempts c.n
    then (m, c.n, false)
    else (put id (record c { n = c.n + 1 }) m, c.n + 1, true)

unfoldable pub reserve_pending_attempt :
    ℕ → Text → Table PendingCounter → Table PendingCounter × ℕ × Bool
unfolding charge
reserve_pending_attempt now id m =
    if is_nil id
    then (m, 0, false)
    else let swept = sweep (λ c. expired now c.begun) m in
      charge id (counter_of now (swept id)) swept

-- readPending, from what the cookie's codec decoded.
unfoldable pub read_pending : ℕ → Table PendingCounter → Option PendingLogin → Option PendingLogin
unfolding pending_attempt_count
read_pending now m none = none
read_pending now m (some p) =
    let n = pending_attempt_count now p.id m in
    if is_nil p.user || (is_nil p.cred_fp || (is_nil p.id || p.issued_at == 0))
    then none
    else if expired now (p.issued_at * second)
    then none
    else if leb pending_max_attempts n
    then none
    else some (record p { attempts = n })

-- pendingForRequest; `current` is the fingerprint of the credentials in force.
unfoldable pub pending_for_request :
    ℕ → Text → Table PendingCounter → Option PendingLogin → Option PendingLogin
unfolding read_pending
pending_for_request now current m cookie =
    read_pending now m cookie >>= λ p. if same p.cred_fp current then some p else none

abbrev reserved :
    PendingLogin → Table PendingCounter × ℕ × Bool → Table PendingCounter × Option PendingLogin
reserved p (m, n, ok) = (m, if ok then some (record p { attempts = n }) else none)

unfoldable pub spend_pending_attempt :
    ℕ
    → Text
    → Table PendingCounter
    → Option PendingLogin
    → Table PendingCounter × Option PendingLogin
unfolding pending_for_request reserve_pending_attempt
spend_pending_attempt now current m cookie = elim (pending_for_request now current m cookie) [
  | none ↦ (m, none)
  | some p ↦ reserved p (reserve_pending_attempt now p.id m)
]
