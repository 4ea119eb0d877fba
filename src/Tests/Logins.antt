-- ===== src/Tests/Logins.antt =====
-- Logins, sessions and challenges of internal/web.
use easywall.Prelude.{
  ℕ, ◌*◌, ◌≤◌, ◌≡◌, refl, inl, true, Option, none, some, List, [], ◌∷◌, All, length, arith,
}
use easywall.Text.{Text, codes, same, ℤ, pos}
use easywall.Text.Table.{empty_table, put, sweep}
use easywall.Login.Pending.{
  PendingLogin, second, pending_max_attempts, reserve_pending_attempt, spend_pending_attempt,
}
use easywall.Login.Budget.{Request, granted, Presented, granted-Presented}
use easywall.Login.Budget.Interleaved.{reservations, reservations-InTime}
use easywall.Login.Totp.{
  Crypto, Replay, totp_at, totp_digits, is_totp_shape, step_at, match_totp, scan_one, accept_totp,
  new_totp_replay,
}
use easywall.Login.Totp.Digits.{IsTruncation, number, IsDigit, totp_at_total}
use easywall.Login.Totp.Steps.{Found, match_totp-Found}
use easywall.Login.Totp.History.{Move, submits, restarts, run, Accepted, Increasing, run-Increasing}
use easywall.Login.Session.{Session, Cookie, handle_logout}
use easywall.Login.Session.Revoked
use easywall.Login.Session.Revoked.{saves, logs_out, IsNobody, run-IsNobody}
use easywall.Login.Challenge.{spend_challenge, fresh, fresh-Presented}

-- A cookie that was issued 1000 s past the epoch.
abbrev cookie : PendingLogin
cookie = record {
  user = codes "admin";
  cred_fp = codes "fp";
  id = codes "id";
  attempts = 0;
  issued_at = 1000;
}

abbrev at_second : ℕ → Request
at_second t = record { at = t * second; current = codes "fp"; cookie = some cookie }

-- Four requests within the lifetime, and one behind it.
abbrev requests : List Request
requests =
    at_second 1001 ∷ (at_second 1002 ∷ (at_second 1003 ∷ (at_second 1004 ∷ (at_second 1300 ∷ []))))

requests-Presented : Presented (codes "id") 1000 (1000 * second) requests
requests-Presented = (
  omega arith,
  (λ e. refl),
  (
    omega arith,
    (λ e. refl),
    (omega arith, (λ e. refl), (omega arith, (λ e. refl), (omega arith, (λ e. refl), tt))),
  ),
)

granted-Presented_example : granted (codes "id") empty_table requests ≤ pending_max_attempts
granted-Presented_example =
    granted-Presented 1000 (1000 * second) (codes "id") empty_table requests refl (omega arith)
      requests-Presented

-- The first three are granted.
granted_three : granted (codes "id") empty_table requests ≡ 3
unfolding granted spend_pending_attempt same sweep put
granted_three = refl

reservations-InTime_example :
    reservations (codes "id") empty_table ((10, codes "id") ∷ ((10, codes "x") ∷ []))
    ≤ pending_max_attempts
reservations-InTime_example =
    reservations-InTime 5 10 (codes "id") empty_table ((10, codes "id") ∷ ((10, codes "x") ∷ []))
      refl (omega arith) (omega arith, (λ e. omega arith), (omega arith, (λ e. omega arith), tt))

-- A spend that reads the count within the lifetime and reserves behind it, when the entry has been
-- swept: a fourth reservation is granted.
late_reservation :
    reservations (codes "id") empty_table (
      (1000 * second, codes "id")
      ∷ ((1001 * second, codes "id")
          ∷ ((1002 * second, codes "id") ∷ ((1181 * second, codes "id") ∷ []))))
    ≡ 4
unfolding reservations same reserve_pending_attempt sweep put
late_reservation = refl

-- An HMAC of twenty bytes, which depend on the counter.
abbrev sum_of : List ℕ → ℕ → List ℕ
sum_of key n =
    0
    ∷ (0
        ∷ (0
            ∷ (n
                ∷ (0
                    ∷ (0
                        ∷ (0
                            ∷ (0
                                ∷ (0
                                    ∷ (0
                                        ∷ (0
                                            ∷ (0
                                                ∷ (0
                                                    ∷ (0
                                                        ∷ (0
                                                            ∷ (0
                                                            ∷ (0
                                                            ∷ (0 ∷ (0 ∷ (0 ∷ [])))))))))))))))))))

abbrev crypto : Crypto
crypto = record { to_upper = λ s. s; base32 = λ s. some s; hmac = sum_of }

sum_of_long : (key : List ℕ) (n : ℕ) → 20 ≤ length (crypto.hmac key n)
sum_of_long key n = omega arith

totp_at_total_example :
    (code : Text) × (totp_at crypto (1 ∷ []) 34 ≡ some code)
    × (length code ≡ totp_digits)
    × All IsDigit code
    × (is_totp_shape code ≡ true)
    × IsTruncation (crypto.hmac (1 ∷ []) 34) (number code 0)
totp_at_total_example = totp_at_total crypto (1 ∷ []) 34 sum_of_long

match_totp-Found_example :
    (found : Option (ℕ × ℤ)) × (match_totp crypto (1 ∷ []) 1020 (codes "000034") 1 ≡ some found)
    × Found crypto (1 ∷ []) (step_at 1020) 1 (codes "000034") found
match_totp-Found_example = match_totp-Found crypto (1 ∷ []) 1020 1 (codes "000034") sum_of_long

matched : match_totp crypto (1 ∷ []) 1020 (codes "000034") 1 ≡ some (some (34, pos 0))
unfolding match_totp scan_one step_at same
matched = refl

abbrev replay : Replay
replay = record { step = 0; file = none }

-- The same code twice, a restart between them.
abbrev moves : List Move
moves = submits 1020 true (codes "000034") ∷ (restarts ∷ (submits 1021 true (codes "000034") ∷ []))

run-Increasing_example :
    (r' : Replay) × (log : List Accepted) × (run crypto (codes "A") moves replay ≡ some (r', log))
    × Increasing crypto (codes "A") 0 log
run-Increasing_example =
    run-Increasing crypto (codes "A") moves replay sum_of_long
      (inl (refl, (refl, (tt, (refl, tt)))))

-- The second one is refused.
accepted_once :
    run crypto (codes "A") moves replay
    ≡ some (record { step = 34; file = some 34 }, (34, 1020, codes "000034") ∷ [])
unfolding run accept_totp scan_one step_at same new_totp_replay
accepted_once = refl

abbrev session : Session
session = record { user = codes "admin"; sid = codes "sid"; credential = codes "fp" }

abbrev signed : Cookie
signed = record { stamp = 1000; values = session }

-- A request in flight saves the session after its logout, and the old cookie is replayed.
abbrev after_logout : List (ℕ × Revoked.Move)
after_logout = (1002 * second, saves session) ∷ ((1300 * second, logs_out none session) ∷ [])

run-IsNobody_example :
    All
      (IsNobody
        (codes "sid")
        (1500 * second)
        (Revoked.run after_logout
          ((handle_logout (1001 * second) none session empty_table).0, signed ∷ [])).0
        none)
      (Revoked.run after_logout
        ((handle_logout (1001 * second) none session empty_table).0, signed ∷ [])).1
run-IsNobody_example =
    run-IsNobody session (1001 * second) (1500 * second) none none empty_table (signed ∷ [])
      after_logout refl ((λ e. omega arith), tt)
      (omega arith, (λ e. omega arith), (omega arith, tt)) (omega arith)

fresh-Presented_example :
    fresh (codes "c") empty_table ((10, 300, codes "c") ∷ ((20, 300, codes "c") ∷ [])) ≤ 1
fresh-Presented_example =
    fresh-Presented 5 300 5 (codes "c") empty_table
      ((10, 300, codes "c") ∷ ((20, 300, codes "c") ∷ [])) refl (omega arith)
      (omega arith, (λ e. (refl, omega arith)), (omega arith, (λ e. (refl, omega arith)), tt))

fresh_once : fresh (codes "c") empty_table ((10, 300, codes "c") ∷ ((20, 300, codes "c") ∷ [])) ≡ 1
unfolding fresh same spend_challenge sweep put
fresh_once = refl
