-- ===== src/Login/Totp/History.antt =====
-- The codes that are accepted over a history of submissions and restarts: no step twice.
use easywall.Prelude.{
  ℕ, ◌≤◌, ◌<◌, ◌≡◌, ◌⊎◌, inl, inr, Bool, true, false, Option, none, some, List, [], ◌∷◌, length,
  All, refl, ◌>>=◌, is_nil, leb, subst, if◌then◌else◌, Option-cases, Bool-cases, arith,
}
use easywall.Text.{Text, ℤ}
use easywall.Login.Totp.{
  Crypto, totp_window_login, step_at, decode_totp_secret, Replay, stored, new_totp_replay,
  accept_step, accept_match, accept_totp,
}
use easywall.Login.Totp.Steps.{Fits, Found, match_totp-Found}

pub data Move : Type 0 where
  submits : ℕ → Bool → Text → Move  -- the clock, whether the file can be written, and the code
  restarts : Move

-- An accepted code: the step, the clock and the code.
abbrev pub Accepted : Type 0
Accepted = ℕ × ℕ × Text

abbrev logged : ℕ → Text → Replay × Bool → List Accepted → List Accepted
logged now code (r, ok) log = if ok then (r.step, now, code) ∷ log else log

-- A history of moves, and the codes accepted in it. A code is checked against the secret in the
-- configuration, which does not change.
unfoldable pub run : Crypto → Text → List Move → Replay → Option (Replay × List Accepted)
run c secret [] r = some (r, [])
run c secret (submits now written code ∷ ms) r = accept_totp c secret now written code r >>= λ one.
    run c secret ms one.0 >>= λ rest. some (rest.0, logged now code one rest.1)
run c secret (restarts ∷ ms) r = run c secret ms (new_totp_replay r.file)

-- What holds of the codes accepted after a step: each is that of a later step, which is no
-- further from its clock's than the window.
abbrev pub Increasing : Crypto → Text → ℕ → List Accepted → Type 0
Increasing c secret last [] = Unit {0}
Increasing c secret last ((step, now, code) ∷ log) =
    (last < step)
    × ((raw : List ℕ) × (decode_totp_secret c secret ≡ some raw)
        × Fits c raw (step_at now) totp_window_login code step)
    × Increasing c secret step log

abbrev pub IsWritten : Move → Type 0
IsWritten (submits now written code) = written ≡ true
IsWritten restarts = Unit

abbrev pub IsSubmission : Move → Type 0
IsSubmission (submits now written code) = Unit
IsSubmission restarts = ⊥

-- The file knows the last step, and will, or nobody will read it.
abbrev pub Durable : List Move → Replay → Type 0
Durable ms r = ((stored r.file ≡ r.step) × All IsWritten ms) ⊎ All IsSubmission ms

-- What one submission does: nothing, or it accepts a later step that fits, and writes it.
abbrev Answers : Crypto → Text → ℕ → Bool → Text → Replay → Replay × Bool → Type 0
Answers c secret now written code r (r', false) = r' ≡ r
Answers c secret now written code r (r', true) =
    (r.step < r'.step)
    × ((raw : List ℕ) × (decode_totp_secret c secret ≡ some raw)
        × Fits c raw (step_at now) totp_window_login code r'.step)
    × (written ≡ true → stored r'.file ≡ r'.step)

accept_match-Answers :
    (c : Crypto) (secret : Text) (raw : List ℕ) (now : ℕ) (written : Bool) (code : Text)
    (r : Replay) (found : Option (ℕ × ℤ))
    → decode_totp_secret c secret ≡ some raw
    → Found c raw (step_at now) totp_window_login code found
    → Answers c secret now written code r (accept_match written r found)
unfolding accept_step
accept_match-Answers c secret raw now written code r none e f = refl
accept_match-Answers c secret raw now written code r (some (step, d)) e f =
    elim (Bool-cases (leb step r.step)) [
      | inl b ↦ rw b refl
      | inr b ↦ rw b (ground (arith, b), (raw, e, f.0), λ w. rw w refl)
    ]

accept_totp-Answers :
    (c : Crypto) (secret : Text) (now : ℕ) (written : Bool) (code : Text) (r : Replay)
    → ((key : List ℕ) (n : ℕ) → 20 ≤ length (c.hmac key n))
    → (one : Replay × Bool) × (accept_totp c secret now written code r ≡ some one)
      × Answers c secret now written code r one
unfolding accept_totp
accept_totp-Answers c secret now written code r h = elim (Bool-cases (is_nil secret)) [
  | inl b ↦ ((r, false), rw b refl, refl)
  | inr b ↦ elim (Option-cases (decode_totp_secret c secret)) [
    | inl e ↦ ((r, false), rw (b, e) refl, refl)
    | inr (raw, e) ↦
        let (found, e', f) = match_totp-Found c raw now totp_window_login code h in
        (
          accept_match written r found,
          rw (b, e, e') refl,
          accept_match-Answers c secret raw now written code r found e f,
        )
  ]
]

Durable-later :
    (c : Crypto) (secret : Text) (now : ℕ) (written : Bool) (code : Text) (ms : List Move)
    (r : Replay) (one : Replay × Bool)
    → Answers c secret now written code r one
    → Durable (submits now written code ∷ ms) r
    → Durable ms one.0
Durable-later c secret now written code ms r (r', false) a d = rw a (ground (arith, d))
Durable-later c secret now written code ms r (r', true) a (inl d) = inl (a.2 d.1.0, d.1.1)
Durable-later c secret now written code ms r (r', true) a (inr d) = inr d.1

logged-Increasing :
    (c : Crypto) (secret : Text) (now : ℕ) (written : Bool) (code : Text) (r : Replay)
    (one : Replay × Bool) (log : List Accepted)
    → Answers c secret now written code r one
    → Increasing c secret one.0.step log
    → Increasing c secret r.step (logged now code one log)
logged-Increasing c secret now written code r (r', false) log a i =
    subst (λ q. Increasing c secret q.step log) a i
logged-Increasing c secret now written code r (r', true) log a i = (a.0, a.1, i)

-- No code is accepted for a step twice. If the sums of the HMAC are of 20 bytes or more, and
-- either every write of the replay file succeeds and the file knows the last step at first, or the
-- process is not restarted, then any history of submissions and restarts runs to its end, and
-- every code that it accepts is the code of a step that is later than all that were accepted
-- before, and no more than one step from the clock's.
pub run-Increasing :
    (c : Crypto) (secret : Text) (ms : List Move) (r : Replay)
    → ((key : List ℕ) (n : ℕ) → 20 ≤ length (c.hmac key n))
    → Durable ms r
    → (r' : Replay) × (log : List Accepted) × (run c secret ms r ≡ some (r', log))
      × Increasing c secret r.step log
unfolding run new_totp_replay
run-Increasing c secret [] r h d = (r, [], refl, tt)
run-Increasing c secret (submits now written code ∷ ms) r h d =
    let (one, e, a) = accept_totp-Answers c secret now written code r h in
    let (r', log, e', i) =
      run-Increasing c secret ms one.0 h (Durable-later c secret now written code ms r one a d) in
    (
      r',
      logged now code one log,
      rw (e, e') refl,
      logged-Increasing c secret now written code r one log a i,
    )
run-Increasing c secret (restarts ∷ ms) r h (inl d) =
    let (r', log, e, i) =
      run-Increasing c secret ms (new_totp_replay r.file) h (inl (refl, d.1.1)) in
    (r', log, e, subst (λ last. Increasing c secret last log) d.0 i)
run-Increasing c secret (restarts ∷ ms) r h (inr d) = absurd d.0
