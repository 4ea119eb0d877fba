-- ===== src/Login/Budget/Interleaved.antt =====
-- The budget of a half-login over requests whose steps interleave.
use easywall.Prelude.{ℕ, ◌+◌, ◌*◌, ◌≤◌, ◌≡◌, inl, inr, ◌&&◌, none, List, [], ◌∷◌, arith, Bool-cases}
use easywall.Text.{Text, same}
use easywall.Text.Laws.{same_iff}
use easywall.Text.Table.{Table}
use easywall.Login.Pending.{
  PendingCounter, second, pending_lifetime, pending_max_attempts, reserve_pending_attempt,
}
use easywall.Login.Budget.{Counted, bit, reserve-Counted, reserve-Counted_other, Counted-later}

-- The reservations that requests make, at what instant and for what id: of those for one id, how
-- many are granted.
unfoldable pub reservations : Text → Table PendingCounter → List (ℕ × Text) → ℕ
unfolding bit
reservations id m [] = 0
reservations id m ((now, x) ∷ rs) =
    let (m', n, ok) = reserve_pending_attempt now x m in
    bit (same x id && ok) + reservations id m' rs

-- The clock does not run backwards, and what is reserved for the id is reserved in time.
abbrev pub InTime : Text → ℕ → ℕ → List (ℕ × Text) → Type 0
InTime id begun last [] = Unit {0}
InTime id begun last ((now, x) ∷ rs) =
    (last ≤ now) × (x ≡ id → now ≤ begun + pending_lifetime * second) × InTime id begun now rs

reserve-Counted_both :
    (begun now k : ℕ) (id x : Text) (m : Table PendingCounter)
    → begun ≤ now
    → (x ≡ id → now ≤ begun + pending_lifetime * second)
    → Counted begun id now k m
    → Counted begun id now
        (k + bit (same x id && (reserve_pending_attempt now x m).2))
        (reserve_pending_attempt now x m).0
unfolding bit
reserve-Counted_both begun now k id x m h in_time c = elim (Bool-cases (same x id)) [
  | inl b ↦
      let at_id = (same_iff x id).0 b in
      rw b (reserve-Counted begun now k id x m h (in_time at_id) at_id c)
  | inr b ↦ ground (arith, reserve-Counted_other begun now k id x m, same_iff x id)
]

reservations-Counted :
    (begun last k : ℕ) (id : Text) (m : Table PendingCounter) (rs : List (ℕ × Text))
    → begun ≤ last
    → InTime id begun last rs
    → Counted begun id last k m
    → k + reservations id m rs ≤ pending_max_attempts
unfolding reservations Counted
reservations-Counted begun last k id m [] h s c = ground arith
reservations-Counted begun last k id m ((now, x) ∷ rs) h s c =
    let (m', n, ok) = reserve_pending_attempt now x m in
    let later = Counted-later begun last now k id m s.0 c in
    let after = reserve-Counted_both begun now k id x m (omega (arith, h, s.0)) s.1 later in
    omega (
      arith,
      reservations-Counted begun now (k + bit (same x id && ok)) id m' rs (omega (arith, h, s.0))
          s.2 after,
    )

-- However the requests that carry one pending cookie interleave, and whatever each of them read
-- of the count before: if the server has no entry for the id at first, the clock does not run
-- backwards, and every reservation for the id happens within the lifetime of its state, no more
-- than pendingMaxAttempts reservations for it are granted.
pub reservations-InTime :
    (begun last : ℕ) (id : Text) (m : Table PendingCounter) (rs : List (ℕ × Text))
    → m id ≡ none
    → begun ≤ last
    → InTime id begun last rs
    → reservations id m rs ≤ pending_max_attempts
unfolding Counted
reservations-InTime begun last id m rs e h s =
    omega (arith, reservations-Counted begun last 0 id m rs h s (ground (arith, e)))
