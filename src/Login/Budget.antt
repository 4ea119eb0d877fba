-- ===== src/Login/Budget.antt =====
-- The budget of a half-login: how many attempts at the second factor one pending cookie buys,
-- however often it is presented.
pub mod Interleaved
use easywall.Prelude.{
  ℕ, ◌+◌, ◌*◌, ◌≤◌, ◌<◌, ◌≡◌, ◌≢◌, ◌⊎◌, inl, inr, Bool, true, false, ◌&&◌, Option, none, some, List,
  [], ◌∷◌, refl, arith, Bool-cases, Option-cases, subst, sym, ◌∙◌,
}
use easywall.Text.{Text, same}
use easywall.Text.Laws.{same_iff, same_refl}
use easywall.Text.Table.{Table, put, sweep}
use easywall.Login.Pending.{
  PendingLogin, PendingCounter, second, pending_lifetime, pending_max_attempts,
  reserve_pending_attempt, read_pending, pending_for_request, spend_pending_attempt,
}

-- A request that carries a pending cookie to one of the two doors that check a factor.
pub record Request : Type 0 where
  pub at : ℕ
  pub current : Text  -- the fingerprint of the credentials in force
  pub cookie : Option PendingLogin

-- What the server's table says of an id after k charges to a state that began at t0.
abbrev Charged : ℕ → ℕ → Option PendingCounter → Type 0
Charged t0 k none = k ≡ 0
Charged t0 k (some c) = (c.n ≡ k) × (t0 ≤ c.begun)

-- At the instant of the last request: the state is over, or the table counts its charges.
pub Counted : ℕ → Text → ℕ → ℕ → Table PendingCounter → Type 0
Counted t0 id last k m =
    (k ≤ pending_max_attempts) × ((t0 + pending_lifetime * second < last) ⊎ Charged t0 k (m id))

pub bit : Bool → ℕ
bit true = 1
bit false = 0

pub reserve-Counted :
    (t0 now k : ℕ) (id x : Text) (m : Table PendingCounter)
    → t0 ≤ now
    → now ≤ t0 + pending_lifetime * second
    → x ≡ id
    → Counted t0 id now k m
    → Counted t0 id now
        (k + bit (reserve_pending_attempt now x m).2)
        (reserve_pending_attempt now x m).0
unfolding Counted bit reserve_pending_attempt sweep put
reserve-Counted t0 now k id x m h0 h1 e c = ground (arith, same_refl id)

pub reserve-Counted_other :
    (t0 now k : ℕ) (id x : Text) (m : Table PendingCounter)
    → id ≢ x
    → Counted t0 id now k m
    → Counted t0 id now k (reserve_pending_attempt now x m).0
unfolding Counted reserve_pending_attempt sweep put
reserve-Counted_other t0 now k id x m h c = ground (arith, same_iff id x)

pub Counted-later :
    (t0 last now k : ℕ) (id : Text) (m : Table PendingCounter)
    → last ≤ now
    → Counted t0 id last k m
    → Counted t0 id now k m
unfolding Counted
Counted-later t0 last now k id m h c = ground arith

read_pending-id :
    (now : ℕ) (m : Table PendingCounter) (p q : PendingLogin)
    → read_pending now m (some q) ≡ some p
    → (p.id ≡ q.id) × (now ≤ q.issued_at * second + pending_lifetime * second)
unfolding read_pending
read_pending-id now m p q e = ground arith

pending_for_request-id :
    (now : ℕ) (current : Text) (m : Table PendingCounter) (p q : PendingLogin)
    → pending_for_request now current m (some q) ≡ some p
    → (p.id ≡ q.id) × (now ≤ q.issued_at * second + pending_lifetime * second)
unfolding pending_for_request
pending_for_request-id now current m p q e = ground (arith, read_pending-id now m p q)

-- Whether a spend was granted, to a state of this id.
charges : Text → Option PendingLogin → Bool
charges id none = false
charges id (some p) = same p.id id

-- The cookie of a request, if it is of this id, was issued at this second.
abbrev pub IssuedAt : Text → ℕ → Option PendingLogin → Type 0
IssuedAt id issued none = Unit {0}
IssuedAt id issued (some p) = p.id ≡ id → p.issued_at ≡ issued

module _ (now : ℕ) (id current : Text) (m : Table PendingCounter)
    (cookie : Option PendingLogin) where
  spend_some :
      (p : PendingLogin)
      → pending_for_request now current m cookie ≡ some p
      → ((spend_pending_attempt now current m cookie).0 ≡ (reserve_pending_attempt now p.id m).0)
        × (charges id (spend_pending_attempt now current m cookie).1
            ≡ (same p.id id && (reserve_pending_attempt now p.id m).2))
  unfolding spend_pending_attempt charges
  spend_some p e = ground arith

  spend_none :
      pending_for_request now current m cookie ≡ none
      → ((spend_pending_attempt now current m cookie).0 ≡ m)
        × (charges id (spend_pending_attempt now current m cookie).1 ≡ false)
  unfolding spend_pending_attempt charges
  spend_none e = ground arith

module _ (issued now k : ℕ) (id current : Text) (m : Table PendingCounter) where
  AfterSpend : Table PendingCounter → Bool → Type 0
  AfterSpend m' b = Counted (issued * second) id now (k + bit b) m'

  spend-Counted_at :
      (q p : PendingLogin)
      → issued * second ≤ now
      → IssuedAt id issued (some q)
      → Counted (issued * second) id now k m
      → pending_for_request now current m (some q) ≡ some p
      → AfterSpend
          (reserve_pending_attempt now p.id m).0
          (same p.id id && (reserve_pending_attempt now p.id m).2)
  unfolding AfterSpend bit
  spend-Counted_at q p h i c e =
      let (same_id, fresh) = pending_for_request-id now current m p q e in
      elim (Bool-cases (same p.id id)) [
        | inl b ↦
            let at_id = (same_iff p.id id).0 b in
            let in_time =
              subst (λ t. now ≤ t * second + pending_lifetime * second) (i (sym same_id ∙ at_id))
                fresh in
            rw b (reserve-Counted (issued * second) now k id p.id m h in_time at_id c)
        | inr b ↦
            ground
              (arith, reserve-Counted_other (issued * second) now k id p.id m, same_iff p.id id)
      ]

  spend-Counted :
      (cookie : Option PendingLogin)
      → issued * second ≤ now
      → IssuedAt id issued cookie
      → Counted (issued * second) id now k m
      → AfterSpend
          (spend_pending_attempt now current m cookie).0
          (charges id (spend_pending_attempt now current m cookie).1)
  unfolding AfterSpend bit pending_for_request read_pending
  spend-Counted none h i c =
      let (same_map, no_charge) = spend_none now id current m none refl in
      rw (same_map, no_charge) (ground arith)
  spend-Counted (some q) h i c = elim (Option-cases (pending_for_request now current m (some q))) [
    | inl e ↦
        let (same_map, no_charge) = spend_none now id current m (some q) e in
        rw (same_map, no_charge) (ground arith)
    | inr (p, e) ↦
        let (same_map, charge) = spend_some now id current m (some q) p e in
        rw (same_map, charge) (spend-Counted_at q p h i c e)
  ]

-- How many of the spends of these requests are granted, to states of this id.
unfoldable pub granted : Text → Table PendingCounter → List Request → ℕ
unfolding bit charges
granted id m [] = 0
granted id m (r ∷ rs) =
    let (m', p) = spend_pending_attempt r.at r.current m r.cookie in
    bit (charges id p) + granted id m' rs

-- The clock does not run backwards over the requests, and a cookie of this id was issued then.
abbrev pub Presented : Text → ℕ → ℕ → List Request → Type 0
Presented id issued last [] = Unit {0}
Presented id issued last (r ∷ rs) =
    (last ≤ r.at) × IssuedAt id issued r.cookie × Presented id issued r.at rs

granted-Counted :
    (issued last k : ℕ) (id : Text) (m : Table PendingCounter) (rs : List Request)
    → issued * second ≤ last
    → Presented id issued last rs
    → Counted (issued * second) id last k m
    → k + granted id m rs ≤ pending_max_attempts
unfolding granted Counted AfterSpend
granted-Counted issued last k id m [] h s c = ground arith
granted-Counted issued last k id m (r ∷ rs) h s c =
    let (m', p) = spend_pending_attempt r.at r.current m r.cookie in
    let now = Counted-later (issued * second) last r.at k id m s.0 c in
    let after = spend-Counted issued r.at k id r.current m r.cookie (omega arith) s.1 now in
    omega (
      arith,
      granted-Counted issued r.at (k + bit (charges id p)) id m' rs (omega (arith, h, s.0)) s.2
          after,
    )

-- One pending cookie buys at most three attempts at the second factor. For an id that the server
-- has no entry for, whatever requests arrive at the two doors from the second of its cookie's
-- issue on, with whatever cookies, as long as the clock does not run backwards and each spend
-- takes one instant: no more than pendingMaxAttempts of them are granted to that id.
pub granted-Presented :
    (issued last : ℕ) (id : Text) (m : Table PendingCounter) (rs : List Request)
    → m id ≡ none
    → issued * second ≤ last
    → Presented id issued last rs
    → granted id m rs ≤ pending_max_attempts
unfolding Counted
granted-Presented issued last id m rs e h s =
    omega (arith, granted-Counted issued last 0 id m rs h s (ground (arith, e)))
