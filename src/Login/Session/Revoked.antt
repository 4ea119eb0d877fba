-- ===== src/Login/Session/Revoked.antt =====
-- After a logout nobody is signed in by a cookie of that session, for as long as cookies live.
use easywall.Prelude.{
  ℕ, ◌+◌, ◌*◌, ◌/◌, ◌≤◌, ◌<◌, ◌≡◌, ◌⊎◌, inl, inr, Bool, false, Option, none, some, List, [], ◌∷◌,
  All, if-elim, is_nil, arith, Bool-cases,
}
use easywall.Text.{Text, same}
use easywall.Text.Laws.{same_iff, same_refl}
use easywall.Text.Table.{Table, put, sweep}
use easywall.Login.Pending.{second}
use easywall.Login.Session.{
  Session, Cookie, session_lifetime, revocation_retention, revoke_session, session_revoked,
  session_for_write, save_session, session_user, handle_logout,
}

-- What happens in the server: a session that some request decoded is saved, or logged out.
pub data Move : Type 0 where
  saves : Session → Move
  logs_out : Option Text → Session → Move

-- The revocations, and every cookie that was ever signed.
unfoldable pub run : List (ℕ × Move) → Table ℕ × List Cookie → Table ℕ × List Cookie
run [] w = w
run ((now, saves sess) ∷ ms) (m, cs) = run ms (m, save_session now m sess ∷ cs)
run ((now, logs_out current sess) ∷ ms) (m, cs) = run ms ((handle_logout now current sess m).0, cs)

-- A cookie of the session is no younger than its logout.
abbrev pub OldFor : Text → ℕ → Cookie → Type 0
OldFor sid logout c = c.values.sid ≡ sid → c.stamp * second ≤ logout

-- The record of a logout, which a later one may have renewed.
abbrev Since : ℕ → Option ℕ → Type 0
Since logout none = ⊥
Since logout (some at) = logout ≤ at

Remembers : Text → ℕ → ℕ → Table ℕ → Type 0
Remembers sid logout last m = (logout + revocation_retention < last) ⊎ Since logout (m sid)

Remembers-later :
    (sid : Text) (logout last now : ℕ) (m : Table ℕ)
    → last ≤ now
    → Remembers sid logout last m
    → Remembers sid logout now m
unfolding Remembers
Remembers-later sid logout last now m h r = ground arith

revoke-Remembers :
    (sid id : Text) (logout last now : ℕ) (m : Table ℕ)
    → last ≤ now
    → logout ≤ now
    → Remembers sid logout last m
    → Remembers sid logout now (revoke_session now id m)
unfolding Remembers revoke_session put sweep
revoke-Remembers sid id logout last now m h g r = ground (arith, same_iff sid id)

save_session-OldFor :
    (sid : Text) (logout now : ℕ) (m : Table ℕ) (sess : Session)
    → is_nil sid ≡ false
    → (sess.sid ≡ sid → now ≤ logout + revocation_retention)
    → Remembers sid logout now m
    → OldFor sid logout (save_session now m sess)
unfolding Remembers save_session session_for_write session_revoked
save_session-OldFor sid logout now m sess n h r = elim (Bool-cases (same sess.sid sid)) [
  | inl e ↦ ground (arith, e, n, same_iff sess.sid sid, h ((same_iff sess.sid sid).0 e))
  | inr e ↦ ground (arith, e, n, same_iff sess.sid sid)
]

logout-Remembers :
    (sid : Text) (logout last now : ℕ) (current : Option Text) (sess : Session) (m : Table ℕ)
    → last ≤ now
    → logout ≤ now
    → Remembers sid logout last m
    → Remembers sid logout now (handle_logout now current sess m).0
unfolding handle_logout
logout-Remembers sid logout last now current sess m h g r =
    if-elim {A = Table ℕ × Bool} (λ q. Remembers sid logout now q.0) (is_nil sess.sid) _ _
      (λ b. Remembers-later sid logout last now m h r)
      (λ b. revoke-Remembers sid sess.sid logout last now m h g r)

first-Remembers :
    (sess : Session) (logout : ℕ) (before : Option Text) (m : Table ℕ)
    → is_nil sess.sid ≡ false
    → Remembers sess.sid logout logout (handle_logout logout before sess m).0
unfolding handle_logout Remembers revoke_session put sweep
first-Remembers sess logout before m n = inr (rw (n, same_refl sess.sid) (omega arith))

-- An old cookie of the session is nobody's, at any instant that its codec lets it pass.
session_user-OldFor :
    (sid : Text) (logout now : ℕ) (m : Table ℕ) (current : Option Text) (c : Cookie)
    → is_nil sid ≡ false
    → now / second ≤ c.stamp + session_lifetime
    → c.values.sid ≡ sid
    → OldFor sid logout c
    → Remembers sid logout now m
    → session_user now m current c.values ≡ []
unfolding session_user session_revoked Remembers
session_user-OldFor sid logout now m current c n v e o r =
    let old = o e in ground (arith, n, v, e, old)

-- The clock does not run backwards, and no request saves a session with the identifier once the
-- revocation may have been forgotten.
abbrev pub Ordered : Text → ℕ → ℕ → List (ℕ × Move) → Type 0
Ordered sid logout last [] = Unit {0}
Ordered sid logout last ((now, saves sess) ∷ ms) =
    (last ≤ now)
    × (sess.sid ≡ sid → now ≤ logout + revocation_retention)
    × Ordered sid logout now ms
Ordered sid logout last ((now, logs_out current sess) ∷ ms) =
    (last ≤ now) × Ordered sid logout now ms

-- The instant of the last move.
abbrev pub last_at : ℕ → List (ℕ × Move) → ℕ
last_at last [] = last
last_at last ((now, move) ∷ ms) = last_at now ms

run-Remembers :
    (sid : Text) (logout last : ℕ) (m : Table ℕ) (cs : List Cookie) (ms : List (ℕ × Move))
    → is_nil sid ≡ false
    → logout ≤ last
    → Ordered sid logout last ms
    → Remembers sid logout last m
    → All (OldFor sid logout) cs
    → Remembers sid logout (last_at last ms) (run ms (m, cs)).0
      × All (OldFor sid logout) (run ms (m, cs)).1
unfolding run
run-Remembers sid logout last m cs [] n g o r a = (r, a)
run-Remembers sid logout last m cs ((now, saves sess) ∷ ms) n g o r a =
    let r' = Remembers-later sid logout last now m o.0 r in
    run-Remembers sid logout now m (save_session now m sess ∷ cs) ms n (omega (arith, g, o.0)) o.2
      r' (save_session-OldFor sid logout now m sess n o.1 r', a)
run-Remembers sid logout last m cs ((now, logs_out current sess) ∷ ms) n g o r a =
    run-Remembers sid logout now (handle_logout now current sess m).0 cs ms n
      (omega (arith, g, o.0)) o.1
      (logout-Remembers sid logout last now current sess m o.0 (omega (arith, g, o.0)) r) a

-- Nobody is signed in by a cookie of the session that its codec lets pass.
abbrev pub IsNobody : Text → ℕ → Table ℕ → Option Text → Cookie → Type 0
IsNobody sid now m current c =
    c.values.sid ≡ sid
    → now / second ≤ c.stamp + session_lifetime
    → session_user now m current c.values ≡ []

refuse :
    (sid : Text) (logout now : ℕ) (m : Table ℕ) (current : Option Text) (cs : List Cookie)
    → is_nil sid ≡ false
    → Remembers sid logout now m
    → All (OldFor sid logout) cs
    → All (IsNobody sid now m current) cs
refuse sid logout now m current [] n r a = tt
refuse sid logout now m current (c ∷ cs) n r a = (
  λ e v. session_user-OldFor sid logout now m current c n v e a.0 r,
  refuse sid logout now m current cs n r a.1,
)

-- A logout ends the session for good. If a session with an identifier logs out, every cookie of
-- the session was signed no later, the clock does not run backwards, and no request still saves
-- the session once the revocation may have been forgotten, then after any saves and logouts, also
-- of that session, every cookie of it that was ever signed is nobody's at every later instant at
-- which the cookie is no older than the session lifetime, in whole seconds.
pub run-IsNobody :
    (sess : Session) (logout now : ℕ) (before current : Option Text) (m : Table ℕ)
    (cs : List Cookie) (ms : List (ℕ × Move))
    → is_nil sess.sid ≡ false
    → All (OldFor sess.sid logout) cs
    → Ordered sess.sid logout logout ms
    → last_at logout ms ≤ now
    → All
        (IsNobody sess.sid now (run ms ((handle_logout logout before sess m).0, cs)).0 current)
        (run ms ((handle_logout logout before sess m).0, cs)).1
run-IsNobody sess logout now before current m cs ms n a o h =
    let revoked = handle_logout logout before sess m in
    let start = first-Remembers sess logout before m n in
    let (r, old) = run-Remembers sess.sid logout logout revoked.0 cs ms n (omega arith) o start a in
    refuse sess.sid logout now (run ms (revoked.0, cs)).0 current (run ms (revoked.0, cs)).1 n
      (Remembers-later sess.sid logout (last_at logout ms) now (run ms (revoked.0, cs)).0 h r) old
