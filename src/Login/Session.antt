-- ===== src/Login/Session.antt =====
-- internal/web/sessionrevoke.go, sessionUser of middleware.go and handleLogout: sessions that live
-- in a signed cookie, and the server's memory of those that were logged out. The mutex makes each
-- function one step.
pub mod Revoked
use easywall.Prelude.{
  ℕ, ◌+◌, ◌*◌, ◌/◌, Bool, true, false, not, ◌&&◌, Option, none, some, List, [], ◌∷◌, ltb, leb,
  if◌then◌else◌, is_nil,
}
use easywall.Text.{Text, same}
use easywall.Text.Table.{Table, put, sweep}
use easywall.Login.Pending.{second}

abbrev pub session_lifetime : ℕ
session_lifetime = 600

abbrev pub revocation_retention : ℕ
revocation_retention = (session_lifetime + 1) * second

-- The values of a session; one that is missing reads as the empty text.
pub record Session : Type 0 where
  pub user : Text
  pub sid : Text
  pub credential : Text

-- What a Save hands to the browser: the values, signed, and stamped in whole seconds.
pub record Cookie : Type 0 where
  pub stamp : ℕ
  pub values : Session

unfoldable pub revoke_session : ℕ → Text → Table ℕ → Table ℕ
revoke_session now id m =
    if is_nil id then m else put id now (sweep (λ at. ltb (at + revocation_retention) now) m)

abbrev within : ℕ → Option ℕ → Bool
within now none = false
within now (some at) = leb now (at + revocation_retention)

-- sessionRevoked, which is revokedLocked under the lock.
unfoldable pub session_revoked : ℕ → Text → Table ℕ → Bool
session_revoked now id m = if is_nil id then false else within now (m id)

-- The delete of the two values, in sessionForWrite and in Save.
unfoldable pub session_for_write : ℕ → Table ℕ → Session → Session
unfolding session_revoked
session_for_write now m sess =
    if session_revoked now sess.sid m then record sess { user = []; sid = [] } else sess

-- sessionStore.Save.
unfoldable pub save_session : ℕ → Table ℕ → Session → Cookie
unfolding session_for_write
save_session now m sess = record { stamp = now / second; values = session_for_write now m sess }

-- sessionUser: the empty text is nobody. `current` is none where no credential is asked for.
unfoldable pub session_user : ℕ → Table ℕ → Option Text → Session → Text
unfolding session_revoked
session_user now m current sess =
    if is_nil sess.user then [] else if session_revoked now sess.sid m then [] else elim current [
      | none ↦ sess.user
      | some fp ↦ if same sess.credential fp then sess.user else []
    ]

-- handleLogout: the revocations, and whether the logout is recorded.
unfoldable pub handle_logout : ℕ → Option Text → Session → Table ℕ → Table ℕ × Bool
unfolding revoke_session session_user
handle_logout now current sess m =
    if is_nil sess.sid
    then (m, false)
    else (revoke_session now sess.sid m, not (is_nil (session_user now m current sess)))
