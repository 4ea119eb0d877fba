-- ===== src/Login.antt =====
-- internal/web: what stands between a password and a session. Instants are nanoseconds; a
-- cookie's own stamp is in seconds. What a cookie carries is what its codec, which is not
-- modelled, decoded: `none` where it refused or found nothing.
pub mod Pending
pub mod Budget
pub mod Totp
pub mod Session
pub mod Challenge
