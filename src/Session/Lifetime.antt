-- ===== src/Session/Lifetime.antt =====
-- src/session/mod.rs: the lifetime that `set` asks the store for.
use ruts.Prelude.{◌≡◌, ◌⊎◌, false, arith, ℤ, ltb_ℤ, persistent}
use ruts.Session.State.{required_session_ttl}

-- The session is to live for ever exactly when its default lifetime or the field's is without end,
-- and else for the longer of the two: not less than either, and one of them.
pub required_session_ttl_lem :
    (default field : ℤ)
    → ((required_session_ttl default field ≡ persistent)
        × ((default ≡ persistent) ⊎ (field ≡ persistent)))
      ⊎ ((ltb_ℤ (required_session_ttl default field) default ≡ false)
          × (ltb_ℤ (required_session_ttl default field) field ≡ false)
          × ((required_session_ttl default field ≡ default)
              ⊎ (required_session_ttl default field ≡ field)))
unfolding required_session_ttl
required_session_ttl_lem default field = ground arith
