-- ===== src/Session/State.antt =====
-- src/session/mod.rs: `Inner`, the state that the handlers of one request share. The locks and
-- atomics are taken one operation at a time. `Id::default()` draws random bytes: an operation that
-- calls it takes the fresh id as an argument. The cookie jar and the signing key are types of the
-- `tower_cookies` crate.
use ruts.Prelude.{
  ℕ, String, ℤ, Option, none, some, Bool, true, false, ◌||◌, ◌==◌, ◌==ℤ◌, max_ℤ, persistent,
  if◌then◌else◌,
}
use ruts.SessionId.{SessionId}

abbrev pub session_state_changed : ℕ
session_state_changed = 1

abbrev pub session_state_deleted : ℕ
session_state_deleted = 2

pub record Inner (Cookies Key : Type 0) : Type 0 where
  pub state : ℕ
  pub id : Option SessionId
  pub pending_id : Option SessionId
  pub cookie_max_age : ℤ
  pub cookie_name : Option String
  pub cookies : Option Cookies
  pub signing_key : Option Key

abbrev pub unwrap_or {ℓ} : {A : Type ℓ} → Option A → A → A
unwrap_or none a = a
unwrap_or (some b) a = b

-- the lifetime of the session that a `set` asks the store for
unfoldable pub required_session_ttl : ℤ → ℤ → ℤ
required_session_ttl default_session_ttl effective_field_ttl =
    if default_session_ttl ==ℤ persistent || effective_field_ttl ==ℤ persistent
    then persistent
    else max_ℤ default_session_ttl effective_field_ttl

module _ {Cookies Key : Type 0} where
  -- `Inner::new`
  unfoldable pub new : Option String → Option ℤ → Option Key → Inner Cookies Key
  new cookie_name cookie_max_age signing_key = record {
    state = 0;
    id = none;
    pending_id = none;
    cookie_max_age = unwrap_or cookie_max_age persistent;
    cookie_name = cookie_name;
    cookies = none;
    signing_key = signing_key;
  }

  unfoldable pub is_changed : Inner Cookies Key → Bool
  is_changed inner = inner.state == session_state_changed

  unfoldable pub is_deleted : Inner Cookies Key → Bool
  is_deleted inner = inner.state == session_state_deleted

  unfoldable pub get_id : Inner Cookies Key → Option SessionId
  get_id inner = inner.id

  unfoldable pub get_or_set_id : SessionId → Inner Cookies Key → SessionId × Inner Cookies Key
  get_or_set_id fresh inner = elim inner.id [
    | some id ↦ (id, inner)
    | none ↦ (fresh, record inner { id = some fresh })
  ]

  unfoldable pub set_id : Option SessionId → Inner Cookies Key → Inner Cookies Key
  set_id id inner = record inner { id = id }

  unfoldable pub set_pending_id : Option SessionId → Inner Cookies Key → Inner Cookies Key
  set_pending_id id inner = record inner { pending_id = id }

  unfoldable pub take_pending_id : Inner Cookies Key → Option SessionId × Inner Cookies Key
  take_pending_id inner = (inner.pending_id, record inner { pending_id = none })

  unfoldable pub set_changed : Inner Cookies Key → Inner Cookies Key
  set_changed inner = record inner { state = session_state_changed }

  unfoldable pub set_deleted : Inner Cookies Key → Inner Cookies Key
  set_deleted inner = record inner { state = session_state_deleted }

  -- `OnceLock::set`: the first jar stays
  unfoldable pub set_cookies_if_empty : Cookies → Inner Cookies Key → Inner Cookies Key × Bool
  set_cookies_if_empty jar inner = elim inner.cookies [
    | none ↦ (record inner { cookies = some jar }, true)
    | some _ ↦ (inner, false)
  ]

  unfoldable pub set_expiration : ℤ → Inner Cookies Key → Inner Cookies Key
  set_expiration seconds inner = record inner { cookie_max_age = seconds }
