-- ===== src/Extract.antt =====
-- src/extract/mod.rs: the extractor that gives a handler the session of its request, with the id
-- that the request's cookie carries.
pub mod Requests
pub mod Cycle
pub mod Typed
use ruts.Prelude.{ℕ, String, Option, none, some, Bool}
use ruts.Outcome.{Result, ok, err, panic}
use ruts.SessionId.{SessionId, Base64, DecodeError, from_str}
use ruts.Cookies.{CookieCrate, JarCrate}
use ruts.Session.State.{Inner, set_id, set_cookies_if_empty}
use ruts.Service.{Extensions}

-- a status code and a message
pub record Rejection : Type 0 where
  pub status : ℕ
  pub message : String

abbrev pub internal_server_error : String → Rejection
internal_server_error message = record { status = 500; message = message }

-- `.ok()`
abbrev pub ok? {ℓ} : {E A : Type ℓ} → Result E A → Option A
ok? (ok a) = some a
ok? (err e) = none
ok? panic = none

module _ (b64 : Base64) (crate : CookieCrate) (jars : JarCrate crate) where
  -- the session's cookie, through the signed view where the session has a key
  unfoldable pub find_cookie : Option jars.Key → jars.Jar → String → Option crate.Cookie
  find_cookie (some key) jar cookie_name = jars.signed_get key jar cookie_name
  find_cookie none jar cookie_name = jars.get jar cookie_name

  -- the end of `from_request_parts`: a malformed id leaves the session without one
  unfoldable pub identify : Option crate.Cookie → Inner jars.Jar jars.Key → Inner jars.Jar jars.Key
  unfolding set_id from_str
  identify none s = s
  identify (some cookie) s = set_id (ok? (from_str b64 (crate.value cookie))) s

  unfoldable pub from_request_parts :
      Extensions jars.Jar jars.Key → Result Rejection (Inner jars.Jar jars.Key)
  unfolding find_cookie identify set_cookies_if_empty
  from_request_parts parts = elim parts.session [
    | none ↦ err (internal_server_error "Session not found in the request")
    | some session_inner ↦ elim session_inner.cookie_name [
      | none ↦ err (internal_server_error "Missing cookie options")
      | some cookie_name ↦ elim parts.cookies [
        | none ↦ err (internal_server_error "Cookies not found in the request")
        | some cookies_ext ↦
            let session = (set_cookies_if_empty cookies_ext session_inner).0 in
            ok (identify (find_cookie session.signing_key cookies_ext cookie_name) session)
      ]
    ]
  ]
