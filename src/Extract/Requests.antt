-- ===== src/Extract/Requests.antt =====
-- src/extract/mod.rs and src/service/mod.rs together: from one response to the next request.
use ruts.Prelude.{◌≡◌, Option, none, some, true, arith}
use ruts.Outcome.{ok}
use ruts.SessionId.{SessionId, IsSessionId, Base64, from_str, from_str-to_string}
use ruts.Cookies.{CookieCrate, JarCrate}
use ruts.Session.State.{Inner, is_changed}
use ruts.Service.{ready, Extensions, SessionService, Options, poll, call}
use ruts.Service.Response.{session_cookie_lem, poll_changed}
use ruts.Extract.{ok?, find_cookie, from_request_parts}

module _ (b64 : Base64) (crate : CookieCrate) (jars : JarCrate crate) where
  -- The service of an application, and the extensions that its next request brings.
  module _ {Service Store : Type 0} (service : SessionService Service crate.SameSite jars.Key Store)
      (o : Options b64 crate jars) (configured : service.cookie_options ≡ some o)
      (jar : jars.Jar) where
    abbrev arriving : Extensions jars.Jar jars.Key
    arriving = (call service (record { session = none; cookies = some jar })).1

    -- the id that the jar carries: that of the session's cookie, if it is there and well formed
    abbrev pub carried : Option SessionId
    carried = elim (find_cookie b64 crate jars o.signing_key jar o.name) [
      | none ↦ none
      | some cookie ↦ ok? (from_str b64 (crate.value cookie))
    ]

    -- With cookie options and a jar, extraction succeeds. It gives a session with nothing pending and
    -- nothing marked, with the default lifetime, the jar of the request, and the id that it carries.
    pub from_request_parts-call :
        from_request_parts b64 crate jars arriving
        ≡ ok (record {
          state = 0;
          id = carried;
          pending_id = none;
          cookie_max_age = o.max_age;
          cookie_name = some o.name;
          cookies = some jar;
          signing_key = o.signing_key;
        })
    unfolding from_request_parts call
    from_request_parts-call = ground (arith, configured)

  -- The id, of 16 bytes, that a session with a jar and marked as changed writes to its response
  -- is the id that the next request with that jar is given, by a service with the same options.
  pub next_request :
      {Service Store Body : Type 0} (E : Type 0)
      (service : SessionService Service crate.SameSite jars.Key Store) (o : Options b64 crate jars)
      (s : Inner jars.Jar jars.Key) (jar : jars.Jar) (res : Body) (id : SessionId)
      → service.cookie_options ≡ some o
      → is_changed s ≡ true
      → s.id ≡ some id
      → IsSessionId id
      → s.cookies ≡ some jar
      → (j : jars.Jar) × ((poll b64 crate jars {E = E} (ready (ok res)) (some o) s).1.cookies
          ≡ some j)
        × (s' : Inner jars.Jar jars.Key) × (from_request_parts b64 crate jars
              (call service (record { session = none; cookies = some j })).1
            ≡ ok s')
        × (s'.id ≡ some id)
  next_request E service o s jar res id configured changed named valid here =
      let (j, written, answers) = poll_changed b64 crate jars E o s res jar id changed named here in
      let (n, v, m, p) = session_cookie_lem b64 crate jars id o s.cookie_max_age in
      let read = from_str-to_string b64 id valid in
      (
        j,
        written,
        _,
        from_request_parts-call service o configured j,
        ground (arith, answers, v, read),
      )
