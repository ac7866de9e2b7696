-- ===== src/Service.antt =====
-- src/service/mod.rs: the middleware. It gives each request a new `Inner`, and when the response of
-- the inner service is ready it writes the session's cookie to the jar that the extractor left there.
-- The inner service, its request and its response are the application's.
pub mod Response
use ruts.Prelude.{ℕ, String, ℤ, Option, none, some, Bool, true, false, if◌then◌else◌}
use ruts.Outcome.{Result, ok, err, panic}
use ruts.HashMap.{map_option}
use ruts.SessionId.{SessionId, Base64, to_string}
use ruts.Cookies.{CookieCrate, JarCrate}
use ruts.Cookies.Options.{CookieOptions}
use ruts.Session.State
use ruts.Session.State.{Inner, is_changed, is_deleted}

-- `std::task::Poll`
pub data Poll {ℓ} (A : Type ℓ) : Type ℓ where
  pending : Poll A
  ready : A → Poll A

-- What the code reads and writes of a request's type map (`http::Extensions`): the session and the
-- cookie jar.
pub record Extensions (Jar Key : Type 0) : Type 0 where
  pub session : Option (Inner Jar Key)
  pub cookies : Option Jar

pub record SessionLayer (SameSite Key Store : Type 0) : Type 0 where
  pub cookie_options : Option (CookieOptions SameSite Key)
  pub store : Store

pub record SessionService (Service SameSite Key Store : Type 0) : Type 0 where
  pub inner : Service
  pub cookie_options : Option (CookieOptions SameSite Key)
  pub store : Store

module _ {SameSite Key Store : Type 0} where
  -- `SessionLayer::new`
  unfoldable pub new : Store → SessionLayer SameSite Key Store
  new store = record { cookie_options = none; store = store }

  unfoldable pub with_cookie_options :
      CookieOptions SameSite Key → SessionLayer SameSite Key Store → SessionLayer SameSite Key Store
  with_cookie_options options l = record l { cookie_options = some options }

  -- `SessionService::new`
  unfoldable pub new_service :
      {Service : Type 0} → Service → Store → SessionService Service SameSite Key Store
  new_service inner store = record { inner = inner; cookie_options = none; store = store }

  -- `SessionService::with_cookie_options`
  unfoldable pub with_options :
      {Service : Type 0}
      → CookieOptions SameSite Key
      → SessionService Service SameSite Key Store
      → SessionService Service SameSite Key Store
  with_options options service = record service { cookie_options = some options }

  unfoldable pub layer :
      {Service : Type 0}
      → SessionLayer SameSite Key Store
      → Service
      → SessionService Service SameSite Key Store
  unfolding new_service with_options
  layer l inner =
      let service = new_service inner l.store in
      elim l.cookie_options [ some options ↦ with_options options service | none ↦ service ]

  -- `poll_ready`, by what the inner service does when it is asked
  unfoldable pub poll_ready :
      {Service E : Type 0}
      → (Service → Poll (Result E (Unit {0})) × Service)
      → SessionService Service SameSite Key Store
      → Poll (Result E (Unit {0})) × SessionService Service SameSite Key Store
  poll_ready poll_inner service =
      let (answer, inner) = poll_inner service.inner in (answer, record service { inner = inner })

  -- `call`: the session of the request, which is also put among its extensions
  unfoldable pub call :
      {Service Jar : Type 0}
      → SessionService Service SameSite Key Store
      → Extensions Jar Key
      → Inner Jar Key × Extensions Jar Key
  unfolding State.new
  call service extensions =
      let inner_session =
        State.new (map_option (λ o. o.name) service.cookie_options)
          (map_option (λ o. o.max_age) service.cookie_options)
          (elim service.cookie_options [ none ↦ none | some o ↦ o.signing_key ]) in
      (inner_session, record extensions { session = some inner_session })

module _ (b64 : Base64) (crate : CookieCrate) (jars : JarCrate crate) where
  abbrev pub Options : Type 0
  Options = CookieOptions crate.SameSite jars.Key

  -- the two conditional steps of `build_cookie`
  unfoldable pub in_domain : Option String → crate.Cookie → crate.Cookie
  in_domain none cookie = cookie
  in_domain (some domain) cookie = crate.set_domain domain cookie

  unfoldable pub in_path : Option String → crate.Cookie → crate.Cookie
  in_path none cookie = cookie
  in_path (some path) cookie = crate.set_path path cookie

  -- the cookie of `build_cookie`
  unfoldable pub session_cookie : SessionId → Options → ℤ → crate.Cookie
  session_cookie id o cookie_max_age = in_path o.path (
      in_domain o.domain (
        crate.set_max_age cookie_max_age (
          crate.set_same_site o.same_site (
            crate.set_http_only o.http_only
              (crate.set_secure o.secure (crate.build o.name (to_string b64 id)))))))

  unfoldable pub build_cookie : SessionId → Options → ℤ → jars.Jar → jars.Jar
  unfolding session_cookie
  build_cookie id o cookie_max_age jar = elim o.signing_key [
    | some key ↦ jars.signed_add key (session_cookie id o cookie_max_age) jar
    | none ↦ jars.add (session_cookie id o cookie_max_age) jar
  ]

  -- the cookie that `poll` hands to the jar's `remove`
  abbrev pub removal_cookie : Options → crate.Cookie
  removal_cookie o = crate.named o.name

  -- what `poll` does to the jar of a session that is marked as deleted
  unfoldable pub drop_cookie : Options → jars.Jar → jars.Jar
  drop_cookie o jar = jars.remove (removal_cookie o) jar

  -- the two branches of `poll` behind the response
  unfoldable pub write_cookie : Option Options → Inner jars.Jar jars.Key → Option jars.Jar
  unfolding is_deleted is_changed drop_cookie build_cookie
  write_cookie none s = s.cookies
  write_cookie (some o) s =
      if is_deleted s
      then map_option (drop_cookie o) s.cookies
      else if is_changed s
      then elim s.id [
        | none ↦ s.cookies
        | some id ↦ map_option (build_cookie id o s.cookie_max_age) s.cookies
      ]
      else s.cookies

  -- `ResponseFuture::poll`, by what the inner future answers
  unfoldable pub poll :
      {Body E : Type 0}
      → Poll (Result E Body)
      → Option Options
      → Inner jars.Jar jars.Key
      → Poll (Result E Body) × Inner jars.Jar jars.Key
  unfolding write_cookie
  poll pending o s = (pending, s)
  poll (ready (err e)) o s = (ready (err e), s)
  poll (ready panic) o s = (ready panic, s)
  poll (ready (ok res)) o s = (ready (ok res), record s { cookies = write_cookie o s })
