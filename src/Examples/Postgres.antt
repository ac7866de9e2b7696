-- ===== src/Examples/Postgres.antt =====
-- examples/postgres.rs.
use ruts.Prelude.{◌*◌, none, pos, false, true}
use ruts.Outcome.{unwrap, unwrap_option, pure, ◌>>=◌}
use ruts.SessionId.{SessionId}
use ruts.Cookies.Options.{
  CookieOptions, build, with_name, with_http_only, with_same_site, with_secure, with_max_age,
  with_path,
}
use ruts.Store.Codec.{Codec}
use ruts.Store.Trait.{SessionStore}
use ruts.Session
use ruts.Session.{SessionAction}

module _ (Cookies Key : Type 0) (store : SessionStore) where
  abbrev pub Route : Type 0 → Type 0
  Route = SessionAction Cookies Key store

  module _ {App : Type 0} (app : Codec App) where
    -- "/set"
    unfoldable pub set : SessionId → (app_session : App) → Route (Unit {0})
    set fresh app_session =
        unwrap (Session.set Cookies Key store app fresh "app" app_session none none) >>= λ _.
        pure tt

    -- "/get"
    unfoldable pub get : Route App
    get = unwrap (Session.get Cookies Key store app "app") >>= λ app_session w.
        (unwrap_option app_session, w)

  -- "/delete"
  unfoldable pub delete : Route (Unit {0})
  delete = unwrap (Session.delete Cookies Key store) >>= λ _. pure tt

-- the options of `main`
unfoldable pub cookie_options :
    {SameSite Key : Type 0} → (lax : SameSite) → CookieOptions SameSite Key
unfolding build with_name with_http_only with_same_site with_secure with_max_age with_path
cookie_options lax = with_path "/" (
    with_max_age (pos (60 * 60)) (
      with_secure false
        (with_same_site lax (with_http_only true (with_name "session" (build lax))))))
