-- ===== src/Examples/Redis.antt =====
-- examples/redis.rs.
use ruts.Prelude.{◌*◌, none, pos, true}
use ruts.Outcome.{unwrap, unwrap_option, pure, ◌>>=◌}
use ruts.SessionId.{SessionId}
use ruts.Cookies.Options.{
  CookieOptions, build, with_name, with_http_only, with_same_site, with_secure, with_max_age,
  with_path,
}
use ruts.Store.Codec.{Codec}
use ruts.Store.Trait.{SessionStore}
use ruts.Session
use ruts.Session.{SessionAction}
use ruts.Examples.{prepare}

module _ (Cookies Key : Type 0) (store : SessionStore) where
  abbrev pub Route : Type 0 → Type 0
  Route = SessionAction Cookies Key store

  module _ {App Theme : Type 0} (app : Codec App) (theme : Codec Theme) where
    -- "/set"
    unfoldable pub set : (drawn fresh : SessionId) → (app_session : App) → Route (Unit {0})
    set drawn fresh app_session = do
      _ ← prepare Cookies Key store drawn
      _ ← unwrap (Session.set Cookies Key store app fresh "app" app_session none none)
      pure tt

    -- "/update"
    unfoldable pub update : SessionId → (light : Theme) → Route (Unit {0})
    update fresh light =
        unwrap (Session.set Cookies Key store theme fresh "theme" light none none) >>= λ _. pure tt

    -- "/get"
    unfoldable pub get : Route App
    get = unwrap (Session.get Cookies Key store app "app") >>= λ user w. (unwrap_option user, w)

  -- "/remove"
  unfoldable pub remove : Route (Unit {0})
  remove = unwrap (Session.remove Cookies Key store "app-2") >>= λ _. pure tt

  -- "/regenerate"
  unfoldable pub regenerate : SessionId → Route (Unit {0})
  regenerate drawn = unwrap (Session.regenerate Cookies Key store drawn) >>= λ _. pure tt

  -- "/delete"
  unfoldable pub delete : Route (Unit {0})
  delete = unwrap (Session.delete Cookies Key store) >>= λ _. pure tt

-- the options of `main`
unfoldable pub cookie_options :
    {SameSite Key : Type 0} → (lax : SameSite) → CookieOptions SameSite Key
unfolding build with_name with_http_only with_same_site with_secure with_max_age with_path
cookie_options lax = with_path "/" (
    with_max_age (pos (1 * 60)) (
      with_secure true
        (with_same_site lax (with_http_only true (with_name "session" (build lax))))))
