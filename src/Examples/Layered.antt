-- ===== src/Examples/Layered.antt =====
-- examples/layered_store.rs: a cache before a durable store.
use ruts.Prelude.{◌*◌, Option, none, some, pos, false, true}
use ruts.Outcome.{unwrap, pure, ◌>>=◌}
use ruts.SessionId.{SessionId}
use ruts.Cookies.Options.{
  CookieOptions, build, with_name, with_http_only, with_same_site, with_secure, with_max_age,
  with_path,
}
use ruts.Store.Codec.{Codec}
use ruts.Store.Trait.{SessionStore}
use ruts.Session.{SessionAction, get, set, remove}
use ruts.Examples.{prepare, or_default}

module _ (Cookies Key : Type 0) (store : SessionStore) {T : Type 0} (codec : Codec T) where
  abbrev pub Route : Type 0 → Type 0
  Route = SessionAction Cookies Key store

  -- "/set"
  unfoldable pub set_user : SessionId → (user : T) → Route (Unit {0})
  set_user fresh user =
      unwrap (set Cookies Key store codec fresh "user_1" user none none) >>= λ _. pure tt

  -- "/set_hot_ttl"
  unfoldable pub set_hot_ttl : SessionId → (user : T) → Route (Unit {0})
  set_hot_ttl fresh user =
      let long_term_expiry = pos (60 * 10) in
      let short_term_hot_cache_expiry = pos 60 in
      unwrap (
        set Cookies Key store codec fresh "user_2" user (some long_term_expiry)
          (some short_term_hot_cache_expiry))
      >>= λ _. pure tt

  -- "/set_cold_only"
  unfoldable pub set_cold_only : SessionId → (user : T) → Route (Unit {0})
  set_cold_only fresh user =
      unwrap (set Cookies Key store codec fresh "user_3" user none (some (pos 0))) >>= λ _. pure tt

  -- "/remove_set"; the first id is what `prepare_regenerate` draws
  unfoldable pub remove_set : (drawn fresh : SessionId) → (user : T) → Route (Unit {0})
  remove_set drawn fresh user = do
    _ ← unwrap (remove Cookies Key store "user_1")
    _ ← prepare Cookies Key store drawn
    _ ← unwrap (set Cookies Key store codec fresh "user_4" user none none)
    pure tt

  -- "/get"
  unfoldable pub get_users : Route (Option T × Option T × Option T)
  get_users = do
    user_1 ← or_default (get Cookies Key store codec "user_1")
    user_2 ← or_default (get Cookies Key store codec "user_2")
    user_3 ← or_default (get Cookies Key store codec "user_3")
    pure (user_1, user_2, user_3)

-- the options of `main`
unfoldable pub cookie_options :
    {SameSite Key : Type 0} → (lax : SameSite) → CookieOptions SameSite Key
unfolding build with_name with_http_only with_same_site with_secure with_max_age with_path
cookie_options lax = with_path "/" (
    with_max_age (pos (60 * 10)) (
      with_secure false
        (with_same_site lax (with_http_only true (with_name "session" (build lax))))))
