-- ===== src/Suite/Session.antt =====
-- The tests of src/session/mod.rs, on a session of `create_inner`. `Id::default()` draws the ids that
-- are arguments.
use ruts.Prelude.{String, Bool, not, none, some, Option, ℤ, pos, str_eq}
use ruts.Outcome.{Action, ok, ◌>>=◌, unwrap, unwrap_option}
use ruts.SessionId.{SessionId, Base64, to_string}
use ruts.Store.Codec.{Codec}
use ruts.Store.Trait.{SessionStore}
use ruts.Session
use ruts.Session.State.{Inner, new}
use ruts.Session.{World, Error, on_store, prepare_regenerate}
use ruts.Suite.{assert, is_none, holds}

-- `create_inner`
unfoldable pub create_inner : {Cookies Key : Type 0} → Option String → Option ℤ → Inner Cookies Key
unfolding new
create_inner cookie_name cookie_max_age = new cookie_name cookie_max_age none

-- the session that a test starts with, beside an empty store
unfoldable pub start : {Cookies Key State : Type 0} → State → World Cookies Key State
unfolding create_inner
start s = record { inner = create_inner (some "test_sess") (some (pos 3600)); store = s }

module _ (Cookies Key : Type 0) (store : SessionStore) {T : Type 0} (codec : Codec T)
    (same : T → T → Bool) where
  abbrev pub Test : Type 0
  Test = Action (World Cookies Key store.State) Error (Unit {0})

  unfoldable pub test_session_operations : SessionId → (test_data new_data : T) → Test
  test_session_operations fresh test_data new_data = do
    inserted ← unwrap (Session.set Cookies Key store codec fresh "test" test_data none none)
    _ ← assert inserted
    retrieved ← unwrap (Session.get Cookies Key store codec "test")
    _ ← assert (holds same retrieved test_data)
    inserted_again ← unwrap (Session.set Cookies Key store codec fresh "test" new_data none none)
    _ ← assert inserted_again
    retrieved_new ← unwrap (Session.get Cookies Key store codec "test")
    _ ← assert (holds same retrieved_new new_data)
    deleted ← unwrap (Session.delete Cookies Key store)
    _ ← assert deleted
    gone ← unwrap (Session.get Cookies Key store codec "test")
    assert (is_none gone)

  -- `session.id().unwrap()`
  unfoldable pub the_id : Action (World Cookies Key store.State) Error SessionId
  unfolding Session.id
  the_id w = (unwrap_option (Session.id w), w)

  unfoldable pub test_prepare_regenerate :
      Base64 → (fresh drawn : SessionId) → (test_data new_data : T) → Test
  unfolding the_id to_string on_store prepare_regenerate
  test_prepare_regenerate b64 fresh drawn test_data new_data = do
    _ ← unwrap (Session.set Cookies Key store codec fresh "test1" test_data none none)
    original_id ← the_id
    prepared_id ← λ w. let (id, w') = prepare_regenerate Cookies Key store drawn w in (ok id, w')
    inserted ← unwrap (Session.set Cookies Key store codec fresh "test2" new_data none none)
    _ ← assert inserted
    current_id ← the_id
    _ ← assert (str_eq (to_string b64 current_id) (to_string b64 prepared_id))
    _ ← assert (not (str_eq (to_string b64 current_id) (to_string b64 original_id)))
    retrieved1 ← unwrap (Session.get Cookies Key store codec "test1")
    retrieved2 ← unwrap (Session.get Cookies Key store codec "test2")
    _ ← assert (holds same retrieved1 test_data)
    _ ← assert (holds same retrieved2 new_data)
    result ← unwrap (on_store (store.get codec original_id "test1"))
    assert (is_none result)
