-- ===== src/Session/Calls.antt =====
-- src/session/mod.rs: the operations of the handlers of a request, in any order, whatever the store
-- answers.
use ruts.Prelude.{String, Option, ℤ}
use ruts.SessionId.{SessionId}
use ruts.Store.Codec.{Codec}
use ruts.Store.Trait.{SessionStore}
use ruts.Session.State.{set_expiration}
use ruts.Session.{
  World, on_inner, get, get_all, set, remove, delete, expire, regenerate, prepare_regenerate,
}

module _ {Cookies Key : Type 0} (store : SessionStore) where
  -- one operation of a handler, with the fresh id that it may draw
  pub data Step : World Cookies Key store.State → World Cookies Key store.State → Type 1 where
    getting :
        {T : Type 0} (codec : Codec T) (field : String) (w : World Cookies Key store.State)
        → Step w (get Cookies Key store codec field w).1
    getting_all : (w : World Cookies Key store.State) → Step w (get_all Cookies Key store w).1
    setting :
        {T : Type 0} (codec : Codec T) (fresh : SessionId) (field : String) (value : T)
        (ttl hot : Option ℤ) (w : World Cookies Key store.State)
        → Step w (set Cookies Key store codec fresh field value ttl hot w).1
    removing :
        (field : String) (w : World Cookies Key store.State)
        → Step w (remove Cookies Key store field w).1
    deleting : (w : World Cookies Key store.State) → Step w (delete Cookies Key store w).1
    expiring :
        (ttl : ℤ) (w : World Cookies Key store.State) → Step w (expire Cookies Key store ttl w).1
    regenerating :
        (fresh : SessionId) (w : World Cookies Key store.State)
        → Step w (regenerate Cookies Key store fresh w).1
    preparing :
        (fresh : SessionId) (w : World Cookies Key store.State)
        → Step w (prepare_regenerate Cookies Key store fresh w).1
    aging :
        (seconds : ℤ) (w : World Cookies Key store.State)
        → Step w (on_inner (set_expiration seconds) w)

  pub data Reach (w : World Cookies Key store.State) : World Cookies Key store.State → Type 1 where
    here : Reach w w
    next : {u v : World Cookies Key store.State} → Reach w u → Step u v → Reach w v
