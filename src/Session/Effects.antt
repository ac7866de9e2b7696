-- ===== src/Session/Effects.antt =====
-- src/session/mod.rs: what the operations of a session do, over any store.
use ruts.Prelude.{
  String, ◌≡◌, Bool, true, false, Option, none, some, arith, ℤ, pos, persistent, gone, ltb_ℤ, ◌==ℤ◌,
  ◌||◌, if◌then◌else◌,
}
use ruts.Outcome.{Result, ok, err, panic}
use ruts.SessionId.{SessionId}
use ruts.Store.Codec
use ruts.Store.Codec.{Codec}
use ruts.Store.Trait.{SessionStore}
use ruts.Session.State.{
  unwrap_or, required_session_ttl, session_state_changed, session_state_deleted,
}
use ruts.Session.{
  World, store_error, uninitialized, get, get_all, set, remove, delete, expire, regenerate,
}

module _ (Cookies Key : Type 0) (store : SessionStore) (w : World Cookies Key store.State) where
  -- With no session id the reads find nothing, `remove`, `delete` and `expire` refuse, `regenerate`
  -- panics, and nothing changes.
  pub without_id :
      {T : Type 0} (codec : Codec T) (field : String) (ttl : ℤ) (fresh : SessionId)
      → w.inner.id ≡ none
      → (get Cookies Key store codec field w ≡ (ok none, w))
        × (get_all Cookies Key store w ≡ (ok none, w))
        × (remove Cookies Key store field w ≡ (err uninitialized, w))
        × (delete Cookies Key store w ≡ (err uninitialized, w))
        × (expire Cookies Key store ttl w ≡ (err uninitialized, w))
        × (regenerate Cookies Key store fresh w ≡ (panic, w))
  unfolding get get_all remove delete expire regenerate
  without_id codec field ttl fresh h =
      (ground arith, ground arith, ground arith, ground arith, ground arith, ground arith)

  module _ {T : Type 0} (codec : Codec T) (fresh : SessionId) (field : String) (value : T)
      (ttl hot : Option ℤ) where
    -- the id that `set` starts from
    abbrev pub current : SessionId
    current = unwrap_or w.inner.id fresh

    abbrev pub field_ttl : ℤ
    field_ttl = unwrap_or ttl w.inner.cookie_max_age

    abbrev pub session_ttl : ℤ
    session_ttl = required_session_ttl w.inner.cookie_max_age field_ttl

    -- what the store answers to the call that `set` makes
    abbrev pub answer : Result Codec.Error ℤ × store.State
    answer = elim w.inner.pending_id [
      | none ↦ store.set codec current field value session_ttl field_ttl hot w.store
      | some new_id ↦
          store.set_and_rename codec current new_id field value session_ttl field_ttl hot w.store
    ]

    -- `set` leaves the store as the store's own method did.
    pub store-set : (set Cookies Key store codec fresh field value ttl hot w).1.store ≡ answer.1
    unfolding set
    store-set = ground arith

    pub id-set :
        w.inner.pending_id ≡ none
        → (set Cookies Key store codec fresh field value ttl hot w).1.inner.id ≡ some current
    unfolding set
    id-set h = ground arith

    -- Where the store answers with a lifetime, `set` succeeds exactly when that is above -2. Then
    -- the session is marked as changed, its id is the pending one if there was one, and the
    -- cookie's lifetime is the reported one. Else only the id is made sure of. The pending id is
    -- used up in both cases.
    pub set_answered :
        (ttl' : ℤ) (s : store.State)
        → answer ≡ (ok ttl', s)
        → set Cookies Key store codec fresh field value ttl hot w ≡ (
            if ltb_ℤ gone ttl'
            then (
              ok true,
              record {
                inner = record w.inner {
                  state = session_state_changed;
                  id = some (unwrap_or w.inner.pending_id current);
                  pending_id = none;
                  cookie_max_age = ttl';
                };
                store = s;
              },
            )
            else (
              ok false,
              record { inner = record w.inner { id = some current; pending_id = none }; store = s },
            ))
    unfolding set
    set_answered ttl' s h = ground arith

    pub set_failed :
        (e : Codec.Error) (s : store.State)
        → answer ≡ (err e, s)
        → set Cookies Key store codec fresh field value ttl hot w ≡ (
          err (store_error e),
          record { inner = record w.inner { id = some current; pending_id = none }; store = s },
        )
    unfolding set
    set_failed e s h = ground arith

  module _ (id : SessionId) (known : w.inner.id ≡ some id) where
    -- `remove` by the store's answer: -2 marks the session as deleted, a higher lifetime marks it as
    -- changed and becomes the cookie's, a lower one changes nothing; an error is passed on.
    pub remove_answered :
        (field : String) (r : Result Codec.Error ℤ) (s : store.State)
        → store.remove id field w.store ≡ (r, s)
        → remove Cookies Key store field w ≡ (elim r [
          | panic ↦ (panic, record w { store = s })
          | err e ↦ (err (store_error e), record w { store = s })
          | ok ttl ↦
              if ttl ==ℤ gone
              then (
                ok false,
                record { inner = record w.inner { state = session_state_deleted }; store = s },
              )
              else if ltb_ℤ gone ttl
              then (
                ok true,
                record {
                  inner = record w.inner { state = session_state_changed; cookie_max_age = ttl };
                  store = s;
                },
              )
              else (ok false, record w { store = s })
        ])
    unfolding remove
    remove_answered field r s h = ground arith

    -- `delete` marks the session as deleted exactly when the store has deleted it. The id stays.
    pub delete_answered :
        (deleted : Bool) (s : store.State)
        → store.delete id w.store ≡ (ok deleted, s)
        → delete Cookies Key store w ≡ (
          ok deleted,
          record {
            inner = record w.inner {
              state = if deleted then session_state_deleted else w.inner.state;
            };
            store = s;
          },
        )
    unfolding delete
    delete_answered deleted s h = ground arith

    -- For a session with an id, `expire` with -1 or 0 is `delete`. Any other value becomes the
    -- cookie's lifetime, also where the store then fails or finds no session; only its success
    -- marks the session as changed.
    pub expire_answered :
        (ttl : ℤ) (r : Result Codec.Error Bool) (s : store.State)
        → store.expire id ttl w.store ≡ (r, s)
        → expire Cookies Key store ttl w ≡ (
            if ttl ==ℤ persistent || ttl ==ℤ pos 0 then delete Cookies Key store w else elim r [
              | panic ↦
                  (panic, record { inner = record w.inner { cookie_max_age = ttl }; store = s })
              | err e ↦ (
                err (store_error e),
                record { inner = record w.inner { cookie_max_age = ttl }; store = s },
              )
              | ok done ↦ (
                ok done,
                record {
                  inner = record w.inner {
                    cookie_max_age = ttl;
                    state = if done then session_state_changed else w.inner.state;
                  };
                  store = s;
                },
              )
            ])
    unfolding expire
    expire_answered ttl r s h = ground arith

    -- `regenerate` takes the new id, and marks the session as changed, exactly when the store has
    -- renamed the session; else the old id stays.
    pub regenerate_answered :
        (fresh : SessionId) (r : Result Codec.Error Bool) (s : store.State)
        → store.rename_session_id id fresh w.store ≡ (r, s)
        → regenerate Cookies Key store fresh w ≡ (elim r [
          | panic ↦ (panic, record w { store = s })
          | err e ↦ (err (store_error e), record w { store = s })
          | ok renamed ↦
              if renamed
              then (
                ok (some fresh),
                record {
                  inner = record w.inner { id = some fresh; state = session_state_changed };
                  store = s;
                },
              )
              else (ok none, record w { store = s })
        ])
    unfolding regenerate
    regenerate_answered fresh r s h = ground arith
