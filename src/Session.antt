-- ===== src/Session.antt =====
-- src/session/mod.rs: `Session`, the operations of a handler, over any store. `World` holds the
-- state of `Inner` beside that of the shared store.
pub mod State
pub mod Lifetime
pub mod Effects
pub mod Expiring
pub mod Calls
pub mod Roundtrip
pub mod AnyStore
pub mod Stale
pub mod History
pub mod Shared
use ruts.Prelude.{
  ℕ, String, ℤ, Option, none, some, Bool, true, false, ◌||◌, ◌==◌, ◌==ℤ◌, ltb_ℤ, max_ℤ, persistent,
  gone, pos, if◌then◌else◌,
}
use ruts.Outcome.{Result, ok, err, panic, Action, continue, map_err, pure, ◌>>=◌}
use ruts.SessionId.{SessionId}
use ruts.Session.State.{
  Inner, unwrap_or, required_session_ttl, get_id, get_or_set_id, set_id, set_pending_id,
  take_pending_id, set_changed, set_deleted, set_expiration,
}
use ruts.Store.Codec
use ruts.Store.Codec.{Codec}
use ruts.Store.SessionMap.{SessionMap}
use ruts.Store.Trait.{SessionStore}

pub data Error : Type 0 where
  store_error : Codec.Error → Error
  uninitialized : Error

pub record World (Cookies Key State : Type 0) : Type 0 where
  pub inner : Inner Cookies Key
  pub store : State

module _ {Cookies Key State : Type 0} where
  -- `map_err(|err| err.into())` on a call of the store
  unfoldable pub on_store :
      {A : Type 0} → Action State Codec.Error A → Action (World Cookies Key State) Error A
  on_store m w = let (r, s) = m w.store in (map_err store_error r, record w { store = s })

  -- a change of `Inner`
  unfoldable pub on_inner :
      (Inner Cookies Key → Inner Cookies Key) → World Cookies Key State → World Cookies Key State
  on_inner f w = record w { inner = f w.inner }

  -- what `set` and `remove` do with a lifetime that the store reports
  unfoldable pub renew : ℤ → World Cookies Key State → World Cookies Key State
  unfolding on_inner set_changed set_expiration
  renew max_age w = on_inner (λ i. set_expiration max_age (set_changed i)) w

  -- `Session::id`
  unfoldable pub id : World Cookies Key State → Option SessionId
  unfolding get_id
  id w = get_id w.inner

  unfoldable pub max_age : World Cookies Key State → ℤ
  max_age w = w.inner.cookie_max_age

module _ (Cookies Key : Type 0) (store : SessionStore) where
  abbrev pub SessionAction : Type 0 → Type 0
  SessionAction A = Action (World Cookies Key store.State) Error A

  unfoldable pub get : {T : Type 0} → Codec T → String → SessionAction (Option T)
  unfolding on_store
  get codec field w = elim w.inner.id [
    | some id ↦ on_store (store.get codec id field) w
    | none ↦ (ok none, w)
  ]

  unfoldable pub get_all : SessionAction (Option SessionMap)
  unfolding on_store
  get_all w = elim w.inner.id [ some id ↦ on_store (store.get_all id) w | none ↦ (ok none, w) ]

  -- the end of `set`
  unfoldable pub finish_set : ℤ → SessionAction Bool
  unfolding renew
  finish_set max_age w = if ltb_ℤ gone max_age then (ok true, renew max_age w) else (ok false, w)

  -- the arm of `set` for a pending id, behind the store's answer
  unfoldable pub adopt : SessionId → ℤ → SessionAction ℤ
  unfolding on_inner set_id
  adopt new_id max_age w =
      (ok max_age, if ltb_ℤ gone max_age then on_inner (set_id (some new_id)) w else w)

  -- `match pending_id` in `set`
  unfoldable pub store_field :
      {T : Type 0}
      → Codec T
      → SessionId
      → Option SessionId
      → String
      → T
      → ℤ
      → ℤ
      → Option ℤ
      → SessionAction ℤ
  unfolding on_store adopt
  store_field codec current_id none field value session_ttl field_ttl hot =
      on_store (store.set codec current_id field value session_ttl field_ttl hot)
  store_field codec current_id (some new_id) field value session_ttl field_ttl hot =
      on_store (store.set_and_rename codec current_id new_id field value session_ttl field_ttl hot)
      >>= adopt new_id

  unfoldable pub set :
      {T : Type 0} → Codec T → SessionId → String → T → Option ℤ → Option ℤ → SessionAction Bool
  unfolding get_or_set_id take_pending_id store_field finish_set
  set codec fresh field value field_ttl_secs hot_cache_ttl_secs w =
      let (current_id, identified) = get_or_set_id fresh w.inner in
      let (pending_id, inner) = take_pending_id identified in
      let effective_field_ttl = unwrap_or field_ttl_secs inner.cookie_max_age in
      let session_ttl = required_session_ttl inner.cookie_max_age effective_field_ttl in
      (store_field codec current_id pending_id field value session_ttl effective_field_ttl
            hot_cache_ttl_secs
          >>= finish_set)
        (record w { inner = inner })

  -- the end of `remove`
  unfoldable pub finish_remove : ℤ → SessionAction Bool
  unfolding renew on_inner set_deleted
  finish_remove max_age w =
      if max_age ==ℤ gone
      then (ok false, on_inner set_deleted w)
      else if ltb_ℤ gone max_age
      then (ok true, renew max_age w)
      else (ok false, w)

  unfoldable pub remove : String → SessionAction Bool
  unfolding on_store finish_remove
  remove field w = elim w.inner.id [
    | none ↦ (err uninitialized, w)
    | some id ↦ (on_store (store.remove id field) >>= finish_remove) w
  ]

  -- `if done { change(inner) }; Ok(done)`
  unfoldable pub when_done : (Inner Cookies Key → Inner Cookies Key) → Bool → SessionAction Bool
  unfolding on_inner
  when_done change done w = (ok done, if done then on_inner change w else w)

  unfoldable pub delete : SessionAction Bool
  unfolding on_store when_done set_deleted
  delete w = elim w.inner.id [
    | none ↦ (err uninitialized, w)
    | some id ↦ (on_store (store.delete id) >>= when_done set_deleted) w
  ]

  unfoldable pub expire : ℤ → SessionAction Bool
  unfolding delete on_store when_done set_changed on_inner set_expiration
  expire ttl_secs w =
      if ttl_secs ==ℤ persistent || ttl_secs ==ℤ pos 0 then delete w else elim w.inner.id [
        | none ↦ (err uninitialized, w)
        | some id ↦
            (on_store (store.expire id ttl_secs) >>= when_done set_changed)
              (on_inner (set_expiration ttl_secs) w)
      ]

  -- the end of `regenerate`
  unfoldable pub finish_regenerate : SessionId → Bool → SessionAction (Option SessionId)
  unfolding on_inner set_id set_changed
  finish_regenerate new_id renamed w =
      if renamed
      then (ok (some new_id), on_inner (λ i. set_changed (set_id (some new_id) i)) w)
      else (ok none, w)

  -- `old_id.unwrap()` panics where there is no id
  unfoldable pub regenerate : SessionId → SessionAction (Option SessionId)
  unfolding on_store finish_regenerate
  regenerate new_id w = elim w.inner.id [
    | none ↦ (panic, w)
    | some old_id ↦
        (on_store (store.rename_session_id old_id new_id) >>= finish_regenerate new_id) w
  ]

  unfoldable pub prepare_regenerate :
      SessionId → World Cookies Key store.State → SessionId × World Cookies Key store.State
  unfolding get_or_set_id set_pending_id
  prepare_regenerate fresh w = elim w.inner.id [
    | none ↦ let (id, inner) = get_or_set_id fresh w.inner in (id, record w { inner = inner })
    | some _ ↦ (fresh, record w { inner = set_pending_id (some fresh) w.inner })
  ]
