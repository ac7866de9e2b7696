-- ===== src/Session/Shared.antt =====
-- src/session/mod.rs: two handlers' tasks of one request, which share its `Inner`, each in a `set`. A
-- `set` reads and changes `Inner` before it awaits the store, and again behind the store's answer;
-- the other task may run in between.
use ruts.Prelude.{
  ℕ, ◌≤◌, String, ◌≡◌, true, false, Option, none, some, ℤ, eq_iff, arith, refl, Bool,
}
use ruts.Outcome.{Result, ok, ◌>>=◌}
use ruts.SessionId.{SessionId, Base64, same_session, to_string}
use ruts.Store.Codec.{Codec, Bytes, serialize_value}
use ruts.Store.Contract.{Timed, at, View, Meets}
use ruts.Store.Trait.{SessionStore}
use ruts.Session.State.{
  Inner, unwrap_or, required_session_ttl, get_or_set_id, take_pending_id, session_state_changed,
}
use ruts.Session.{World, Error, SessionAction, store_field, finish_set, set}

-- what a `set` has read of `Inner` when it calls the store
pub record Call : Type 0 where
  pub current_id : SessionId
  pub pending_id : Option SessionId
  pub session_ttl : ℤ
  pub field_ttl : ℤ

-- up to the call of the store
unfoldable pub begin :
    {Cookies Key : Type 0} → SessionId → Option ℤ → Inner Cookies Key → Call × Inner Cookies Key
unfolding get_or_set_id take_pending_id
begin fresh field_ttl_secs i =
    let (current_id, identified) = get_or_set_id fresh i in
    let (pending_id, inner) = take_pending_id identified in
    let effective_field_ttl = unwrap_or field_ttl_secs inner.cookie_max_age in
    (
      record {
        current_id = current_id;
        pending_id = pending_id;
        session_ttl = required_session_ttl inner.cookie_max_age effective_field_ttl;
        field_ttl = effective_field_ttl;
      },
      inner,
    )

module _ (Cookies Key : Type 0) (store : SessionStore) {T : Type 0} (codec : Codec T) where
  -- the call, and what is behind it
  unfoldable pub complete : Call → String → T → Option ℤ → SessionAction Cookies Key store Bool
  unfolding store_field finish_set
  complete c field value hot =
      store_field Cookies Key store codec c.current_id c.pending_id field value c.session_ttl
        c.field_ttl hot
      >>= finish_set Cookies Key store

  -- A `set` with no other task in between is its two parts.
  pub set-split :
      (fresh : SessionId) (field : String) (value : T) (ttl hot : Option ℤ)
      (w : World Cookies Key store.State)
      → set Cookies Key store codec fresh field value ttl hot w
        ≡ complete
            (begin fresh ttl w.inner).0
            field
            value
            hot
            (record w { inner = (begin fresh ttl w.inner).1 })
  unfolding set begin complete
  set-split fresh field value ttl hot w = refl

module _ (Cookies Key : Type 0) (b64 : Base64) (store : Timed) (v : View store.State)
    (meets : Meets b64 store v) {T : Type 0} (codec : Codec T) (now soon later : ℕ)
    (w : World Cookies Key store.State) (fresh fresh' : SessionId) (field field' : String)
    (value value' : T) (ttl ttl' hot hot' : Option ℤ) where
  -- The first task is at its call of the store when the second one begins,
  abbrev pub calls : Call × Call × Inner Cookies Key
  unfolding begin
  calls =
      let (c, inner) = begin fresh ttl w.inner in
      let (c', inner') = begin fresh' ttl' inner in (c, c', inner')

  -- and the store takes the two calls in that order.
  abbrev pub first : Result Error Bool × World Cookies Key store.State
  unfolding complete
  first =
      complete Cookies Key (at store now) codec calls.0 field value hot
        (record w { inner = calls.2 })

  abbrev pub second : Result Error Bool × World Cookies Key store.State
  unfolding complete
  second = complete Cookies Key (at store soon) codec calls.1 field' value' hot' first.1

  -- Over any store that meets the contract, in a sound state: two tasks of a request each set a
  -- value that is encoded, of a session that the store knows, with a pending id that it does not
  -- know; the second one begins when the first one awaits the store. Both succeed, and the session
  -- has the new id. While the lifetimes of both calls last, the first value is under the new id;
  -- but the second one is under the old id, and the new id shows what it showed before the second
  -- call.
  pub set-races :
      (old new : SessionId) (bytes bytes' : Bytes)
      → v.IsValid w.store
      → now ≤ soon
      → soon ≤ later
      → w.inner.id ≡ some old
      → w.inner.pending_id ≡ some new
      → same_session b64 new old ≡ false
      → v.known now w.store old ≡ true
      → v.known now w.store new ≡ false
      → serialize_value codec value ≡ ok bytes
      → serialize_value codec value' ≡ ok bytes'
      → v.lasts now calls.0.session_ttl later ≡ true
      → v.lasts now calls.0.field_ttl later ≡ true
      → v.lasts soon calls.1.session_ttl later ≡ true
      → v.lasts soon calls.1.field_ttl later ≡ true
      → (first.0 ≡ ok true)
        × (second.0 ≡ ok true)
        × (second.1.inner.id ≡ some new)
        × (v.view later first.1.store new field ≡ some bytes)
        × (v.view later second.1.store old field' ≡ some bytes')
        × ((g : String) → v.view later second.1.store new g ≡ v.view later first.1.store new g)
  unfolding begin complete
  set-races old new bytes bytes' valid order order' named pending distinct here free encoded
        encoded' k l k' l' =
      let (n, s, called, above, seen, kept, emptied, only, valid') =
        meets.set_and_rename-view codec now later old new field value calls.0.session_ttl
          calls.0.field_ttl hot bytes w.store valid (omega arith) encoded k l distinct here free in
      let (n', s', called', above', seen', kept', only', known, valid'') =
        meets.set-view codec soon later old field' value' calls.1.session_ttl calls.1.field_ttl hot'
          bytes' s valid' order' encoded' k' l' in
      let one : first ≡ (
        ok true,
        record {
          inner = record w.inner {
            state = session_state_changed;
            id = some new;
            pending_id = none;
            cookie_max_age = n;
          };
          store = s;
        },
      ) =
        ground arith in
      let two : second ≡ (
        ok true,
        record {
          inner = record w.inner {
            state = session_state_changed;
            id = some new;
            pending_id = none;
            cookie_max_age = n';
          };
          store = s';
        },
      ) =
        ground (arith, one) in
      (
        ground (arith, one),
        ground (arith, two),
        ground (arith, two),
        ground (arith, one, seen),
        ground (arith, two, seen'),
        λ g. ground (arith, one, two, only' new g, eq_iff (to_string b64 old) (to_string b64 new)),
      )
