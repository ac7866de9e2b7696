-- ===== src/Session/AnyStore.antt =====
-- src/session/mod.rs over any store that meets the contract: what a handler reads after it, or an
-- earlier handler, has written.
use ruts.Prelude.{
  ℕ, ◌≤◌, String, ◌≡◌, true, false, Option, none, some, ℤ, str_eq, eq_iff, arith, if◌then◌else◌,
}
use ruts.Outcome.{ok, map_err}
use ruts.SessionId.{SessionId, Base64, same_session}
use ruts.Store.Codec.{Codec, Bytes, serialize_value, deserialize_value}
use ruts.Store.Contract.{Timed, at, View, Meets, read, Only}
use ruts.Session.State.{session_state_changed}
use ruts.Session.{World, store_error, get, set, remove, delete, regenerate}
use ruts.Session.Effects.{
  current, field_ttl, session_ttl, set_answered, remove_answered, delete_answered,
}

module _ (Cookies Key : Type 0) (b64 : Base64) (store : Timed) (v : View store.State)
    (meets : Meets b64 store v) where
  -- `get` at an instant reads the view of the session's id
  pub get-view :
      {T : Type 0} (codec : Codec T) (t : ℕ) (field : String) (w : World Cookies Key store.State)
      (id : SessionId)
      → w.inner.id ≡ some id
      → (get Cookies Key (at store t) codec field w).0
        ≡ map_err store_error (read codec (v.view t w.store id field))
  unfolding get
  get-view codec t field w id named = ground (arith, meets.get-view codec t id field w.store)

  module _ {T : Type 0} (codec : Codec T) (now later : ℕ) (w : World Cookies Key store.State)
      (valid : v.IsValid w.store) (order : now ≤ later) where
    module _ (fresh : SessionId) (field : String) (value : T) (ttl hot : Option ℤ) (bytes : Bytes)
        (encoded : serialize_value codec value ≡ ok bytes)
        (lasting : v.lasts now
            (session_ttl Cookies Key (at store now) w codec fresh field value ttl hot)
            later
          ≡ true)
        (field_lasting : v.lasts now
            (field_ttl Cookies Key (at store now) w codec fresh field value ttl hot)
            later
          ≡ true) where
      abbrev pub after : World Cookies Key store.State
      after = (set Cookies Key (at store now) codec fresh field value ttl hot w).1

      abbrev pub id : SessionId
      id = current Cookies Key (at store now) w codec fresh field value ttl hot

      -- what the contract says of the call that `set` makes, and what `set` then does
      pub set-view :
          w.inner.pending_id ≡ none
          → (ttl' : ℤ) × (s' : store.State) × (set Cookies Key
                (at store now)
                codec
                fresh
                field
                value
                ttl
                hot
                w
              ≡ (
                ok true,
                record {
                  inner = record w.inner {
                    state = session_state_changed;
                    id = some id;
                    pending_id = none;
                    cookie_max_age = ttl';
                  };
                  store = s';
                },
              ))
            × (v.view later s' id field ≡ some bytes)
            × Only b64 v later id w.store s'
            × v.IsValid s'
      set-view no_pending =
          let (ttl', s', called, above, seen, kept, only, known, valid') =
            meets.set-view codec now later id field value
              (session_ttl Cookies Key (at store now) w codec fresh field value ttl hot)
              (field_ttl Cookies Key (at store now) w codec fresh field value ttl hot) hot bytes
              w.store valid order encoded lasting field_lasting in
          let whole =
            set_answered Cookies Key (at store now) w codec fresh field value ttl hot ttl' s'
              (ground arith) in
          (ttl', s', ground (arith, whole), seen, only, valid')

      -- Over any store that meets the contract, a `set` of a session with no pending id, of a value
      -- that is encoded, succeeds, and a later `get` reads the value while both lifetimes last.
      pub any-get-set :
          w.inner.pending_id ≡ none
          → deserialize_value codec bytes ≡ ok value
          → ((set Cookies Key (at store now) codec fresh field value ttl hot w).0 ≡ ok true)
            × ((get Cookies Key (at store later) codec field after).0 ≡ ok (some value))
      any-get-set no_pending decodes =
          let (ttl', s', whole, seen, only, valid') = set-view no_pending in
          (ground arith, ground (arith, get-view codec later field after id (ground arith)))

      -- and what other sessions show is as it was
      pub set-isolates :
          (j : SessionId) (f : String)
          → w.inner.pending_id ≡ none
          → same_session b64 id j ≡ false
          → v.view later after.store j f ≡ v.view later w.store j f
      set-isolates j f no_pending other =
          let (ttl', s', whole, seen, only, valid') = set-view no_pending in
          ground (arith, only j f other)

      -- Over any store that meets the contract, in a sound state: a `set` of a value that is encoded,
      -- with lifetimes that last until `later`, in a session that has a pending id, whose own id the
      -- store knows and whose pending one is another that it does not know, succeeds and gives the session that id. At
      -- `later` the value can be read under the new id, and so can every other field that could have
      -- been read then under the old id; nothing can be read under the old id.
      pub any-set-rotates :
          (old new : SessionId)
          → w.inner.id ≡ some old
          → w.inner.pending_id ≡ some new
          → same_session b64 new old ≡ false
          → v.known now w.store old ≡ true
          → v.known now w.store new ≡ false
          → ((set Cookies Key (at store now) codec fresh field value ttl hot w).0 ≡ ok true)
            × (after.inner.id ≡ some new)
            × (v.view later after.store new field ≡ some bytes)
            × ((f : String) (b : Bytes)
                → v.view later w.store old f ≡ some b
                → v.view later after.store new f ≡ some (if str_eq field f then bytes else b))
            × ((g : String) → v.view later after.store old g ≡ none)
      any-set-rotates old new named pending distinct here free =
          let (ttl', s', called, above, seen, kept, emptied, only, valid') =
            meets.set_and_rename-view codec now later old new field value
              (session_ttl Cookies Key (at store now) w codec fresh field value ttl hot)
              (field_ttl Cookies Key (at store now) w codec fresh field value ttl hot) hot bytes
              w.store valid order encoded lasting field_lasting distinct here free in
          let whole =
            set_answered Cookies Key (at store now) w codec fresh field value ttl hot ttl' s'
              (ground arith) in
          let stored : after.store ≡ s' = ground (arith, whole) in
          (
            ground (arith, whole),
            ground (arith, whole),
            rw stored seen,
            λ f b readable. rw stored (ground (arith, kept f b, eq_iff field f)),
            λ g. rw stored (emptied g),
          )

    -- Over any store that meets the contract, `regenerate` of a session that the store knows and that
    -- has a field that can be read, to an id that the store does not know, succeeds, gives the session
    -- that id, and marks it as changed. From then on the new id shows what the old one would have
    -- shown, the old one nothing, and the other sessions what they did.
    pub any-regenerate :
        (old new : SessionId) (field : String) (bytes : Bytes)
        → w.inner.id ≡ some old
        → same_session b64 new old ≡ false
        → v.known now w.store old ≡ true
        → v.view now w.store old field ≡ some bytes
        → v.known now w.store new ≡ false
        → (s' : store.State) × (regenerate Cookies Key (at store now) new w ≡ (
          ok (some new),
          record {
            inner = record w.inner { state = session_state_changed; id = some new };
            store = s';
          },
        ))
          × ((f : String) → v.view later s' new f ≡ v.view later w.store old f)
          × ((f : String) → v.view later s' old f ≡ none)
          × ((j : SessionId) (f : String)
              → same_session b64 new j ≡ false
              → same_session b64 old j ≡ false
              → v.view later s' j f ≡ v.view later w.store j f)
    unfolding regenerate
    any-regenerate old new field bytes named distinct here readable free =
        let (s', renamed, moved, emptied, others, valid') =
          meets.rename-view now later old new field bytes w.store valid order distinct here readable
            free in
        (s', ground arith, moved, emptied, others)

    module _ (id : SessionId) (named : w.inner.id ≡ some id) where
      -- Over any store that meets the contract, a field that a handler has removed, or any field of a
      -- session that it has deleted, is not read by a later `get`, whatever was in the store before.
      pub any-get-remove :
          (field : String)
          → ((get Cookies Key
                (at store later)
                codec
                field
                (remove Cookies Key (at store now) field w).1).0
              ≡ ok none)
            × ((get Cookies Key
                  (at store later)
                  codec
                  field
                  (delete Cookies Key (at store now) w).1).0
                ≡ ok none)
      any-get-remove field =
          let (ttl, s', removed, hidden, only, valid') =
            meets.remove-view now later id field w.store valid order in
          let (done, s'', deleted, empty, only', valid'') =
            meets.delete-view now later id w.store valid order in
          let whole =
            remove_answered Cookies Key (at store now) w id named field (ok ttl) s' removed in
          let whole' = delete_answered Cookies Key (at store now) w id named done s'' deleted in
          (
            ground (
              arith,
              whole,
              get-view codec later field (remove Cookies Key (at store now) field w).1 id,
            ),
            ground (
              arith,
              whole',
              empty field,
              get-view codec later field (delete Cookies Key (at store now) w).1 id,
            ),
          )
