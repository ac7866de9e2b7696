-- ===== src/Session/Roundtrip.antt =====
-- src/session/mod.rs over src/store/memory/mod.rs: what a handler reads back from a session that is
-- kept in memory.
use ruts.Prelude.{
  if◌then◌else◌, str_eq, ◌∙◌, ◌≤◌, String, ◌≡◌, ◌≢◌, true, false, Option, none, some, arith, ℤ, pos,
  eq_iff, ltb_ℤ, gone,
}
use ruts.Outcome.{ok, map_err}
use ruts.HashMap.{keep_if}
use ruts.DashMap.{DashMap}
use ruts.SessionId.{SessionId, Base64, to_string, same_session}
use ruts.Store.Codec.{Codec, Bytes, serialize_value, deserialize_value}
use ruts.Store.Memory
use ruts.Store.Memory.{memory_store}
use ruts.Store.Memory.Expiry.{StoredValue, Fields, Clock, is_live, determine_expiry}
use ruts.Store.Memory.View.{visible}
use ruts.Store.Memory.Effects.{decoded, get-visible, visible-set}
use ruts.Store.Memory.Moves.{visible-set_and_rename}
use ruts.Store.Memory.Reported.{set_and_rename-Covers}
use ruts.Store.Memory.Ttl.{Covers-above}
use ruts.Session.{World, store_error, get, set}
use ruts.Session.Effects.{current, field_ttl, session_ttl, set_answered, store-set, id-set}

module _ (Cookies Key : Type 0) (b64 : Base64) (dash : DashMap Fields) {T : Type 0}
    (codec : Codec T) (clock later : Clock) (w : World Cookies Key dash.Table) (fresh : SessionId)
    (field : String) (value : T) (ttl hot : Option ℤ) where
  abbrev lifetime : ℤ
  lifetime = field_ttl Cookies Key (memory_store b64 dash clock) w codec fresh field value ttl hot

  abbrev session_lifetime : ℤ
  session_lifetime =
      session_ttl Cookies Key (memory_store b64 dash clock) w codec fresh field value ttl hot

  abbrev after : World Cookies Key dash.Table
  after = (set Cookies Key (memory_store b64 dash clock) codec fresh field value ttl hot w).1

  -- `get` decodes what its session shows.
  get-of_id :
      (w' : World Cookies Key dash.Table) (id : SessionId)
      → w'.inner.id ≡ some id
      → (get Cookies Key (memory_store b64 dash later) codec field w').0
        ≡ map_err store_error
            (decoded b64 dash codec (visible b64 dash later.swept w'.store id field))
  unfolding get
  get-of_id w' id h = ground (arith, get-visible b64 dash codec later id field w'.store)

  abbrev id : SessionId
  id = current Cookies Key (memory_store b64 dash clock) w codec fresh field value ttl hot

  after-store :
      w.inner.pending_id ≡ none
      → after.store
        ≡ (Memory.set b64 dash codec clock id field value session_lifetime lifetime hot w.store).1
  after-store h =
      store-set Cookies Key (memory_store b64 dash clock) w codec fresh field value ttl hot
      ∙ ground arith

  -- A value that a handler has set is read back by a later `get`, where the session has no
  -- pending id, the value is encoded to bytes that decode to it, neither lifetime is 0, and the
  -- value has not expired at the read.
  pub get-set :
      (bytes : Bytes)
      → w.inner.pending_id ≡ none
      → serialize_value codec value ≡ ok bytes
      → deserialize_value codec bytes ≡ ok value
      → lifetime ≢ pos 0
      → session_lifetime ≢ pos 0
      → clock.swept ≤ later.swept
      → is_live later.swept (record {
        bytes = bytes;
        expires_at = determine_expiry clock.stored session_lifetime lifetime;
      })
        ≡ true
      → (get Cookies Key (memory_store b64 dash later) codec field after).0 ≡ ok (some value)
  get-set bytes no_pending encoded decodes l1 l2 order live =
      let stored : StoredValue = record {
        bytes = bytes;
        expires_at = determine_expiry clock.stored session_lifetime lifetime;
      } in
      let seen : visible b64 dash later.swept after.store id field ≡ some stored =
        rw (after-store no_pending) (
          ground (
            arith,
            visible-set b64 dash clock later.swept order w.store id codec field value
                session_lifetime lifetime hot id field,
            eq_iff (to_string b64 id) (to_string b64 id),
            eq_iff field field,
          )) in
      let named =
        id-set Cookies Key (memory_store b64 dash clock) w codec fresh field value ttl hot
          no_pending in
      ground (arith, get-of_id after id named)

  -- A `set` behind `prepare_regenerate` moves the session. The two ids have different keys, the
  -- value is encoded, neither lifetime is 0, and the value is still live when the lifetime is
  -- read. Then `set` reports success and the session has the new id. From then on every other
  -- field is read under it as under the old id before, the field that was set has the value until
  -- it expires, and nothing can be read under the old id.
  pub set-rotates :
      (old new : SessionId) (bytes : Bytes)
      → w.inner.id ≡ some old
      → w.inner.pending_id ≡ some new
      → same_session b64 new old ≡ false
      → serialize_value codec value ≡ ok bytes
      → lifetime ≢ pos 0
      → session_lifetime ≢ pos 0
      → clock.swept ≤ later.swept
      → is_live clock.read (record {
        bytes = bytes;
        expires_at = determine_expiry clock.stored session_lifetime lifetime;
      })
        ≡ true
      → ((set Cookies Key (memory_store b64 dash clock) codec fresh field value ttl hot w).0
          ≡ ok true)
        × (after.inner.id ≡ some new)
        × ((f : String) → visible b64 dash later.swept after.store old f ≡ none)
        × ((f : String)
            → visible b64 dash later.swept after.store new f ≡ (
                if str_eq field f
                then keep_if (is_live later.swept) (
                    some (record {
                      bytes = bytes;
                      expires_at = determine_expiry clock.stored session_lifetime lifetime;
                    }))
                else visible b64 dash later.swept w.store old f))
  set-rotates old new bytes named pending distinct encoded l1 l2 order live =
      let (reported, answers, covers) =
        set_and_rename-Covers b64 dash codec clock w.store old new field value session_lifetime
          lifetime hot bytes l2 l1 encoded live in
      let s' =
        (Memory.set_and_rename b64 dash codec clock old new field value session_lifetime lifetime
          hot w.store).1 in
      let above : ltb_ℤ gone reported ≡ true = Covers-above clock.read _ reported covers in
      let whole =
        set_answered Cookies Key (memory_store b64 dash clock) w codec fresh field value ttl hot
          reported s' (ground arith) in
      let stored_as : after.store ≡ s' = ground arith in
      let effect = λ (j : SessionId) (f : String).
        visible-set_and_rename b64 dash clock later.swept order w.store old new codec field value
          session_lifetime lifetime hot l2 l1 bytes encoded j f in
      (
        ground arith,
        ground arith,
        λ f.
            rw stored_as
              (ground (arith, effect old f, eq_iff (to_string b64 old) (to_string b64 old))),
        λ f.
            rw stored_as
              (ground (arith, effect new f, eq_iff (to_string b64 new) (to_string b64 new))),
      )
