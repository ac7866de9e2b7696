-- ===== src/Store/Memory/Effects.antt =====
-- src/store/memory/mod.rs: what each method that writes does to what can be read, for every session
-- and field, at every instant from the one at which it sweeps the expired fields.
use ruts.Prelude.{
  ℕ, ◌≤◌, String, ◌≡◌, ◌&&◌, Option, none, some, arith, str_eq, if◌then◌else◌, Option-cases, inl,
  inr, ℤ, pos, ◌==ℤ◌,
}
use ruts.Outcome.{Result, ok, err, panic, map_some}
use ruts.HashMap
use ruts.HashMap.{HashMap, keep_if, is_empty, get-remove, get-insert, get-of_is_empty}
use ruts.DashMap.{DashMap}
use ruts.SessionId.{SessionId, Base64, to_string, same_session}
use ruts.Store.Codec.{Error, Codec, serialize_value, serialize-cases, deserialize_value}
use ruts.Store.Memory.Expiry.{StoredValue, Fields, Clock, is_live, determine_expiry, or_default}
use ruts.Store.Memory.{cleanup_expired, get, delete, remove, insert_field, set}
use ruts.Store.Memory.View.{
  visible-missing, visible-found, visible-or_default, visible, visible-cleanup_expired,
  visible-insert, visible-drop, visible-same,
}

module _ (b64 : Base64) (dash : DashMap Fields) where
  -- what `get` returns for a value that it found
  abbrev pub decoded : {T : Type 0} → Codec T → Option StoredValue → Result Error (Option T)
  decoded codec none = ok none
  decoded codec (some v) = map_some (deserialize_value codec v.bytes)

  -- `get` decodes what is visible at its instant, and changes nothing.
  pub get-visible :
      {T : Type 0} (codec : Codec T) (clock : Clock) (session_id : SessionId) (field : String)
      (table : dash.Table)
      → get b64 dash codec clock session_id field table
        ≡ (decoded codec (visible b64 dash clock.swept table session_id field), table)
  unfolding get visible
  get-visible codec clock session_id field table = ground arith

  module _ (clock : Clock) (t : ℕ) (from : clock.swept ≤ t) (table : dash.Table)
      (id : SessionId) where
    abbrev swept : dash.Table
    swept = cleanup_expired b64 dash clock.swept table

    -- the value that `set` leaves in its field
    abbrev written : {T : Type 0} → Codec T → T → Option ℕ → Option StoredValue → Option StoredValue
    written codec value expires_at before = elim (serialize_value codec value) [
      | ok bytes ↦ keep_if (is_live t) (some (record { bytes = bytes; expires_at = expires_at }))
      | err e ↦ before
      | panic ↦ before
    ]

    -- After `delete` nothing of the session is visible, and all else is as it was.
    pub visible-delete :
        (j : SessionId) (f : String)
        → visible b64 dash t (delete b64 dash clock id table).1 j f
          ≡ (if same_session b64 id j then none else visible b64 dash t table j f)
    unfolding delete
    visible-delete j f = ground (
      arith,
      visible-drop b64 dash t id swept j f,
      visible-cleanup_expired b64 dash clock.swept t table j f from,
      visible-same b64 dash t swept id j f,
      visible-missing b64 dash t swept id f,
    )

    -- After `remove`, at any instant from its sweep on, the field is not visible, and all else is
    -- as it was.
    pub visible-remove :
        (field : String) (j : SessionId) (f : String)
        → visible b64 dash t (remove b64 dash clock id field table).1 j f
          ≡ (if same_session b64 id j && str_eq field f then none else visible b64 dash t table j f)
    unfolding remove or_default
    visible-remove field j f = elim (Option-cases (dash.get swept (to_string b64 id))) [
      | inl e ↦ ground (
        arith,
        visible-cleanup_expired b64 dash clock.swept t table j f from,
        visible-same b64 dash t swept id j f,
        visible-missing b64 dash t swept id f,
      )
      | inr (fields, e) ↦ ground (
        arith,
        visible-drop b64 dash t id swept j f,
        visible-insert b64 dash t id (HashMap.remove field fields) swept j f,
        visible-cleanup_expired b64 dash clock.swept t table j f from,
        visible-same b64 dash t swept id j f,
        get-remove fields field f,
        get-of_is_empty (HashMap.remove field fields) f,
        visible-found b64 dash t swept id fields f,
      )
    ]

    visible-insert_field :
        {T : Type 0} (codec : Codec T) (field : String) (value : T) (key_ttl field_ttl : ℤ)
        (j : SessionId) (f : String)
        → visible b64 dash t
            (insert_field b64 dash codec clock id field value key_ttl field_ttl table).1
            j
            f
          ≡ (if same_session b64 id j && str_eq field f
              then written codec value
                  (determine_expiry clock.stored key_ttl field_ttl)
                  (visible b64 dash t table j f)
              else visible b64 dash t table j f)
    unfolding insert_field or_default
    visible-insert_field codec field value key_ttl field_ttl j f =
        let fields = or_default (dash.get swept (to_string b64 id)) in
        let expires_at = determine_expiry clock.stored key_ttl field_ttl in
        elim (serialize-cases codec value) [
          | inl (bytes, e) ↦
              let stored : StoredValue = record { bytes = bytes; expires_at = expires_at } in
              ground (
                arith,
                visible-insert b64 dash t id (HashMap.insert field stored fields) swept j f,
                visible-cleanup_expired b64 dash clock.swept t table j f from,
                visible-same b64 dash t swept id j f,
                get-insert fields field f stored,
                visible-or_default b64 dash t swept id f,
              )
          | inr e ↦ ground (
            arith,
            visible-insert b64 dash t id fields swept j f,
            visible-cleanup_expired b64 dash clock.swept t table j f from,
            visible-same b64 dash t swept id j f,
            visible-or_default b64 dash t swept id f,
          )
        ]

    -- What can be read after `set`, at any instant from its sweep on. A session lifetime of 0
    -- deletes the session, a field lifetime of 0 removes the field; else the value is there until
    -- it expires. If encoding it fails nothing changes. All other fields and sessions are as they
    -- were.
    pub visible-set :
        {T : Type 0} (codec : Codec T) (field : String) (value : T) (key_ttl field_ttl : ℤ)
        (hot : Option ℤ) (j : SessionId) (f : String)
        → visible b64 dash t
            (set b64 dash codec clock id field value key_ttl field_ttl hot table).1
            j
            f
          ≡ (if key_ttl ==ℤ pos 0
              then (if same_session b64 id j then none else visible b64 dash t table j f)
              else if same_session b64 id j && str_eq field f
              then (if field_ttl ==ℤ pos 0
                  then none
                  else written codec value
                      (determine_expiry clock.stored key_ttl field_ttl)
                      (visible b64 dash t table j f))
              else visible b64 dash t table j f)
    unfolding set
    visible-set codec field value key_ttl field_ttl hot j f = ground (
      arith,
      visible-delete j f,
      visible-remove field j f,
      visible-insert_field codec field value key_ttl field_ttl j f,
    )
