-- ===== src/Store/Memory/Moves.antt =====
-- src/store/memory/mod.rs: `rename_session_id`, `set_and_rename` and `expire`, by what can be read
-- after them at an instant `t`.
use ruts.Prelude.{
  ℕ, ◌+◌, ◌*◌, ◌≤◌, ◌<◌, String, ◌≡◌, ◌≢◌, ◌⊎◌, true, false, ◌&&◌, Option, none, some, arith,
  str_eq, eq_iff, if◌then◌else◌, Option-cases, inl, inr, ℤ, pos, ltb_ℤ, to_nat,
}
use ruts.Outcome.{ok, err}
use ruts.HashMap
use ruts.HashMap.{
  HashMap, keep_if, map_option, is_empty, get-remove, get-insert, get-map_values, get-of_is_empty,
}
use ruts.DashMap.{DashMap}
use ruts.SessionId.{SessionId, Base64, to_string, same_session}
use ruts.Store.Codec.{Error, Bytes, Codec, serialize_value}
use ruts.Store.Memory.Expiry.{
  nanos, StoredValue, Fields, Clock, is_live, restamp, determine_expiry, or_default,
}
use ruts.Store.Memory.{cleanup_expired, finish, set_and_rename, rename_session_id, expire}
use ruts.Store.Memory.View.{
  field_of, visible, visible-cleanup_expired, visible-insert, visible-drop, visible-same,
  visible-missing, visible-found, visible-or_default,
}

-- the instant that `expire` writes to each field
abbrev pub expiry_of : Clock → ℤ → Option ℕ
expiry_of clock seconds =
    if ltb_ℤ seconds (pos 0) then none else some (clock.stored + to_nat seconds * nanos)

module _ (b64 : Base64) (dash : DashMap Fields) (clock : Clock) (t : ℕ) (from : clock.swept ≤ t)
    (table : dash.Table) (old new : SessionId) where
  abbrev swept : dash.Table
  swept = cleanup_expired b64 dash clock.swept table

  -- The view in which `new` shows what `old` showed, and `old` nothing.
  abbrev pub moved : SessionId → String → Option StoredValue
  moved j f =
      if same_session b64 new j
      then visible b64 dash t table old f
      else if same_session b64 old j
      then none
      else visible b64 dash t table j f

  -- `rename_session_id` that returns true moves the session; one that returns false changes nothing
  -- that can be read.
  pub visible-rename_session_id :
      (j : SessionId) (f : String)
      → ((rename_session_id b64 dash clock old new table).0 ≡ ok true
          × (visible b64 dash t (rename_session_id b64 dash clock old new table).1 j f ≡ moved j f))
        ⊎ ((rename_session_id b64 dash clock old new table).0 ≡ ok false
            × (visible b64 dash t (rename_session_id b64 dash clock old new table).1 j f
                ≡ visible b64 dash t table j f))
  unfolding rename_session_id
  visible-rename_session_id j f = elim (Option-cases (dash.get swept (to_string b64 new))) [
    | inr (fields, e) ↦ inr (
      ground arith,
      ground (arith, visible-cleanup_expired b64 dash clock.swept t table j f from),
    )
    | inl absent ↦ elim (Option-cases (dash.get swept (to_string b64 old))) [
      | inl e ↦ inr (
        ground arith,
        ground (arith, visible-cleanup_expired b64 dash clock.swept t table j f from),
      )
      | inr (fields, e) ↦ inl (
        ground arith,
        ground (
          arith,
          visible-insert b64 dash t new fields (dash.remove (to_string b64 old) swept) j f,
          visible-drop b64 dash t old swept j f,
          visible-cleanup_expired b64 dash clock.swept t table j f from,
          visible-cleanup_expired b64 dash clock.swept t table old f from,
          visible-found b64 dash t swept old fields f e,
        ),
      )
    ]
  ]

  -- the fields of `old`, as `set_and_rename` takes them out of the map
  abbrev taken : Fields
  taken = or_default (dash.get swept (to_string b64 old))

  visible-finish :
      (fields : Fields) (j : SessionId) (f : String)
      → is_empty fields ≡ false
      → visible b64 dash t
          (finish b64 dash clock new fields (dash.remove (to_string b64 old) swept)).1
          j
          f
        ≡ (if same_session b64 new j
            then keep_if (is_live t) (HashMap.get fields f)
            else if same_session b64 old j
            then none
            else visible b64 dash t table j f)
  unfolding finish
  visible-finish fields j f h = ground (
    arith,
    visible-insert b64 dash t new fields (dash.remove (to_string b64 old) swept) j f,
    visible-drop b64 dash t old swept j f,
    visible-cleanup_expired b64 dash clock.swept t table j f from,
  )

  module _ {T : Type 0} (codec : Codec T) (field : String) (value : T) (key_ttl field_ttl : ℤ)
      (hot : Option ℤ) (keeps_session : key_ttl ≢ pos 0) (keeps_field : field_ttl ≢ pos 0) where
    -- In the in-memory store, with lifetimes other than 0 and a value that is encoded,
    -- `set_and_rename` moves all that
    -- could be read of the old session, at any instant from its sweep on, to the new one, with
    -- the value in its field until it expires, and drops what stood under the new session.
    pub visible-set_and_rename :
        (bytes : Bytes)
        → serialize_value codec value ≡ ok bytes
        → (j : SessionId) (f : String)
        → visible b64 dash t
            (set_and_rename b64 dash codec clock old new field value key_ttl field_ttl hot table).1
            j
            f
          ≡ (if same_session b64 new j && str_eq field f
              then keep_if (is_live t) (
                  some (record {
                    bytes = bytes;
                    expires_at = determine_expiry clock.stored key_ttl field_ttl;
                  }))
              else moved j f)
    unfolding set_and_rename HashMap.insert
    visible-set_and_rename bytes e j f =
        let stored : StoredValue = record {
          bytes = bytes;
          expires_at = determine_expiry clock.stored key_ttl field_ttl;
        } in
        ground (
          arith,
          visible-finish (HashMap.insert field stored taken) j f,
          get-insert taken field f stored,
          visible-or_default b64 dash t swept old f,
          visible-cleanup_expired b64 dash clock.swept t table old f from,
        )

    -- With lifetimes other than 0, where encoding the value fails, `set_and_rename` returns that
    -- error, and nothing can be read under the old session at any instant from its sweep on.
    pub visible-set_and_rename_failing :
        (x : Error)
        → serialize_value codec value ≡ err x
        → ((set_and_rename b64 dash codec clock old new field value key_ttl field_ttl hot table).0
            ≡ err x)
          × ((f : String)
              → visible b64 dash t
                  (set_and_rename b64 dash codec clock old new field value key_ttl field_ttl hot
                    table).1
                  old
                  f
                ≡ none)
    unfolding set_and_rename
    visible-set_and_rename_failing x e = (
      ground arith,
      λ f. ground (
        arith,
        visible-drop b64 dash t old swept old f,
        eq_iff (to_string b64 old) (to_string b64 old),
      ),
    )

  -- `expire` with a lifetime other than 0 sets one expiry on every field of the session that is
  -- in the map, the expired ones too, and leaves other sessions alone.
  pub visible-expire :
      (seconds : ℤ) (j : SessionId) (f : String)
      → seconds ≢ pos 0
      → visible b64 dash t (expire b64 dash clock old seconds table).1 j f ≡ (
          if same_session b64 old j
          then keep_if (is_live t) (
              map_option
                (restamp (expiry_of clock seconds))
                (field_of (dash.get table (to_string b64 old)) f))
          else visible b64 dash t table j f)
  unfolding expire
  visible-expire seconds j f h = elim (Option-cases (dash.get table (to_string b64 old))) [
    | inl e ↦
        ground
          (arith, visible-missing b64 dash t table old f e, visible-same b64 dash t table old j f)
    | inr (fields, e) ↦
        let stamp = restamp (expiry_of clock seconds) in
        ground (
          arith,
          visible-insert b64 dash t old (HashMap.map_values stamp fields) table j f,
          get-map_values stamp fields f,
        )
  ]

  -- `expire` with a positive lifetime makes every field that is still in the map readable until
  -- that lifetime ends, whether or not the field had expired before.
  pub expire-revives :
      (seconds : ℤ) (f : String) (fields : Fields) (v : StoredValue)
      → dash.get table (to_string b64 old) ≡ some fields
      → HashMap.get fields f ≡ some v
      → ltb_ℤ (pos 0) seconds ≡ true
      → t < clock.stored + to_nat seconds * nanos
      → visible b64 dash t (expire b64 dash clock old seconds table).1 old f
        ≡ some (restamp (expiry_of clock seconds) v)
  unfolding is_live
  expire-revives seconds f fields v in_map at_field positive early =
      ground (arith, visible-expire seconds old f, eq_iff (to_string b64 old) (to_string b64 old))
