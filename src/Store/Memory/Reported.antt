-- ===== src/Store/Memory/Reported.antt =====
-- src/store/memory/mod.rs: the lifetimes that `set` and `set_and_rename` report.
use ruts.Prelude.{ℕ, String, ◌≡◌, ◌≢◌, true, Option, some, arith, eq_iff, ℤ, pos}
use ruts.Outcome.{ok}
use ruts.HashMap
use ruts.HashMap.{get-of_is_empty, HashMap, values, keep_if, is_empty, get-insert}
use ruts.DashMap.{DashMap}
use ruts.SessionId.{SessionId, Base64, to_string}
use ruts.Store.Codec.{Bytes, Codec, serialize_value}
use ruts.Store.Memory.Expiry.{StoredValue, Fields, Clock, is_live, determine_expiry, or_default}
use ruts.Store.Memory.Ttl.{Covers, get_ttl-Covers}
use ruts.Store.Memory.{set_and_rename, cleanup_expired, get_ttl, insert_field, set}
use ruts.Store.Memory.View.{visible}

module _ (b64 : Base64) (dash : DashMap Fields) where
  -- a session that was just written reports a lifetime that covers each of its live fields
  inserted-Covers :
      (now : ℕ) (table : dash.Table) (id : SessionId) (fields : Fields) (f : String)
      (v : StoredValue)
      → HashMap.get fields f ≡ some v
      → is_live now v ≡ true
      → Covers now v.expires_at
          (get_ttl b64 dash now id (dash.insert (to_string b64 id) fields table))
  inserted-Covers now table id fields f v at live =
      let key = to_string b64 id in
      let t' = dash.insert key fields table in
      let there : dash.get t' key ≡ some fields =
        ground (arith, dash.get-insert table key key fields, eq_iff key key) in
      get_ttl-Covers b64 dash now t' id f v (unfold visible in ground arith)

  -- A `set` with lifetimes other than 0, of a value that is encoded and has not expired when the
  -- lifetime is read, succeeds, and reports a lifetime that covers the value's expiry.
  pub set-Covers :
      {T : Type 0} (codec : Codec T) (clock : Clock) (table : dash.Table) (id : SessionId)
      (field : String) (value : T) (key_ttl field_ttl : ℤ) (hot : Option ℤ) (bytes : Bytes)
      → key_ttl ≢ pos 0
      → field_ttl ≢ pos 0
      → serialize_value codec value ≡ ok bytes
      → is_live clock.read
          (record { bytes = bytes; expires_at = determine_expiry clock.stored key_ttl field_ttl })
        ≡ true
      → (ttl : ℤ) × ((set b64 dash codec clock id field value key_ttl field_ttl hot table).0
          ≡ ok ttl)
        × Covers clock.read (determine_expiry clock.stored key_ttl field_ttl) ttl
  set-Covers codec clock table id field value key_ttl field_ttl hot bytes k f e live =
      let stored : StoredValue = record {
        bytes = bytes;
        expires_at = determine_expiry clock.stored key_ttl field_ttl;
      } in
      let swept = cleanup_expired b64 dash clock.swept table in
      let taken = or_default (dash.get swept (to_string b64 id)) in
      let fields = HashMap.insert field stored taken in
      let at : HashMap.get fields field ≡ some stored =
        ground (arith, get-insert taken field field stored, eq_iff field field) in
      (
        get_ttl b64 dash clock.read id (dash.insert (to_string b64 id) fields swept),
        unfold set insert_field in ground arith,
        inserted-Covers clock.read swept id fields field stored at live,
      )

  -- So does a `set_and_rename`, of the session under its new id.
  pub set_and_rename-Covers :
      {T : Type 0} (codec : Codec T) (clock : Clock) (table : dash.Table) (old new : SessionId)
      (field : String) (value : T) (key_ttl field_ttl : ℤ) (hot : Option ℤ) (bytes : Bytes)
      → key_ttl ≢ pos 0
      → field_ttl ≢ pos 0
      → serialize_value codec value ≡ ok bytes
      → is_live clock.read
          (record { bytes = bytes; expires_at = determine_expiry clock.stored key_ttl field_ttl })
        ≡ true
      → (ttl : ℤ) × ((set_and_rename b64 dash codec clock old new field value key_ttl field_ttl hot
            table).0
          ≡ ok ttl)
        × Covers clock.read (determine_expiry clock.stored key_ttl field_ttl) ttl
  set_and_rename-Covers codec clock table old new field value key_ttl field_ttl hot bytes k f e
        live =
      let stored : StoredValue = record {
        bytes = bytes;
        expires_at = determine_expiry clock.stored key_ttl field_ttl;
      } in
      let swept = cleanup_expired b64 dash clock.swept table in
      let detached = dash.remove (to_string b64 old) swept in
      let taken = or_default (dash.get swept (to_string b64 old)) in
      let fields = HashMap.insert field stored taken in
      let at : HashMap.get fields field ≡ some stored =
        ground (arith, get-insert taken field field stored, eq_iff field field) in
      (
        get_ttl b64 dash clock.read new (dash.insert (to_string b64 new) fields detached),
        unfold set_and_rename HashMap.insert in ground arith,
        inserted-Covers clock.read detached new fields field stored at live,
      )
