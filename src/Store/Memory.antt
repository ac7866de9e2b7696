-- ===== src/Store/Memory.antt =====
-- src/store/memory/mod.rs: `MemoryStore`, sessions in a concurrent map. An operation is one
-- step: no other thread changes the map while it runs, but in Interleaving.antt.
pub mod Expiry
pub mod View
pub mod Effects
pub mod Moves
pub mod Renames
pub mod Ttl
pub mod Longest
pub mod Interleaving
pub mod Races
pub mod Renamers
pub mod Exclusive
pub mod Winner
pub mod Reported
pub mod Answers
pub mod Contract
pub mod Expires
use ruts.Prelude.{
  ℕ, ◌+◌, ◌-◌, ◌*◌, ◌/◌, String, Bool, true, false, not, ◌&&◌, ◌||◌, Option, none, some, List, [],
  ◌∷◌, ltb, if◌then◌else◌, ℤ, pos, negsuc, ◌==ℤ◌, ltb_ℤ, min_ℤ, to_nat, persistent, gone,
}
use ruts.Outcome.{Result, ok, err, panic, Action, continue, ◌>>=◌, pure, and_then, map_some}
use ruts.HashMap
use ruts.HashMap.{HashMap, values, is_empty}
use ruts.DashMap.{DashMap}
use ruts.SessionId.{SessionId, Base64, to_string}
use ruts.Store.Codec.{Error, Bytes, Codec, serialize_value, deserialize_value}
use ruts.Store.SessionMap.{SessionMap}
use ruts.Store.Trait.{SessionStore}
use ruts.Store.Memory.Expiry.{
  nanos, StoredValue, Fields, Clock, is_live, determine_expiry, later, remaining, scan, sweep,
  or_default, restamp,
}

module _ (b64 : Base64) (dash : DashMap Fields) where
  -- `MemoryStore::new`, and `Default`
  unfoldable pub new : dash.Table
  new = dash.new

  unfoldable pub cleanup_expired : ℕ → dash.Table → dash.Table
  unfolding sweep
  cleanup_expired now t = dash.retain (sweep now) t

  unfoldable pub get_ttl : ℕ → SessionId → dash.Table → ℤ
  unfolding scan to_string
  get_ttl now session_id t = elim (dash.get t (to_string b64 session_id)) [
    | none ↦ gone
    | some fields ↦ if is_empty fields then gone else scan now none (values fields)
  ]

  unfoldable pub delete : Clock → SessionId → Action dash.Table Error Bool
  unfolding cleanup_expired to_string
  delete clock session_id t =
      let key = to_string b64 session_id in
      let swept = cleanup_expired clock.swept t in
      elim (dash.get swept key) [
        | none ↦ (ok false, swept)
        | some _ ↦ (ok true, dash.remove key swept)
      ]

  unfoldable pub remove : Clock → SessionId → String → Action dash.Table Error ℤ
  unfolding cleanup_expired get_ttl to_string
  remove clock session_id field t =
      let key = to_string b64 session_id in
      let swept = cleanup_expired clock.swept t in
      elim (dash.get swept key) [
        | none ↦ (ok gone, swept)
        | some fields ↦
            let fields' = HashMap.remove field fields in
            if is_empty fields'
            then (ok gone, dash.remove key swept)
            else let t' = dash.insert key fields' swept in
              (ok (get_ttl clock.read session_id t'), t')
      ]

  -- the end of `set_and_rename`
  finish : Clock → SessionId → Fields → Action dash.Table Error ℤ
  unfolding get_ttl to_string
  finish clock new_session_id fields t =
      if is_empty fields
      then (ok gone, t)
      else let t' = dash.insert (to_string b64 new_session_id) fields t in
        (ok (get_ttl clock.read new_session_id t'), t')

  module _ {T : Type 0} (codec : Codec T) where
    unfoldable pub get : Clock → SessionId → String → Action dash.Table Error (Option T)
    unfolding is_live to_string
    get clock session_id field t = elim (dash.get t (to_string b64 session_id)) [
      | none ↦ (ok none, t)
      | some fields ↦ elim (HashMap.get fields field) [
        | none ↦ (ok none, t)
        | some v ↦
            if is_live clock.swept v
            then (map_some (deserialize_value codec v.bytes), t)
            else (ok none, t)
      ]
    ]

    -- `set` behind its two guards: `or_default` has put the session there before `?` returns
    insert_field : Clock → SessionId → String → T → ℤ → ℤ → Action dash.Table Error ℤ
    unfolding cleanup_expired get_ttl or_default determine_expiry to_string HashMap.insert
    insert_field clock session_id field value key_ttl_secs field_ttl_secs t =
        let key = to_string b64 session_id in
        let swept = cleanup_expired clock.swept t in
        let expires_at = determine_expiry clock.stored key_ttl_secs field_ttl_secs in
        let fields = or_default (dash.get swept key) in
        elim (serialize_value codec value) [
          | err e ↦ (err e, dash.insert key fields swept)
          | panic ↦ (panic, dash.insert key fields swept)
          | ok bytes ↦
              let stored : StoredValue = record { bytes = bytes; expires_at = expires_at } in
              let t' = dash.insert key (HashMap.insert field stored fields) swept in
              (ok (get_ttl clock.read session_id t'), t')
        ]

    unfoldable pub set :
        Clock → SessionId → String → T → ℤ → ℤ → Option ℤ → Action dash.Table Error ℤ
    unfolding delete remove insert_field
    set clock session_id field value key_ttl_secs field_ttl_secs _ t =
        if key_ttl_secs ==ℤ pos 0
        then (do _ ← delete clock session_id; pure gone) t
        else if field_ttl_secs ==ℤ pos 0
        then remove clock session_id field t
        else insert_field clock session_id field value key_ttl_secs field_ttl_secs t

    -- `set_and_rename` behind its guard
    move_session : Clock → SessionId → SessionId → String → T → ℤ → ℤ → Action dash.Table Error ℤ
    unfolding cleanup_expired or_default determine_expiry to_string finish HashMap.insert
    move_session clock old_session_id new_session_id field value key_ttl_secs field_ttl_secs t =
        let old_key = to_string b64 old_session_id in
        let swept = cleanup_expired clock.swept t in
        let fields = or_default (dash.get swept old_key) in
        let detached = dash.remove old_key swept in
        if field_ttl_secs ==ℤ pos 0
        then finish clock new_session_id (HashMap.remove field fields) detached
        else elim (serialize_value codec value) [
          | err e ↦ (err e, detached)
          | panic ↦ (panic, detached)
          | ok bytes ↦
              let expires_at = determine_expiry clock.stored key_ttl_secs field_ttl_secs in
              let stored : StoredValue = record { bytes = bytes; expires_at = expires_at } in
              finish clock new_session_id (HashMap.insert field stored fields) detached
        ]

    unfoldable pub set_and_rename :
        Clock → SessionId → SessionId → String → T → ℤ → ℤ → Option ℤ → Action dash.Table Error ℤ
    unfolding delete move_session
    set_and_rename clock old_session_id new_session_id field value key_ttl_secs field_ttl_secs _ t =
        if key_ttl_secs ==ℤ pos 0
        then (do _ ← delete clock old_session_id; pure gone) t
        else move_session clock old_session_id new_session_id field value key_ttl_secs
            field_ttl_secs t

  unfoldable pub rename_session_id : Clock → SessionId → SessionId → Action dash.Table Error Bool
  unfolding cleanup_expired to_string
  rename_session_id clock old_session_id new_session_id t =
      let old_key = to_string b64 old_session_id in
      let new_key = to_string b64 new_session_id in
      let swept = cleanup_expired clock.swept t in
      elim (dash.get swept new_key) [
        | some _ ↦ (ok false, swept)
        | none ↦ elim (dash.get swept old_key) [
          | none ↦ (ok false, swept)
          | some fields ↦ (ok true, dash.insert new_key fields (dash.remove old_key swept))
        ]
      ]

  unfoldable pub expire : Clock → SessionId → ℤ → Action dash.Table Error Bool
  unfolding delete to_string HashMap.map_values
  expire clock session_id seconds t =
      if seconds ==ℤ pos 0
      then delete clock session_id t
      else elim (dash.get t (to_string b64 session_id)) [
        | none ↦ (ok false, t)
        | some fields ↦
            let expires_at =
              if ltb_ℤ seconds (pos 0)
              then none
              else some (clock.stored + to_nat seconds * nanos) in
            let stamped = HashMap.map_values (restamp expires_at) fields in
            (ok true, dash.insert (to_string b64 session_id) stamped t)
      ]

  -- `unimplemented!`
  unfoldable pub get_all : SessionId → Action dash.Table Error (Option SessionMap)
  get_all session_id t = (panic, t)

  -- the implementation of the trait, at the instants that the clock gives to an operation
  abbrev pub memory_store : Clock → SessionStore
  memory_store clock = record {
    State = dash.Table;
    get = λ codec. get codec clock;
    get_all = get_all;
    set = λ codec. set codec clock;
    set_and_rename = λ codec. set_and_rename codec clock;
    rename_session_id = rename_session_id clock;
    remove = remove clock;
    delete = delete clock;
    expire = expire clock;
  }
