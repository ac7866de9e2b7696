-- ===== src/Store/Redis.antt =====
-- src/store/redis/mod.rs: `RedisStore`, a hash per session. The connection works and the scripts are
-- loaded, of which Scripts.antt tells: the only errors are the server's replies.
pub mod Server
pub mod Lua
pub mod Fields
pub mod Lifetimes
pub mod FieldLifetimes
pub mod Contract
pub mod Scripts
use ruts.Prelude.{String, ℤ, gone, Option, none, some, Bool, List, [], ◌∷◌}
use ruts.Outcome.{Result, ok, err, panic, Action, map_err, map_some}
use ruts.HashMap.{map_option}
use ruts.SessionId.{SessionId, Base64, to_string}
use ruts.Store.Codec.{Error, backend, Bytes, Codec, serialize_value, deserialize_value}
use ruts.Store.SessionMap.{SessionMap}
use ruts.Store.Trait.{SessionStore}
use ruts.Store.LayeredTrait.{LayeredHotStore, Pair}
use ruts.Store.Redis.Server.{Redis}
use ruts.Store.Redis.Lua.{set_script, set_and_rename_script, remove_script, set_multiple_script}

module _ (b64 : Base64) (redis : Redis) where
  unfoldable pub get_all : SessionId → Action redis.State Error (Option SessionMap)
  unfolding to_string
  get_all session_id s =
      (ok (map_option (λ m. record { fields = m }) (redis.hgetall (to_string b64 session_id) s)), s)

  unfoldable pub rename_session_id : SessionId → SessionId → Action redis.State Error Bool
  unfolding to_string
  rename_session_id old_session_id new_session_id s =
      let (r, s') =
        redis.renamenx (to_string b64 old_session_id) (to_string b64 new_session_id) s in
      (map_err backend r, s')

  unfoldable pub remove : SessionId → String → Action redis.State Error ℤ
  unfolding to_string remove_script
  remove session_id field s =
      let (ttl, s') = remove_script redis (to_string b64 session_id) field s in (ok ttl, s')

  unfoldable pub delete : SessionId → Action redis.State Error Bool
  unfolding to_string
  delete session_id s = let (done, s') = redis.del (to_string b64 session_id) s in (ok done, s')

  unfoldable pub expire : SessionId → ℤ → Action redis.State Error Bool
  unfolding to_string
  expire session_id seconds s =
      let (done, s') = redis.expire (to_string b64 session_id) seconds s in (ok done, s')

  unfoldable pub set_multiple : SessionId → List Pair → Action redis.State Error ℤ
  unfolding to_string set_multiple_script
  set_multiple session_id [] s = (ok gone, s)
  set_multiple session_id (pair ∷ pairs) s =
      let (ttl, s') = set_multiple_script redis (to_string b64 session_id) (pair ∷ pairs) s in
      (ok ttl, s')

  module _ {T : Type 0} (codec : Codec T) where
    unfoldable pub get : SessionId → String → Action redis.State Error (Option T)
    unfolding to_string
    get session_id field s = elim (redis.hget (to_string b64 session_id) field s) [
      | none ↦ (ok none, s)
      | some value ↦ (map_some (deserialize_value codec value), s)
    ]

    -- `insert_update` with the first script
    unfoldable pub set : SessionId → String → T → ℤ → ℤ → Option ℤ → Action redis.State Error ℤ
    unfolding to_string set_script
    set session_id field value key_ttl_secs field_ttl_secs _ s =
        elim (serialize_value codec value) [
          | err e ↦ (err e, s)
          | panic ↦ (panic, s)
          | ok bytes ↦
              let (ttl, s') =
                set_script redis (to_string b64 session_id) field bytes key_ttl_secs field_ttl_secs
                  s in
              (ok ttl, s')
        ]

    -- `insert_update` with the second script
    unfoldable pub set_and_rename :
        SessionId → SessionId → String → T → ℤ → ℤ → Option ℤ → Action redis.State Error ℤ
    unfolding to_string set_and_rename_script
    set_and_rename old_session_id new_session_id field value key_ttl_secs field_ttl_secs _ s =
        elim (serialize_value codec value) [
          | err e ↦ (err e, s)
          | panic ↦ (panic, s)
          | ok bytes ↦
              let (r, s') =
                set_and_rename_script redis (to_string b64 old_session_id)
                  (to_string b64 new_session_id) field bytes key_ttl_secs field_ttl_secs s in
              (map_err backend r, s')
        ]

  abbrev pub redis_store : SessionStore
  redis_store = record {
    State = redis.State;
    get = λ codec. get codec;
    get_all = get_all;
    set = λ codec. set codec;
    set_and_rename = λ codec. set_and_rename codec;
    rename_session_id = rename_session_id;
    remove = remove;
    delete = delete;
    expire = expire;
  }

  abbrev pub redis_hot : LayeredHotStore redis_store
  redis_hot = record { set_multiple = set_multiple }
