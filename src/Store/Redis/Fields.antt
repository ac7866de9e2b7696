-- ===== src/Store/Redis/Fields.antt =====
-- src/store/redis: what a session's fields are after each script.
use ruts.Prelude.{
  String, ◌≡◌, refl, Bool, true, false, ◌&&◌, ℤ, pos, ◌==ℤ◌, Option, none, some, List, [], ◌∷◌,
  arith, str_eq, eq_iff, if◌then◌else◌,
}
use ruts.Outcome.{ok, err}
use ruts.SessionId.{SessionId, Base64, to_string, same_session}
use ruts.Store.Codec.{Bytes, Codec, serialize_value, backend}
use ruts.Store.LayeredTrait.{Pair}
use ruts.Session
use ruts.Session.{World}
use ruts.Session.State.{session_state_deleted}
use ruts.Store.Redis.Server.{Redis}
use ruts.Store.Redis.Lua.{
  expire_field, write_field, extend, set_script, set_renamed, set_and_rename_script, hset_all,
  expire_all, set_multiple_script, longest,
}
use ruts.Store.Redis.{set, set_and_rename, remove, set_multiple, redis_store}

module _ (redis : Redis) where
  hget-expire_field :
      (key field : String) (ttl : ℤ) (s : redis.State) (j g : String)
      → redis.hget j g (expire_field redis key field ttl s) ≡ redis.hget j g s
  unfolding expire_field
  hget-expire_field key field ttl s j g =
      ground (arith, redis.hget-hexpire key field ttl s j g, redis.hget-hpersist key field s j g)

  pub hget-write_field :
      (key field : String) (value : Bytes) (ttl : ℤ) (s : redis.State) (j g : String)
      → redis.hget j g (write_field redis key field value ttl s) ≡ (
          if str_eq key j && str_eq field g
          then (if ttl ==ℤ pos 0 then none else some value)
          else redis.hget j g s)
  unfolding write_field
  hget-write_field key field value ttl s j g = ground (
    arith,
    redis.hget-hdel key field s j g,
    hget-expire_field key field ttl (redis.hset key field value s) j g,
    redis.hget-hset key field value s j g,
  )

  hget-extend :
      (key : String) (existed : Bool) (ttl : ℤ) (s : redis.State) (j g : String)
      → redis.hget j g (extend redis key existed ttl s).1 ≡ redis.hget j g s
  unfolding extend
  hget-extend key existed ttl s j g =
      ground (arith, redis.hget-persist key s j g, redis.hget-expire key ttl s j g)

  hget-set_script :
      (key field : String) (value : Bytes) (key_ttl field_ttl : ℤ) (s : redis.State) (j g : String)
      → redis.hget j g (set_script redis key field value key_ttl field_ttl s).1 ≡ (
          if str_eq key j && str_eq field g
          then (if field_ttl ==ℤ pos 0 then none else some value)
          else redis.hget j g s)
  unfolding set_script
  hget-set_script key field value key_ttl field_ttl s j g =
      let written = write_field redis key field value field_ttl s in
      ground (
        arith,
        hget-write_field key field value field_ttl s j g,
        hget-extend key (redis.exists key s) key_ttl written j g,
      )

  hget-set_renamed :
      (existed : Bool) (key field : String) (value : Bytes) (key_ttl field_ttl : ℤ)
      (s : redis.State) (j g : String)
      → redis.hget j g (set_renamed redis existed key field value key_ttl field_ttl s).1 ≡ (
          if str_eq key j && str_eq field g
          then (if field_ttl ==ℤ pos 0 then none else some value)
          else redis.hget j g s)
  unfolding set_renamed
  hget-set_renamed existed key field value key_ttl field_ttl s j g =
      let written = write_field redis key field value field_ttl s in
      ground (
        arith,
        hget-write_field key field value field_ttl s j g,
        hget-extend key existed key_ttl written j g,
      )

  -- what the last pair for a field says, else what was there
  abbrev pub last_value : String → List Pair → Option Bytes → Option Bytes
  last_value f [] before = before
  last_value f ((field, value, ttl) ∷ pairs) before =
      last_value f pairs (if str_eq field f then some value else before)

  hget-hset_all :
      (key : String) (pairs : List Pair) (s : redis.State) (f : String)
      → redis.hget key f (hset_all redis key pairs s) ≡ last_value f pairs (redis.hget key f s)
  unfolding hset_all
  hget-hset_all key [] s f = refl
  hget-hset_all key ((field, value, ttl) ∷ pairs) s f =
      let step : redis.hget key f (redis.hset key field value s)
          ≡ (if str_eq field f then some value else redis.hget key f s) =
        ground (arith, redis.hget-hset key field value s key f, eq_iff key key) in
      rw (hget-hset_all key pairs (redis.hset key field value s) f, step) refl

  hget-expire_all :
      (key : String) (pairs : List Pair) (s : redis.State) (f : String)
      → redis.hget key f (expire_all redis key pairs s) ≡ redis.hget key f s
  unfolding expire_all
  hget-expire_all key [] s f = refl
  hget-expire_all key ((field, value, none) ∷ pairs) s f = hget-expire_all key pairs s f
  hget-expire_all key ((field, value, some ttl) ∷ pairs) s f =
      rw (hget-expire_all key pairs (expire_field redis key field ttl s) f)
        (hget-expire_field key field ttl s key f)

  module _ (b64 : Base64) where
    -- What the hot store is given to cache can be read from it at once: each field has the value of
    -- its last pair, and fields without a pair are as they were.
    pub hget-set_multiple :
        (id : SessionId) (pairs : List Pair) (s : redis.State) (f : String)
        → redis.hget (to_string b64 id) f (set_multiple b64 redis id pairs s).1
          ≡ last_value f pairs (redis.hget (to_string b64 id) f s)
    unfolding set_multiple set_multiple_script
    hget-set_multiple id [] s f = refl
    hget-set_multiple id (pair ∷ pairs) s f =
        let key = to_string b64 id in
        let hashed = hset_all redis key (pair ∷ pairs) s in
        rw
          (
            hget-extend key (redis.exists key s) (longest (pos 0) false (pair ∷ pairs))
                (expire_all redis key (pair ∷ pairs) hashed) key f,
            hget-expire_all key (pair ∷ pairs) hashed f,
          )
          (hget-hset_all key (pair ∷ pairs) s f)

    -- A `set` whose value is encoded puts it in its field, or removes the field where its lifetime is
    -- 0, whatever the session's lifetime is; all other fields and sessions are as they were.
    pub hget-set :
        {T : Type 0} (codec : Codec T) (id : SessionId) (field : String) (value : T)
        (key_ttl field_ttl : ℤ) (hot : Option ℤ) (bytes : Bytes) (s : redis.State) (j : SessionId)
        (f : String)
        → serialize_value codec value ≡ ok bytes
        → redis.hget
            (to_string b64 j)
            f
            (set b64 redis codec id field value key_ttl field_ttl hot s).1
          ≡ (if same_session b64 id j && str_eq field f
              then (if field_ttl ==ℤ pos 0 then none else some bytes)
              else redis.hget (to_string b64 j) f s)
    unfolding set
    hget-set codec id field value key_ttl field_ttl hot bytes s j f encoded = ground (
      arith,
      hget-set_script (to_string b64 id) field bytes key_ttl field_ttl s (to_string b64 j) f,
    )

    -- `set_and_rename`, with a value that is encoded, of a session that is there, to an id that
    -- no session has, moves all its fields to the new id, with the value in its own field, or
    -- that field removed where its lifetime is 0.
    pub hget-set_and_rename :
        {T : Type 0} (codec : Codec T) (old new : SessionId) (field : String) (value : T)
        (key_ttl field_ttl : ℤ) (hot : Option ℤ) (bytes : Bytes) (s : redis.State) (j : SessionId)
        (f : String)
        → serialize_value codec value ≡ ok bytes
        → redis.exists (to_string b64 old) s ≡ true
        → redis.exists (to_string b64 new) s ≡ false
        → redis.hget
            (to_string b64 j)
            f
            (set_and_rename b64 redis codec old new field value key_ttl field_ttl hot s).1
          ≡ (if same_session b64 new j
              then (if str_eq field f
                  then (if field_ttl ==ℤ pos 0 then none else some bytes)
                  else redis.hget (to_string b64 old) f s)
              else if same_session b64 old j
              then none
              else redis.hget (to_string b64 j) f s)
    unfolding set_and_rename set_and_rename_script
    hget-set_and_rename codec old new field value key_ttl field_ttl hot bytes s j f encoded here
          free =
        let o = to_string b64 old in
        let n = to_string b64 new in
        let k = to_string b64 j in
        let renamed = (redis.renamenx o n s).1 in
        ground (
          arith,
          redis.renamenx-free o n s here free,
          redis.hget-renamenx o n s k f here free,
          hget-set_renamed true n field bytes key_ttl field_ttl renamed k f,
        )

    -- Where a session has the new id, `set_and_rename` fails and changes nothing.
    pub set_and_rename-taken :
        {T : Type 0} (codec : Codec T) (old new : SessionId) (field : String) (value : T)
        (key_ttl field_ttl : ℤ) (hot : Option ℤ) (bytes : Bytes) (s : redis.State)
        → serialize_value codec value ≡ ok bytes
        → redis.exists (to_string b64 new) s ≡ true
        → set_and_rename b64 redis codec old new field value key_ttl field_ttl hot s
          ≡ (err (backend "Target session ID already exists"), s)
    unfolding set_and_rename set_and_rename_script
    set_and_rename-taken codec old new field value key_ttl field_ttl hot bytes s encoded taken =
        ground arith

    -- Over the Redis store, for a session with an id, removing a field that the store does not have for it reports -2,
    -- so that the session is marked as deleted, and the store is as it was.
    pub remove-missing :
        {Cookies Key : Type 0} (w : World Cookies Key redis.State) (id : SessionId) (field : String)
        → w.inner.id ≡ some id
        → redis.hget (to_string b64 id) field w.store ≡ none
        → Session.remove Cookies Key (redis_store b64 redis) field w
          ≡ (ok false, record w { inner = record w.inner { state = session_state_deleted } })
    unfolding Session.remove remove
    remove-missing w id field named missing =
        ground (arith, redis.hdel-missing (to_string b64 id) field w.store missing)
