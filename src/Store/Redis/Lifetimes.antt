-- ===== src/Store/Redis/Lifetimes.antt =====
-- src/store/redis: the lifetime of a session after a `set`, and the one that is reported.
use ruts.Prelude.{
  String, ◌≡◌, ◌≢◌, Bool, true, ℤ, pos, ltb_ℤ, ◌==ℤ◌, max_ℤ, persistent, Option, arith,
  if◌then◌else◌, Bool-cases, inl, inr,
}
use ruts.Outcome.{ok}
use ruts.SessionId.{SessionId, Base64, to_string}
use ruts.Store.Codec.{Bytes, Codec, serialize_value}
use ruts.Store.Redis.Server.{Redis}
use ruts.Store.Redis.Lua.{expire_field, write_field, extend, set_script}
use ruts.Store.Redis.{set}

module _ (redis : Redis) where
  -- a field that is written makes its key exist, and keeps the lifetime of a key that existed
  pub write_field_lem :
      (key field : String) (value : Bytes) (ttl : ℤ) (s : redis.State)
      → ttl ≢ pos 0
      → (redis.exists key (write_field redis key field value ttl s) ≡ true)
        × (redis.exists key s ≡ true
            → redis.ttl key (write_field redis key field value ttl s) ≡ redis.ttl key s)
  unfolding write_field expire_field
  write_field_lem key field value ttl s nonzero =
      let hashed = redis.hset key field value s in
      (
        ground (
          arith,
          redis.exists-hset key field value s,
          redis.exists-hexpire key field ttl hashed,
          redis.exists-hpersist key field hashed,
        ),
        λ existed. ground (
          arith,
          redis.ttl-hset key field value s,
          redis.ttl-hexpire key field ttl hashed,
          redis.ttl-hpersist key field hashed,
        ),
      )

  -- the lifetime that `extend` returns is the one that the key then has
  extend_lem :
      (key : String) (existed : Bool) (ttl : ℤ) (s : redis.State)
      → redis.exists key s ≡ true
      → (extend redis key existed ttl s).0 ≡ redis.ttl key (extend redis key existed ttl s).1
  unfolding extend
  extend_lem key existed ttl s there =
      ground (arith, redis.ttl-persist key s there, redis.ttl-expire key ttl s there)

  set_script_lem :
      (key field : String) (value : Bytes) (key_ttl field_ttl : ℤ) (s : redis.State)
      → (set_script redis key field value key_ttl field_ttl s).0
        ≡ redis.ttl key (set_script redis key field value key_ttl field_ttl s).1
  unfolding set_script
  set_script_lem key field value key_ttl field_ttl s =
      let written = write_field redis key field value field_ttl s in
      elim (Bool-cases (redis.exists key written)) [
        | inl there ↦ ground (arith, extend_lem key (redis.exists key s) key_ttl written there)
        | inr absent ↦ ground (
          arith,
          redis.ttl-exists key written absent,
          write_field_lem key field value field_ttl s,
        )
      ]

  module _ (b64 : Base64) {T : Type 0} (codec : Codec T) (id : SessionId) (field : String)
      (value : T) (key_ttl field_ttl : ℤ) (hot : Option ℤ) (bytes : Bytes) (s : redis.State)
      (encoded : serialize_value codec value ≡ ok bytes) where
    -- A `set` whose value is encoded succeeds, and reports the lifetime that the session then has in
    -- the server, on every branch of the script.
    pub set-reports :
        (set b64 redis codec id field value key_ttl field_ttl hot s).0
        ≡ ok (
            redis.ttl
              (to_string b64 id)
              (set b64 redis codec id field value key_ttl field_ttl hot s).1)
    unfolding set
    set-reports = ground (arith, set_script_lem (to_string b64 id) field bytes key_ttl field_ttl s)

    -- A `set` whose value is encoded, with a session lifetime above 0 and a field lifetime other than
    -- 0, never shortens the lifetime of a session that is there: one that does not expire stays so,
    -- and else the longer one of the two lifetimes is taken.
    pub set-extends :
        field_ttl ≢ pos 0
        → ltb_ℤ (pos 0) key_ttl ≡ true
        → redis.exists (to_string b64 id) s ≡ true
        → redis.ttl
            (to_string b64 id)
            (set b64 redis codec id field value key_ttl field_ttl hot s).1
          ≡ (if redis.ttl (to_string b64 id) s ==ℤ persistent
              then persistent
              else max_ℤ (redis.ttl (to_string b64 id) s) key_ttl)
    unfolding set set_script extend
    set-extends nonzero positive existed =
        let key = to_string b64 id in
        let written = write_field redis key field bytes field_ttl s in
        let (there, kept) = write_field_lem key field bytes field_ttl s nonzero in
        ground (arith, there, kept existed, redis.ttl-expire key key_ttl written there positive)
