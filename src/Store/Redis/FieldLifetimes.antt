-- ===== src/Store/Redis/FieldLifetimes.antt =====
-- src/store/redis/lua.rs: the lifetime of a field and of a new session after a `set`.
use ruts.Prelude.{
  String, ◌≡◌, ◌⊎◌, inl, inr, ◌≢◌, Bool, true, false, ℤ, pos, ltb_ℤ, persistent, Option, some,
  arith, eq_iff,
}
use ruts.Outcome.{ok}
use ruts.SessionId.{SessionId, Base64, to_string}
use ruts.Store.Codec.{Bytes, Codec, serialize_value}
use ruts.Store.Redis.Server.{Redis}
use ruts.Store.Redis.Lua.{expire_field, write_field, extend, set_script}
use ruts.Store.Redis.Lifetimes.{write_field_lem}
use ruts.Store.Redis.{set}

-- HTTL, which the store does not send: the lifetime of a field that is there, -1 where it has none.
-- HEXPIRE with a positive lifetime sets it and HPERSIST drops it; the lifetime of the key is another.
pub record FieldLifetimes (redis : Redis) : Type 0 where
  pub httl : String → String → redis.State → ℤ
  pub httl-hexpire :
      (k f : String) (n : ℤ) (v : Bytes) (s : redis.State)
      → redis.hget k f s ≡ some v
      → ltb_ℤ (pos 0) n ≡ true
      → httl k f (redis.hexpire k n f s) ≡ n
  pub httl-hpersist :
      (k f : String) (v : Bytes) (s : redis.State)
      → redis.hget k f s ≡ some v
      → httl k f (redis.hpersist k f s) ≡ persistent
  pub httl-persist : (k f : String) (s : redis.State) → httl k f (redis.persist k s) ≡ httl k f s
  pub httl-expire :
      (k f : String) (n : ℤ) (s : redis.State)
      → ltb_ℤ (pos 0) n ≡ true
      → httl k f (redis.expire k n s).1 ≡ httl k f s

module _ (redis : Redis) (lifetimes : FieldLifetimes redis) where
  -- a lifetime in seconds, or none
  abbrev pub IsLifetime : ℤ → Type 0
  IsLifetime ttl = (ltb_ℤ (pos 0) ttl ≡ true) ⊎ (ttl ≡ persistent)

  lifetime-nonzero : (ttl : ℤ) → IsLifetime ttl → ttl ≢ pos 0
  lifetime-nonzero ttl (inl positive) e = ground arith
  lifetime-nonzero ttl (inr never) e = ground arith

  write_field-httl :
      (key field : String) (value : Bytes) (ttl : ℤ) (s : redis.State)
      → IsLifetime ttl
      → lifetimes.httl key field (write_field redis key field value ttl s) ≡ ttl
  unfolding write_field expire_field
  write_field-httl key field value ttl s given =
      let hashed = redis.hset key field value s in
      let there : redis.hget key field hashed ≡ some value =
        ground (
          arith,
          redis.hget-hset key field value s key field,
          eq_iff key key,
          eq_iff field field,
        ) in
      elim given [
        | inl positive ↦ ground (arith, lifetimes.httl-hexpire key field ttl value hashed there)
        | inr never ↦ ground (arith, lifetimes.httl-hpersist key field value hashed there)
      ]

  extend-httl :
      (key field : String) (existed : Bool) (ttl : ℤ) (s : redis.State)
      → lifetimes.httl key field (extend redis key existed ttl s).1 ≡ lifetimes.httl key field s
  unfolding extend
  extend-httl key field existed ttl s =
      ground (arith, lifetimes.httl-persist key field s, lifetimes.httl-expire key field ttl s)

  module _ (b64 : Base64) {T : Type 0} (codec : Codec T) (id : SessionId) (field : String)
      (value : T) (key_ttl field_ttl : ℤ) (hot : Option ℤ) (bytes : Bytes) (s : redis.State)
      (encoded : serialize_value codec value ≡ ok bytes) (given : IsLifetime field_ttl) where
    -- A `set` of a value that is encoded, with a field lifetime that is positive or -1, gives the field
    -- that lifetime in the server, whatever the field and the session had before and whatever the
    -- lifetime of the session.
    pub set-field_lifetime :
        lifetimes.httl
          (to_string b64 id)
          field
          (set b64 redis codec id field value key_ttl field_ttl hot s).1
        ≡ field_ttl
    unfolding set set_script
    set-field_lifetime =
        let key = to_string b64 id in
        let written = write_field redis key field bytes field_ttl s in
        ground (
          arith,
          write_field-httl key field bytes field_ttl s given,
          extend-httl key field (redis.exists key s) key_ttl written,
        )

    -- A `set` of a value that is encoded, in a session that is not there, with a field lifetime and a
    -- session lifetime that are each positive or -1, reports the session lifetime, and the session
    -- then has it in the server.
    pub set-starts :
        IsLifetime key_ttl
        → redis.exists (to_string b64 id) s ≡ false
        → ((set b64 redis codec id field value key_ttl field_ttl hot s).0 ≡ ok key_ttl)
          × (redis.ttl
                (to_string b64 id)
                (set b64 redis codec id field value key_ttl field_ttl hot s).1
              ≡ key_ttl)
    unfolding set set_script extend
    set-starts wanted absent =
        let key = to_string b64 id in
        let written = write_field redis key field bytes field_ttl s in
        let (there, kept) =
          write_field_lem redis key field bytes field_ttl s (lifetime-nonzero field_ttl given) in
        elim wanted [
          | inl positive ↦
              (ground arith, ground (arith, redis.ttl-expire key key_ttl written there positive))
          | inr never ↦ (ground arith, ground (arith, redis.ttl-persist key written there))
        ]
