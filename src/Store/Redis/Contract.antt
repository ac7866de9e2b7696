-- ===== src/Store/Redis/Contract.antt =====
-- src/store/redis: the Redis store meets the contract of a store. Instants do not pass in the record of
-- the server, so that the contract speaks of the instant of the operation.
use ruts.Prelude.{
  ℕ, String, ◌≡◌, ◌≢◌, Bool, true, ◌||◌, ℤ, pos, ltb_ℤ, ◌==ℤ◌, persistent, gone, eq_iff, arith,
}
use ruts.Outcome.{ok}
use ruts.SessionId.{SessionId, Base64, to_string}
use ruts.Store.Codec.{Bytes}
use ruts.Store.Contract.{Timed, View, Meets}
use ruts.Store.Redis as Methods
use ruts.Store.Redis.Server.{Redis}
use ruts.Store.Redis.Lua.{
  write_field, extend, set_script, set_renamed, set_and_rename_script, remove_script,
}
use ruts.Store.Redis.Fields.{hget-set, hget-set_and_rename}
use ruts.Store.Redis.Lifetimes.{write_field_lem}

-- a lifetime that is not over at once, where no time passes
abbrev pub lasts : ℕ → ℤ → ℕ → Bool
lasts now ttl t = ttl ==ℤ persistent || ltb_ℤ (pos 0) ttl

module _ (redis : Redis) where
  -- a lifetime that is reported is above -2, and the session is there
  extend-above :
      (key : String) (existed : Bool) (ttl : ℤ) (s : redis.State)
      → lasts 0 ttl 0 ≡ true
      → redis.exists key s ≡ true
      → (ltb_ℤ gone (extend redis key existed ttl s).0 ≡ true)
        × (redis.exists key (extend redis key existed ttl s).1 ≡ true)
  unfolding extend
  extend-above key existed ttl s l there =
      (ground arith, ground (arith, redis.exists-persist key s, redis.exists-expire key ttl s))

  set_script-above :
      (key field : String) (value : Bytes) (key_ttl field_ttl : ℤ) (s : redis.State)
      → lasts 0 key_ttl 0 ≡ true
      → lasts 0 field_ttl 0 ≡ true
      → (ltb_ℤ gone (set_script redis key field value key_ttl field_ttl s).0 ≡ true)
        × (redis.exists key (set_script redis key field value key_ttl field_ttl s).1 ≡ true)
  unfolding set_script
  set_script-above key field value key_ttl field_ttl s k l =
      let nonzero : field_ttl ≢ pos 0 = λ e. ground arith in
      let written = write_field redis key field value field_ttl s in
      let (there, kept) = write_field_lem redis key field value field_ttl s nonzero in
      ground (arith, extend-above key (redis.exists key s) key_ttl written k there)

  set_renamed-above :
      (existed : Bool) (key field : String) (value : Bytes) (key_ttl field_ttl : ℤ)
      (s : redis.State)
      → lasts 0 key_ttl 0 ≡ true
      → lasts 0 field_ttl 0 ≡ true
      → (ttl : ℤ) × ((set_renamed redis existed key field value key_ttl field_ttl s).0 ≡ ok ttl)
        × (ltb_ℤ gone ttl ≡ true)
  unfolding set_renamed
  set_renamed-above existed key field value key_ttl field_ttl s k l =
      let nonzero : field_ttl ≢ pos 0 = λ e. ground arith in
      let written = write_field redis key field value field_ttl s in
      let (there, kept) = write_field_lem redis key field value field_ttl s nonzero in
      let above = extend-above key existed key_ttl written k there in
      ((extend redis key existed key_ttl written).0, ground arith, above.0)

module _ (b64 : Base64) (redis : Redis) where
  abbrev pub redis_timed : Timed
  redis_timed = record {
    State = redis.State;
    get = λ now codec. Methods.get b64 redis codec;
    get_all = λ now. Methods.get_all b64 redis;
    set = λ now codec. Methods.set b64 redis codec;
    set_and_rename = λ now codec. Methods.set_and_rename b64 redis codec;
    rename_session_id = λ now. Methods.rename_session_id b64 redis;
    remove = λ now. Methods.remove b64 redis;
    delete = λ now. Methods.delete b64 redis;
    expire = λ now. Methods.expire b64 redis;
  }

  abbrev pub redis_view : View redis.State
  redis_view = record {
    IsValid = λ s. Unit {0};
    view = λ t s id f. redis.hget (to_string b64 id) f s;
    known = λ t s id. redis.exists (to_string b64 id) s;
    lasts = lasts;
  }

  -- The Redis store meets the contract, at the instant of the operation.
  pub redis-Meets : Meets b64 redis_timed redis_view
  unfolding Methods.get Methods.set Methods.set_and_rename Methods.rename_session_id Methods.remove
      Methods.delete set_and_rename_script remove_script
  redis-Meets = record {
    get-view = λ codec now id field s. ground arith;
    set-view = λ codec now t id field value key_ttl field_ttl hot bytes s valid order encoded k l.
        let key = to_string b64 id in
        let (ttl, s') = set_script redis key field bytes key_ttl field_ttl s in
        let (above, there) = set_script-above redis key field bytes key_ttl field_ttl s k l in
        let after = λ (j : SessionId) (f : String).
          hget-set redis b64 codec id field value key_ttl field_ttl hot bytes s j f encoded in
        (
          ttl,
          s',
          ground arith,
          above,
          ground (arith, after id field, eq_iff key key, eq_iff field field),
          λ f b other seen. ground (arith, after id f),
          λ j f other. ground (arith, after j f),
          there,
          tt,
        );
    set_and_rename-view =
        λ codec now t old new field value key_ttl field_ttl hot bytes s valid order encoded k l
            distinct here free.
          let o = to_string b64 old in
          let n = to_string b64 new in
          let renamed = (redis.renamenx o n s).1 in
          let (ttl, answered, above) =
            set_renamed-above redis true n field bytes key_ttl field_ttl renamed k l in
          let s' = (set_renamed redis true n field bytes key_ttl field_ttl renamed).1 in
          let after = λ (j : SessionId) (f : String).
            hget-set_and_rename redis b64 codec old new field value key_ttl field_ttl hot bytes s j
              f encoded here free in
          let moved : (Methods.set_and_rename b64 redis codec old new field value key_ttl field_ttl
                hot s)
              ≡ (ok ttl, s') =
            ground (arith, redis.renamenx-free o n s here free) in
          (
            ttl,
            s',
            moved,
            above,
            ground (arith, moved, after new field, eq_iff n n, eq_iff field field),
            λ f b other seen. ground (arith, moved, after new f, eq_iff n n),
            λ f. ground (arith, moved, after old f, eq_iff o o),
            λ j f p q. ground (arith, moved, after j f),
            tt,
          );
    rename-view = λ now t old new field bytes s valid order distinct here readable free.
        let o = to_string b64 old in
        let n = to_string b64 new in
        let (r, s') = redis.renamenx o n s in
        let after = λ (j : SessionId) (f : String). redis.hget-renamenx o n s (to_string b64 j) f in
        (
          s',
          ground (arith, redis.renamenx-free o n s here free),
          λ f. ground (arith, after new f, eq_iff n n),
          λ f. ground (arith, after old f, eq_iff o o),
          λ j f p q. ground (arith, after j f),
          tt,
        );
    remove-view = λ now t id field s valid order.
        let key = to_string b64 id in
        let (ttl, s') = remove_script redis key field s in
        (
          ttl,
          s',
          ground arith,
          ground (arith, redis.hget-hdel key field s key field, eq_iff key key, eq_iff field field),
          λ j f other. ground (arith, redis.hget-hdel key field s (to_string b64 j) f),
          tt,
        );
    delete-view = λ now t id s valid order.
        let key = to_string b64 id in
        let (done, s') = redis.del key s in
        (
          done,
          s',
          ground arith,
          λ f. ground (arith, redis.hget-del key s key f, eq_iff key key),
          λ j f other. ground (arith, redis.hget-del key s (to_string b64 j) f),
          tt,
        );
  }
