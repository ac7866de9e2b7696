-- ===== src/Examples/Uncached.antt =====
-- examples/layered_store.rs, the route "/set_cold_only": a lifetime of 0 in the cache, over Redis and
-- Postgres.
use ruts.Prelude.{
  ℕ, ◌≤◌, String, ◌≡◌, true, ◌&&◌, none, some, ℤ, pos, negsuc, gone, ltb_ℤ, arith, if◌then◌else◌,
  str_eq, Bool-cases, inl, inr,
}
use ruts.Outcome.{ok}
use ruts.HashMap.{map_option}
use ruts.SessionId.{SessionId, Base64, to_string}
use ruts.Store.Codec.{Codec, Bytes, serialize_value}
use ruts.Store.Trait.{SessionStore}
use ruts.Store.Join.{Race}
use ruts.Store.Layered
use ruts.Store.Layered.{layered_store}
use ruts.Store.Postgres.Tables.{FieldRow, Db}
use ruts.Store.Postgres.Traits.{postgres_store, postgres_meta}
use ruts.Store.Postgres.Upserts.{lasts, lasts-nonzero}
use ruts.Store.Postgres.View.{shown}
use ruts.Store.Postgres.Writes.{shown-set_with_meta}
use ruts.Store.Redis as Methods
use ruts.Store.Redis.{redis_store, redis_hot}
use ruts.Store.Redis.Lua.{set_script}
use ruts.Store.Redis.Server.{Redis}
use ruts.Session.State.{required_session_ttl}
use ruts.Session.{World}
use ruts.Session.Effects.{set_answered}
use ruts.Examples.Layered as Example

-- a session whose lifetime is that of the field
required_session_ttl_same : (ttl : ℤ) → required_session_ttl ttl ttl ≡ ttl
unfolding required_session_ttl
required_session_ttl_same (pos n) = ground arith
required_session_ttl_same (negsuc n) = ground arith

module _ (b64 : Base64) (redis : Redis) {T : Type 0} (codec : Codec T) where
  -- With lifetimes of 0, the Redis store deletes the field.
  pub set_zero :
      (id : SessionId) (field : String) (value : T) (bytes : Bytes) (s : redis.State)
      → serialize_value codec value ≡ ok bytes
      → (ttl : ℤ) × (Methods.set b64 redis codec id field value (pos 0) (pos 0) none s
          ≡ (ok ttl, (redis.hdel (to_string b64 id) field s).1))
  unfolding Methods.set set_script
  set_zero id field value bytes s encoded =
      let key = to_string b64 id in
      elim (Bool-cases (redis.exists key (redis.hdel key field s).1)) [
        | inl e ↦ (redis.ttl key (redis.hdel key field s).1, ground arith)
        | inr e ↦ (gone, ground arith)
      ]

  module _ (duplicate_key : String) (now later : ℕ) (order : now ≤ later) (race : Race)
      (Cookies Key : Type 0) where
    abbrev store : SessionStore
    store =
        layered_store (redis_store b64 redis) (postgres_store b64 duplicate_key now)
          (redis_hot b64 redis) (postgres_meta b64 duplicate_key now) race

    -- The route "/set_cold_only" over Redis and Postgres, on a session with an id and none pending,
    -- with a value that is encoded, succeeds. Redis then has no such field, whatever it had before,
    -- and all other fields as they were; Postgres shows the value while the default lifetime of the
    -- session lasts.
    pub set_cold_only-uncached :
        (w : World Cookies Key (redis.State × Db)) (h : redis.State) (db : Db)
        (id fresh : SessionId) (user : T) (bytes : Bytes)
        → w.inner.id ≡ some id
        → w.inner.pending_id ≡ none
        → w.store ≡ (h, db)
        → serialize_value codec user ≡ ok bytes
        → lasts now w.inner.cookie_max_age later ≡ true
        → (h' : redis.State) × (db' : Db) × ((Example.set_cold_only Cookies Key store codec fresh
              user w).0
            ≡ ok tt)
          × ((Example.set_cold_only Cookies Key store codec fresh user w).1.store ≡ (h', db'))
          × ((j g : String)
              → redis.hget j g h' ≡ (
                  if str_eq (to_string b64 id) j && str_eq "user_3" g
                  then none
                  else redis.hget j g h))
          × (map_option (λ (r : FieldRow). r.value) (shown b64 later db' id "user_3") ≡ some bytes)
    unfolding Example.set_cold_only Layered.set
    set_cold_only-uncached w h db id fresh user bytes named none_pending at_hand encoded lasting =
        let cma = w.inner.cookie_max_age in
        let k = lasts-nonzero now later cma order lasting in
        let (n, deleted) = set_zero id "user_3" user bytes h encoded in
        let (m, db', stored, row, others, sessions) =
          shown-set_with_meta b64 duplicate_key now later codec db id "user_3" user cma cma
            (some (pos 0)) bytes k k encoded lasting in
        let h' = (redis.hdel (to_string b64 id) "user_3" h).1 in
        let same = required_session_ttl_same cma in
        let answered : store.set codec id "user_3" user cma cma (some (pos 0)) (h, db)
            ≡ (ok m, (h', db')) =
          ground arith in
        let whole =
          set_answered Cookies Key store w codec fresh "user_3" user none (some (pos 0)) m (h', db')
            (ground (arith, same, answered)) in
        (
          h',
          db',
          elim (Bool-cases (ltb_ℤ gone m)) [
            | inl e ↦ ground (arith, whole)
            | inr e ↦ ground (arith, whole)
          ],
          elim (Bool-cases (ltb_ℤ gone m)) [
            | inl e ↦ ground (arith, whole)
            | inr e ↦ ground (arith, whole)
          ],
          λ j g. redis.hget-hdel (to_string b64 id) "user_3" h j g,
          ground (arith, row),
        )
