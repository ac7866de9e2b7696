-- ===== src/Store/Redis/Lua.antt =====
-- src/store/redis/lua.rs: the scripts, as functions over the commands of the server. An error reply
-- is an error with its message.
use ruts.Prelude.{
  zero, suc, String, Bool, true, false, not, ◌&&◌, ℤ, pos, ltb_ℤ, ◌==ℤ◌, persistent, gone, none,
  some, List, [], ◌∷◌, if◌then◌else◌,
}
use ruts.Outcome.{Result, ok, err, panic}
use ruts.Store.Codec.{Bytes}
use ruts.Store.LayeredTrait.{Pair}
use ruts.Store.Redis.Server.{Redis}

-- the first loop of `SET_MULTIPLE_SCRIPT`: -1 if a field does not expire, else the longest lifetime;
-- `tonumber` of a missing lifetime is nil
unfoldable pub longest : ℤ → Bool → List Pair → ℤ
longest max_finite_ttl has_persistent_field [] =
    if has_persistent_field then persistent else max_finite_ttl
longest max_finite_ttl has_persistent_field ((field, value, none) ∷ args) =
    longest max_finite_ttl has_persistent_field args
longest max_finite_ttl has_persistent_field ((field, value, some f_ttl) ∷ args) =
    if f_ttl ==ℤ persistent
    then longest max_finite_ttl true args
    else longest (if ltb_ℤ max_finite_ttl f_ttl then f_ttl else max_finite_ttl) has_persistent_field
        args

module _ (redis : Redis) where
  -- the lifetime of one field
  unfoldable pub expire_field : String → String → ℤ → redis.State → redis.State
  expire_field key field field_ttl s =
      if ltb_ℤ (pos 0) field_ttl
      then redis.hexpire key field_ttl field s
      else if field_ttl ==ℤ persistent
      then redis.hpersist key field s
      else s

  -- the branches on `field_ttl`
  unfoldable pub write_field : String → String → Bytes → ℤ → redis.State → redis.State
  unfolding expire_field
  write_field key field value field_ttl s =
      if field_ttl ==ℤ pos 0
      then (redis.hdel key field s).1
      else expire_field key field field_ttl (redis.hset key field value s)

  -- the end of the scripts: the lifetime of the key, which is never shortened
  unfoldable pub extend : String → Bool → ℤ → redis.State → ℤ × redis.State
  extend key key_existed key_ttl s =
      if key_ttl ==ℤ persistent
      then (persistent, redis.persist key s)
      else if ltb_ℤ (pos 0) key_ttl
      then (if not key_existed
          then (key_ttl, (redis.expire key key_ttl s).1)
          else if redis.ttl key s ==ℤ persistent
          then (persistent, s)
          else if ltb_ℤ (redis.ttl key s) key_ttl
          then (key_ttl, (redis.expire key key_ttl s).1)
          else (redis.ttl key s, s))
      else (redis.ttl key s, s)

  -- `SET_SCRIPT`
  unfoldable pub set_script : String → String → Bytes → ℤ → ℤ → redis.State → ℤ × redis.State
  unfolding write_field extend
  set_script key field value key_ttl field_ttl s =
      let written = write_field key field value field_ttl s in
      if field_ttl ==ℤ pos 0 && not (redis.exists key written)
      then (gone, written)
      else extend key (redis.exists key s) key_ttl written

  -- `SET_AND_RENAME_SCRIPT` behind the rename
  unfoldable pub set_renamed :
      Bool → String → String → Bytes → ℤ → ℤ → redis.State → Result String ℤ × redis.State
  unfolding write_field extend
  set_renamed key_existed_before_rename new_key field value key_ttl field_ttl s =
      let written = write_field new_key field value field_ttl s in
      if not (redis.exists new_key written)
      then (ok gone, written)
      else let (ttl, s') = extend new_key key_existed_before_rename key_ttl written in (ok ttl, s')

  -- `SET_AND_RENAME_SCRIPT`
  unfoldable pub set_and_rename_script :
      String → String → String → Bytes → ℤ → ℤ → redis.State → Result String ℤ × redis.State
  unfolding set_renamed
  set_and_rename_script old_key new_key field value key_ttl field_ttl s =
      if redis.exists new_key s
      then (err "Target session ID already exists", s)
      else if redis.exists old_key s
      then (let (r, renamed) = redis.renamenx old_key new_key s in
          elim r [
            | ok true ↦ set_renamed true new_key field value key_ttl field_ttl renamed
            | ok false ↦ (err "Target session ID collision during RENAME", renamed)
            | err message ↦ (err message, renamed)
            | panic ↦ (panic, renamed)
          ])
      else set_renamed false new_key field value key_ttl field_ttl s

  -- `REMOVE_SCRIPT`
  unfoldable pub remove_script : String → String → redis.State → ℤ × redis.State
  remove_script key field s =
      let (removed, s') = redis.hdel key field s in
      elim removed [ zero ↦ (gone, s') | suc n ↦ (redis.ttl key s', s') ]

  -- the call of HSET with all pairs
  unfoldable pub hset_all : String → List Pair → redis.State → redis.State
  hset_all key [] s = s
  hset_all key ((field, value, ttl) ∷ args) s = hset_all key args (redis.hset key field value s)

  -- the last loop
  unfoldable pub expire_all : String → List Pair → redis.State → redis.State
  unfolding expire_field
  expire_all key [] s = s
  expire_all key ((field, value, none) ∷ args) s = expire_all key args s
  expire_all key ((field, value, some f_ttl) ∷ args) s =
      expire_all key args (expire_field key field f_ttl s)

  -- `SET_MULTIPLE_SCRIPT`; the client sends whole triples
  unfoldable pub set_multiple_script : String → List Pair → redis.State → ℤ × redis.State
  unfolding longest hset_all expire_all extend
  set_multiple_script key args s =
      extend key (redis.exists key s) (longest (pos 0) false args)
        (expire_all key args (hset_all key args s))
