-- ===== src/Store/Layered.antt =====
-- src/store/layered/mod.rs: `LayeredStore`, a cache ("hot") before a durable store ("cold"), over any
-- two stores. The state is the pair of theirs.
pub mod Warming
pub mod Answers
pub mod Coherence
pub mod Refill
pub mod Evicted
pub mod Undeleted
use ruts.Prelude.{
  String, ℤ, pos, ◌==ℤ◌, Option, none, some, Bool, true, false, ◌&&◌, List, [], ◌∷◌, if◌then◌else◌,
}
use ruts.Outcome.{Result, ok, err, panic, Action, and_then, continue, pure, ◌>>=◌}
use ruts.HashMap
use ruts.HashMap.{HashMap}
use ruts.SessionId.{SessionId}
use ruts.Store.Codec.{Error, Bytes, Codec}
use ruts.Store.SessionMap
use ruts.Store.SessionMap.{SessionMap}
use ruts.Store.Trait.{SessionStore}
use ruts.Store.LayeredTrait.{LayeredHotStore, LayeredColdStore, Pair}
use ruts.Store.Join.{Race, try_join}

-- `hot_cache_ttl == Some(0)`
abbrev pub is_zero : Option ℤ → Bool
is_zero none = false
is_zero (some ttl) = ttl ==ℤ pos 0

-- The closure of `filter_map` panics on a field that the map of lifetimes lacks (`unwrap`).
unfoldable pub pairs_to_cache : HashMap Bytes → HashMap (Option ℤ) → Result Error (List Pair)
pairs_to_cache [] ttls = ok []
pairs_to_cache ((key, value) ∷ fields) ttls = elim (HashMap.get ttls key) [
  | none ↦ panic
  | some ttl ↦
      and_then (pairs_to_cache fields ttls)
        (λ rest. ok (if is_zero ttl then rest else (key, value, ttl) ∷ rest))
]

-- `hot_cache_ttl_secs.unwrap_or(field_ttl_secs)`
abbrev pub hot_ttl : ℤ → Option ℤ → ℤ
hot_ttl field_ttl_secs none = field_ttl_secs
hot_ttl field_ttl_secs (some ttl) = ttl

module _ {H C : Type 0} where
  abbrev pub on_hot : {A : Type 0} → Action H Error A → Action (H × C) Error A
  on_hot m s = let (r, h) = m s.0 in (r, (h, s.1))

  abbrev pub on_cold : {A : Type 0} → Action C Error A → Action (H × C) Error A
  on_cold m s = let (r, c) = m s.1 in (r, (s.0, c))

  -- `tokio::try_join!` on a call of each store
  unfoldable pub on_both :
      {A B : Type 0} → Race → Action H Error A → Action C Error B → Action (H × C) Error (A × B)
  unfolding try_join
  on_both race m n s = let (r, h, c) = try_join race m n s.0 s.1 in (r, (h, c))

module _ (hot cold : SessionStore) (warm : LayeredHotStore hot) (meta : LayeredColdStore cold)
    (race : Race) where
  abbrev pub State : Type 0
  State = hot.State × cold.State

  -- the hot store is written only if there is something to write
  unfoldable pub cache : SessionId → List Pair → Action State Error (Unit {0})
  cache session_id [] s = (ok tt, s)
  cache session_id (pair ∷ pairs) s =
      (on_hot (warm.set_multiple session_id (pair ∷ pairs)) >>= λ _. pure tt) s

  -- what `get` and `get_all` do with the answer of the cold store
  unfoldable pub warm_up :
      SessionId → SessionMap × HashMap (Option ℤ) → Action State Error (Unit {0})
  unfolding cache pairs_to_cache
  warm_up session_id (session_map, ttls) s =
      continue (pairs_to_cache session_map.fields ttls) (cache session_id) s

  unfoldable pub get_from_cold :
      {T : Type 0}
      → Codec T
      → SessionId
      → String
      → Option (SessionMap × HashMap (Option ℤ))
      → Action State Error (Option T)
  unfolding warm_up
  get_from_cold codec session_id field none s = (ok none, s)
  get_from_cold codec session_id field (some found) s =
      (warm_up session_id found >>= λ _ s'. (SessionMap.get codec found.0 field, s')) s

  unfoldable pub get_behind_cache :
      {T : Type 0} → Codec T → SessionId → String → Option T → Action State Error (Option T)
  unfolding get_from_cold
  get_behind_cache codec session_id field (some value) s = (ok (some value), s)
  get_behind_cache codec session_id field none s =
      (on_cold (meta.get_all_with_meta session_id) >>= get_from_cold codec session_id field) s

  unfoldable pub get : {T : Type 0} → Codec T → SessionId → String → Action State Error (Option T)
  unfolding get_behind_cache
  get codec session_id field =
      on_hot (hot.get codec session_id field) >>= get_behind_cache codec session_id field

  unfoldable pub get_all_from_cold :
      SessionId → Option (SessionMap × HashMap (Option ℤ)) → Action State Error (Option SessionMap)
  unfolding warm_up
  get_all_from_cold session_id none s = (ok none, s)
  get_all_from_cold session_id (some found) s =
      (warm_up session_id found >>= λ _. pure (some found.0)) s

  unfoldable pub get_all : SessionId → Action State Error (Option SessionMap)
  unfolding get_all_from_cold
  get_all session_id = on_cold (meta.get_all_with_meta session_id) >>= get_all_from_cold session_id

  unfoldable pub set :
      {T : Type 0} → Codec T → SessionId → String → T → ℤ → ℤ → Option ℤ → Action State Error ℤ
  unfolding on_both
  set codec session_id field value key_ttl_secs field_ttl_secs hot_cache_ttl_secs =
      let ttl = hot_ttl field_ttl_secs hot_cache_ttl_secs in
      on_both race (hot.set codec session_id field value ttl ttl none)
        (meta.set_with_meta codec session_id field value key_ttl_secs field_ttl_secs (some ttl))
      >>= λ answers. pure answers.1

  unfoldable pub set_and_rename :
      {T : Type 0}
      → Codec T
      → SessionId
      → SessionId
      → String
      → T
      → ℤ
      → ℤ
      → Option ℤ
      → Action State Error ℤ
  unfolding on_both
  set_and_rename codec old new field value key_ttl_secs field_ttl_secs hot_cache_ttl_secs =
      let ttl = hot_ttl field_ttl_secs hot_cache_ttl_secs in
      on_both race (hot.set_and_rename codec old new field value ttl ttl none) (
        meta.set_and_rename_with_meta codec old new field value key_ttl_secs field_ttl_secs
          (some ttl))
      >>= λ answers. pure answers.1

  unfoldable pub rename_session_id : SessionId → SessionId → Action State Error Bool
  unfolding on_both
  rename_session_id old new =
      on_both race (hot.rename_session_id old new) (cold.rename_session_id old new) >>= λ answers.
      pure (answers.0 && answers.1)

  unfoldable pub remove : SessionId → String → Action State Error ℤ
  unfolding on_both
  remove session_id field =
      on_both race (hot.remove session_id field) (cold.remove session_id field) >>= λ answers.
      pure answers.1

  unfoldable pub delete : SessionId → Action State Error Bool
  unfolding on_both
  delete session_id = on_both race (hot.delete session_id) (cold.delete session_id) >>= λ answers.
      pure (answers.0 && answers.1)

  unfoldable pub expire : SessionId → ℤ → Action State Error Bool
  unfolding on_both
  expire session_id seconds =
      on_both race (hot.expire session_id seconds) (cold.expire session_id seconds) >>= λ answers.
      pure (answers.0 && answers.1)

  -- the implementation of the trait
  abbrev pub layered_store : SessionStore
  layered_store = record {
    State = State;
    get = λ codec. get codec;
    get_all = get_all;
    set = λ codec. set codec;
    set_and_rename = λ codec. set_and_rename codec;
    rename_session_id = rename_session_id;
    remove = remove;
    delete = delete;
    expire = expire;
  }
