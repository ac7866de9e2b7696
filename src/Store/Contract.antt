-- ===== src/Store/Contract.antt =====
-- src/store/store_trait.rs: what a session relies on in a store, as an abstract specification. A store
-- is seen as what can be read of it: a function from instants, sessions and fields to encoded values.
-- src/store/memory, src/store/postgres and src/store/redis are shown to meet it, and src/session is
-- used over any store that does.
use ruts.Prelude.{
  ℕ, ◌≤◌, String, ◌≡◌, Bool, true, false, Option, none, some, ℤ, ltb_ℤ, gone, pos, str_eq,
}
use ruts.Outcome.{Result, ok, Action, map_some}
use ruts.SessionId.{SessionId, Base64, same_session}
use ruts.Store.Codec.{Error, Bytes, Codec, serialize_value, deserialize_value}
use ruts.Store.SessionMap.{SessionMap}
use ruts.Store.Trait.{SessionStore}

-- The methods of a store at each instant, on one state.
pub record Timed : Type 1 where
  pub State : Type 0
  pub get : ℕ → {T : Type 0} → Codec T → SessionId → String → Action State Error (Option T)
  pub get_all : ℕ → SessionId → Action State Error (Option SessionMap)
  pub set :
      ℕ → {T : Type 0} → Codec T → SessionId → String → T → ℤ → ℤ → Option ℤ → Action State Error ℤ
  pub set_and_rename :
      ℕ
      → {T : Type 0} → Codec T
      → SessionId
      → SessionId
      → String
      → T
      → ℤ
      → ℤ
      → Option ℤ
      → Action State Error ℤ
  pub rename_session_id : ℕ → SessionId → SessionId → Action State Error Bool
  pub remove : ℕ → SessionId → String → Action State Error ℤ
  pub delete : ℕ → SessionId → Action State Error Bool
  pub expire : ℕ → SessionId → ℤ → Action State Error Bool

-- the store that the operations of one instant run on
abbrev pub at : Timed → ℕ → SessionStore
at store now = record {
  State = store.State;
  get = λ codec. store.get now codec;
  get_all = store.get_all now;
  set = λ codec. store.set now codec;
  set_and_rename = λ codec. store.set_and_rename now codec;
  rename_session_id = store.rename_session_id now;
  remove = store.remove now;
  delete = store.delete now;
  expire = store.expire now;
}

-- the abstract view of a state
pub record View (State : Type 0) : Type 1 where
  -- what the store keeps true of its state
  pub IsValid : State → Type 0
  -- the value of a field that can be read at an instant
  pub view : ℕ → State → SessionId → String → Option Bytes
  -- whether the store has a session of that id
  pub known : ℕ → State → SessionId → Bool
  -- whether a lifetime that is given at the first instant has not ended at the second
  pub lasts : ℕ → ℤ → ℕ → Bool

-- what `get` makes of the view
abbrev pub read : {T : Type 0} → Codec T → Option Bytes → Result Error (Option T)
read codec none = ok none
read codec (some bytes) = map_some (deserialize_value codec bytes)

module _ (b64 : Base64) {State : Type 0} (v : View State) where
  -- only the session `id` looks different in `s'`, from the instant `t` on
  abbrev pub Only : ℕ → SessionId → State → State → Type 0
  Only t id s s' =
      (j : SessionId) (f : String)
      → same_session b64 id j ≡ false
      → v.view t s' j f ≡ v.view t s j f

-- The contract, for what can be read at an instant `t` not before the operation.
pub record Meets (b64 : Base64) (store : Timed) (v : View store.State) : Type 1 where
  pub get-view :
      {T : Type 0} (codec : Codec T) (now : ℕ) (id : SessionId) (field : String) (s : store.State)
      → store.get now codec id field s ≡ (read codec (v.view now s id field), s)
  pub set-view :
      {T : Type 0} (codec : Codec T) (now t : ℕ) (id : SessionId) (field : String) (value : T)
      (key_ttl field_ttl : ℤ) (hot : Option ℤ) (bytes : Bytes) (s : store.State)
      → v.IsValid s
      → now ≤ t
      → serialize_value codec value ≡ ok bytes
      → v.lasts now key_ttl t ≡ true
      → v.lasts now field_ttl t ≡ true
      → (ttl : ℤ) × (s' : store.State) × (store.set now codec id field value key_ttl field_ttl hot s
          ≡ (ok ttl, s'))
        × (ltb_ℤ gone ttl ≡ true)
        × (v.view t s' id field ≡ some bytes)
        × ((f : String) (b : Bytes)
            → str_eq field f ≡ false
            → v.view t s id f ≡ some b
            → v.view t s' id f ≡ some b)
        × Only b64 v t id s s'
        × (v.known t s' id ≡ true)
        × v.IsValid s'
  pub set_and_rename-view :
      {T : Type 0} (codec : Codec T) (now t : ℕ) (old new : SessionId) (field : String) (value : T)
      (key_ttl field_ttl : ℤ) (hot : Option ℤ) (bytes : Bytes) (s : store.State)
      → v.IsValid s
      → now ≤ t
      → serialize_value codec value ≡ ok bytes
      → v.lasts now key_ttl t ≡ true
      → v.lasts now field_ttl t ≡ true
      → same_session b64 new old ≡ false
      → v.known now s old ≡ true
      → v.known now s new ≡ false
      → (ttl : ℤ) × (s' : store.State) × (store.set_and_rename now codec old new field value key_ttl
            field_ttl hot s
          ≡ (ok ttl, s'))
        × (ltb_ℤ gone ttl ≡ true)
        × (v.view t s' new field ≡ some bytes)
        × ((f : String) (b : Bytes)
            → str_eq field f ≡ false
            → v.view t s old f ≡ some b
            → v.view t s' new f ≡ some b)
        × ((f : String) → v.view t s' old f ≡ none)
        × ((j : SessionId) (f : String)
            → same_session b64 new j ≡ false
            → same_session b64 old j ≡ false
            → v.view t s' j f ≡ v.view t s j f)
        × v.IsValid s'
  pub rename-view :
      (now t : ℕ) (old new : SessionId) (field : String) (bytes : Bytes) (s : store.State)
      → v.IsValid s
      → now ≤ t
      → same_session b64 new old ≡ false
      → v.known now s old ≡ true
      → v.view now s old field ≡ some bytes
      → v.known now s new ≡ false
      → (s' : store.State) × (store.rename_session_id now old new s ≡ (ok true, s'))
        × ((f : String) → v.view t s' new f ≡ v.view t s old f)
        × ((f : String) → v.view t s' old f ≡ none)
        × ((j : SessionId) (f : String)
            → same_session b64 new j ≡ false
            → same_session b64 old j ≡ false
            → v.view t s' j f ≡ v.view t s j f)
        × v.IsValid s'
  pub remove-view :
      (now t : ℕ) (id : SessionId) (field : String) (s : store.State)
      → v.IsValid s
      → now ≤ t
      → (ttl : ℤ) × (s' : store.State) × (store.remove now id field s ≡ (ok ttl, s'))
        × (v.view t s' id field ≡ none)
        × Only b64 v t id s s'
        × v.IsValid s'
  pub delete-view :
      (now t : ℕ) (id : SessionId) (s : store.State)
      → v.IsValid s
      → now ≤ t
      → (done : Bool) × (s' : store.State) × (store.delete now id s ≡ (ok done, s'))
        × ((f : String) → v.view t s' id f ≡ none)
        × Only b64 v t id s s'
        × v.IsValid s'

-- What `expire` adds to it, in the stores that keep instants: where a lifetime that is given now has
-- ended by `t`, no field of the session can be read then.
pub record Expires (b64 : Base64) (store : Timed) (v : View store.State) : Type 1 where
  pub expire-view :
      (now t : ℕ) (id : SessionId) (seconds : ℤ) (s : store.State)
      → v.IsValid s
      → now ≤ t
      → ltb_ℤ (pos 0) seconds ≡ true
      → v.lasts now seconds t ≡ false
      → (done : Bool) × (s' : store.State) × (store.expire now id seconds s ≡ (ok done, s'))
        × ((f : String) → v.view t s' id f ≡ none)
        × Only b64 v t id s s'
        × v.IsValid s'
