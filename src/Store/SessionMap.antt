-- ===== src/Store/SessionMap.antt =====
-- src/store/store_trait.rs: `SessionMap`, the encoded fields of a session, decoded on demand.
use ruts.Prelude.{ℕ, String, Option, none, some, Bool, length}
use ruts.Outcome.{Result, ok, map_some}
use ruts.HashMap
use ruts.HashMap.{HashMap}
use ruts.Store.Codec.{Error, Bytes, Codec, deserialize_value}

pub record SessionMap : Type 0 where
  pub fields : HashMap Bytes

unfoldable pub get : {T : Type 0} → Codec T → SessionMap → String → Result Error (Option T)
unfolding deserialize_value
get codec m field = elim (HashMap.get m.fields field) [
  | none ↦ ok none
  | some bytes ↦ map_some (deserialize_value codec bytes)
]

unfoldable pub len : SessionMap → ℕ
len m = length m.fields

unfoldable pub is_empty : SessionMap → Bool
is_empty m = HashMap.is_empty m.fields
