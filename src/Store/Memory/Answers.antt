-- ===== src/Store/Memory/Answers.antt =====
-- src/store/memory/mod.rs: what the methods of the in-memory store answer, for the contract of a store.
use ruts.Prelude.{
  ℕ, ◌+◌, ◌*◌, ◌≤◌, String, ◌≡◌, refl, ◌≢◌, Bool, true, false, ◌||◌, Option, none, some, ℤ, pos,
  ◌==ℤ◌, to_nat, ltb, persistent, gone, eq_iff, arith, Option-cases, Bool-cases, inl, inr,
}
use ruts.Outcome.{ok}
use ruts.HashMap
use ruts.HashMap.{HashMap, map_option, keep_if, is_empty}
use ruts.DashMap.{DashMap}
use ruts.SessionId.{SessionId, Base64, to_string}
use ruts.Store.Codec.{Bytes, Codec, serialize-cases}
use ruts.Store.Memory
use ruts.Store.Memory.{cleanup_expired, get_ttl, insert_field}
use ruts.Store.Memory.Expiry.{
  nanos, StoredValue, Fields, Clock, is_live, determine_expiry, or_default,
}

-- an operation that takes no time
abbrev pub instant : ℕ → Clock
instant now = record { swept = now; stored = now; read = now }

abbrev pub is_present {ℓ} : {A : Type ℓ} → Option A → Bool
is_present none = false
is_present (some a) = true

-- a lifetime in seconds, from an instant in nanoseconds
abbrev pub lasts : ℕ → ℤ → ℕ → Bool
lasts now ttl t = ttl ==ℤ persistent || ltb t (now + to_nat ttl * nanos)

pub lasts-nonzero : (now t : ℕ) (ttl : ℤ) → now ≤ t → lasts now ttl t ≡ true → ttl ≢ pos 0
lasts-nonzero now t ttl order l e = ground arith

pub live_lem :
    (now t : ℕ) (key_ttl field_ttl : ℤ) (bytes : Bytes)
    → now ≤ t
    → lasts now key_ttl t ≡ true
    → lasts now field_ttl t ≡ true
    → is_live t (record { bytes = bytes; expires_at = determine_expiry now key_ttl field_ttl })
      ≡ true
unfolding is_live determine_expiry
live_lem now t key_ttl field_ttl bytes order k l = ground arith

-- the value behind bytes that can be read
pub visible_some :
    (o : Option StoredValue) (bytes : Bytes)
    → map_option (λ (v : StoredValue). v.bytes) o ≡ some bytes
    → (v : StoredValue) × (o ≡ some v)
visible_some none bytes h = absurd (ground arith)
visible_some (some v) bytes h = (v, refl)

module _ (b64 : Base64) (dash : DashMap Fields) where
  -- neither fails
  pub remove-answers :
      (clock : Clock) (id : SessionId) (field : String) (s : dash.Table)
      → (ttl : ℤ) × ((Memory.remove b64 dash clock id field s).0 ≡ ok ttl)
  unfolding Memory.remove
  remove-answers clock id field s =
      elim (Option-cases (dash.get (cleanup_expired b64 dash clock.swept s) (to_string b64 id))) [
        | inl e ↦ (gone, ground arith)
        | inr (fields, e) ↦ elim (Bool-cases (is_empty (HashMap.remove field fields))) [
          | inl empty ↦ (gone, ground arith)
          | inr full ↦ (
            get_ttl b64 dash clock.read id (
                dash.insert (to_string b64 id) (HashMap.remove field fields)
                  (cleanup_expired b64 dash clock.swept s)),
            ground arith,
          )
        ]
      ]

  pub delete-answers :
      (clock : Clock) (id : SessionId) (s : dash.Table)
      → (done : Bool) × ((Memory.delete b64 dash clock id s).0 ≡ ok done)
  unfolding Memory.delete
  delete-answers clock id s =
      elim (Option-cases (dash.get (cleanup_expired b64 dash clock.swept s) (to_string b64 id))) [
        | inl e ↦ (false, ground arith)
        | inr (fields, e) ↦ (true, ground arith)
      ]

  pub present-set :
      {T : Type 0} (codec : Codec T) (clock : Clock) (id : SessionId) (field : String) (value : T)
      (key_ttl field_ttl : ℤ) (hot : Option ℤ) (s : dash.Table)
      → key_ttl ≢ pos 0
      → field_ttl ≢ pos 0
      → is_present (
          dash.get
            (Memory.set b64 dash codec clock id field value key_ttl field_ttl hot s).1
            (to_string b64 id))
        ≡ true
  unfolding Memory.set
  present-set codec clock id field value key_ttl field_ttl hot s k l =
      let key = to_string b64 id in
      let swept = cleanup_expired b64 dash clock.swept s in
      let fields = or_default (dash.get swept key) in
      let at_key = λ (fs : Fields). dash.get-insert swept key key fs in
      elim (serialize-cases codec value) [
        | inl (bytes, e) ↦
            let stored : StoredValue = record {
              bytes = bytes;
              expires_at = determine_expiry clock.stored key_ttl field_ttl;
            } in
            ground (arith, at_key (HashMap.insert field stored fields), eq_iff key key)
        | inr e ↦ ground (arith, at_key fields, eq_iff key key)
      ]
