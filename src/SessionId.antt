-- ===== src/SessionId.antt =====
-- src/session/id.rs: the session identifier, 16 random bytes, and its text form. (`Id` there.)
-- The `base64` crate is not part of the repository: its URL-safe engine without padding is a record.
pub mod Random
use ruts.Prelude.{
  ℕ, ◌≤◌, ◌<◌, String, ◌≡◌, ◌↔◌, Bool, true, refl, ap, List, ◌==◌, arith, str_eq, eq_iff,
  if◌then◌else◌, length, All,
}
use ruts.Outcome.{Result, ok, err, panic, and_then}

-- a `u8` array
abbrev pub IsBytes : List ℕ → Type 0
IsBytes bs = All (λ b. b < 256) bs

-- `base64::DecodeSliceError`: the crate's own errors, and the one that the program builds
pub data DecodeError : Type 0 where
  invalid_length : ℕ → DecodeError
  output_slice_too_small : DecodeError
  malformed : DecodeError

-- `BASE64_URL_SAFE_NO_PAD`: `decode_slice s n` writes to a buffer of `n` bytes. Decoding undoes
-- encoding where the bytes fit, and what it accepts is the encoding of what it writes.
pub record Base64 : Type 0 where
  pub encode : List ℕ → String
  pub decode_slice : String → ℕ → Result DecodeError (List ℕ)
  pub decode-encode :
      (bs : List ℕ) (n : ℕ) → IsBytes bs → length bs ≤ n → decode_slice (encode bs) n ≡ ok bs
  pub encode-decode :
      (s : String) (n : ℕ) (bs : List ℕ)
      → decode_slice s n ≡ ok bs
      → (encode bs ≡ s) × IsBytes bs × (length bs ≤ n)

pub record SessionId : Type 0 where
  pub bytes : List ℕ

-- what the type `[u8; 16]` guarantees
pub record IsSessionId (id : SessionId) : Type 0 where
  pub sixteen : length id.bytes ≡ 16
  pub in_range : IsBytes id.bytes

module _ (b64 : Base64) where
  -- `Display`
  unfoldable pub to_string : SessionId → String
  to_string id = b64.encode id.bytes

  -- the check behind `decode_slice`
  check_length : List ℕ → Result DecodeError SessionId
  check_length decoded =
      if length decoded == 16
      then ok (record { bytes = decoded })
      else err (invalid_length (length decoded))

  -- `FromStr`
  unfoldable pub from_str : String → Result DecodeError SessionId
  unfolding check_length
  from_str s = and_then (b64.decode_slice s 16) check_length

  -- Reading the text of a session id gives the id back.
  pub from_str-to_string : (id : SessionId) → IsSessionId id → from_str (to_string id) ≡ ok id
  unfolding from_str to_string
  from_str-to_string id h = ground (arith, b64.decode-encode id.bytes 16 h.in_range (omega arith))

  -- What is accepted is 16 bytes, and prints as the text that was read.
  pub to_string-from_str :
      (s : String) (id : SessionId) → from_str s ≡ ok id → IsSessionId id × (to_string id ≡ s)
  unfolding from_str to_string
  to_string-from_str s id h = go (b64.decode_slice s 16) refl
    where
      go :
          (r : Result DecodeError (List ℕ))
          → b64.decode_slice s 16 ≡ r
          → IsSessionId id × (b64.encode id.bytes ≡ s)
      go (ok bs) e = ground (arith, b64.encode-decode s 16 bs e)
      go (err x) e = ground arith
      go panic e = ground arith

  pub to_string-injective :
      (a b : SessionId) → IsSessionId a → IsSessionId b → to_string a ≡ to_string b → a ≡ b
  to_string-injective a b ha hb e =
      cc (from_str-to_string a ha, from_str-to_string b hb, ap from_str e)

  -- whether two sessions have one key in a store
  abbrev pub same_session : SessionId → SessionId → Bool
  same_session a b = str_eq (to_string a) (to_string b)

  -- Sessions share a key exactly when they are one.
  pub same_session_iff :
      (a b : SessionId) → IsSessionId a → IsSessionId b → (same_session a b ≡ true) ↔ (a ≡ b)
  same_session_iff a b ha hb =
      (λ e. to_string-injective a b ha hb ((eq_iff _ _).0 e), λ e. (eq_iff _ _).1 (ap to_string e))
