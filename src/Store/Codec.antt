-- ===== src/Store/Codec.antt =====
-- src/store/store_trait.rs: the errors of a store and the encoding of values. The encoders
-- (`rmp_serde`, `bincode`) are not part of the repository; a `Codec` holds what they do with one
-- type of values.
use ruts.Prelude.{ℕ, String, List, ◌≡◌, ◌⊎◌, refl, inl, inr}
use ruts.Outcome.{Result, ok, err, panic, map_err}

pub data Error : Type 0 where
  encode decode backend : String → Error

abbrev pub Bytes : Type 0
Bytes = List ℕ

-- The cargo feature that selects the encoder.
pub data Format : Type 0 where
  messagepack bincode : Format

pub record Codec (T : Type 0) : Type 0 where
  pub format : Format
  pub to_vec : T → Result String Bytes
  pub from_slice : Bytes → Result String T

-- With `bincode` the conversion is `From<EncodeError>`, which builds a `Backend` error.
unfoldable pub encode_error : Format → String → Error
encode_error messagepack message = encode message
encode_error bincode message = backend message

unfoldable pub decode_error : Format → String → Error
decode_error messagepack message = decode message
decode_error bincode message = backend message

module _ {T : Type 0} (codec : Codec T) where
  unfoldable pub serialize_value : T → Result Error Bytes
  unfolding encode_error
  serialize_value value = map_err (encode_error codec.format) (codec.to_vec value)

  unfoldable pub deserialize_value : Bytes → Result Error T
  unfolding decode_error
  deserialize_value bytes = map_err (decode_error codec.format) (codec.from_slice bytes)

  -- a value is encoded or it is not
  pub serialize-cases :
      (value : T)
      → ((bytes : Bytes) × (serialize_value value ≡ ok bytes))
        ⊎ (((e : Error) × (serialize_value value ≡ err e)) ⊎ (serialize_value value ≡ panic))
  serialize-cases value = go (serialize_value value)
    where
      go :
          (r : Result Error Bytes)
          → ((bytes : Bytes) × (r ≡ ok bytes)) ⊎ (((e : Error) × (r ≡ err e)) ⊎ (r ≡ panic))
      go (ok bytes) = inl (bytes, refl)
      go (err e) = inr (inl (e, refl))
      go panic = inr (inr refl)
