-- ===== src/Tests/Crates.antt =====
-- Small implementations of the crates that the program takes, with the laws that it relies on: they
-- can be met. Bytes are encoded in unary, a value is a number, and a cookie is a record.
use Prim.Native.Char.{code}
use ruts.Prelude.{
  ℕ, zero, suc, ◌+◌, ◌≤◌, String, ◌≡◌, refl, ◌∙◌, List, [], ◌∷◌, Bool, true, false, ◌&&◌, Option,
  none, some, arith, ltb, leb, ◌==◌, str_eq, eq_iff, if◌then◌else◌, length, ℤ,
}
use ruts.Outcome.{Result, ok, err}
use ruts.SessionId.{Base64, DecodeError, malformed, IsBytes, SessionId}
use ruts.Store.Codec.{Codec, messagepack}
use ruts.Cookies.{CookieCrate, JarCrate}

abbrev put : ℕ → String → String
put zero s = String.◌∷◌ "b" s
put (suc n) s = String.◌∷◌ "a" (put n s)

abbrev encode : List ℕ → String
encode [] = ""
encode (b ∷ bs) = put b (encode bs)

abbrev parse : ℕ → String → List ℕ
parse acc String.[] = []
parse acc (String.◌∷◌ c s) = elim (code c == b'a') [
  | true ↦ parse (suc acc) s
  | false ↦ acc ∷ parse 0 s
]

parse-put : (acc n : ℕ) (s : String) → parse acc (put n s) ≡ (acc + n) ∷ parse 0 s
parse-put acc zero s = ground arith
parse-put acc (suc n) s = parse-put (suc acc) n s ∙ ground arith

abbrev all_bytes : List ℕ → Bool
all_bytes [] = true
all_bytes (b ∷ bs) = ltb b 256 && all_bytes bs

all_bytes_iff :
    (bs : List ℕ) → (all_bytes bs ≡ true → IsBytes bs) × (IsBytes bs → all_bytes bs ≡ true)
all_bytes_iff [] = (λ h. tt, λ h. refl)
all_bytes_iff (b ∷ bs) =
    let (to, from) = all_bytes_iff bs in
    (λ h. (ground arith, to (ground arith)), λ h. ground (arith, from h.1))

parse-encode : (bs : List ℕ) → parse 0 (encode bs) ≡ bs
parse-encode [] = refl
parse-encode (b ∷ bs) = ground (arith, parse-put 0 b (encode bs), parse-encode bs)

-- Only what is the encoding of enough bytes is accepted.
abbrev accepts : String → ℕ → List ℕ → Bool
accepts s n bs = all_bytes bs && (leb (length bs) n && str_eq (encode bs) s)

abbrev decode_slice : String → ℕ → Result DecodeError (List ℕ)
decode_slice s n = if accepts s n (parse 0 s) then ok (parse 0 s) else err malformed

pub decode-encode :
    (bs : List ℕ) (n : ℕ) → IsBytes bs → length bs ≤ n → decode_slice (encode bs) n ≡ ok bs
decode-encode bs n valid fits =
    rw (parse-encode bs)
      (ground (arith, (all_bytes_iff bs).1 valid, eq_iff (encode bs) (encode bs)))

pub encode-decode :
    (s : String) (n : ℕ) (bs : List ℕ)
    → decode_slice s n ≡ ok bs
    → (encode bs ≡ s) × IsBytes bs × (length bs ≤ n)
encode-decode s n bs h =
    let same : parse 0 s ≡ bs = ground arith in
    let fine : accepts s n bs ≡ true = rw (← same) (ground arith) in
    ((eq_iff _ _).0 (ground arith), (all_bytes_iff bs).0 (ground arith), ground arith)

abbrev pub unary : Base64
unary = record {
  encode = encode;
  decode_slice = decode_slice;
  decode-encode = decode-encode;
  encode-decode = encode-decode;
}

-- A value of one byte, the number itself.
abbrev pub numbers : Codec ℕ
numbers = record {
  format = messagepack;
  to_vec = λ n. if ltb n 256 then ok (n ∷ []) else err "too large";
  from_slice = λ bs. elim bs [ [] ↦ err "empty" | n ∷ r ↦ ok n ];
}

abbrev pub session : ℕ → SessionId
session n = record { bytes = n ∷ 0 ∷ 0 ∷ 0 ∷ 0 ∷ 0 ∷ 0 ∷ 0 ∷ 0 ∷ 0 ∷ 0 ∷ 0 ∷ 0 ∷ 0 ∷ 0 ∷ 0 ∷ [] }

pub record Biscuit : Type 0 where
  pub name : String
  pub value : String
  pub max_age : Option ℤ
  pub path : Option String

abbrev pub biscuits : CookieCrate
biscuits = record {
  Cookie = Biscuit;
  SameSite = Bool;
  lax = true;
  named = λ n. record { name = n; value = ""; max_age = none; path = none };
  build = λ n v. record { name = n; value = v; max_age = none; path = none };
  set_secure = λ b c. c;
  set_http_only = λ b c. c;
  set_same_site = λ s c. c;
  set_max_age = λ a c. record c { max_age = some a };
  set_domain = λ d c. c;
  set_path = λ p c. record c { path = some p };
  name = λ c. c.name;
  value = λ c. c.value;
  max_age = λ c. c.max_age;
  path = λ c. c.path;
  name-named = λ n. refl;
  path-named = λ n. refl;
  name-build = λ n v. refl;
  value-build = λ n v. refl;
  path-build = λ n v. refl;
  name-set_secure = λ b c. refl;
  value-set_secure = λ b c. refl;
  path-set_secure = λ b c. refl;
  name-set_http_only = λ b c. refl;
  value-set_http_only = λ b c. refl;
  path-set_http_only = λ b c. refl;
  name-set_same_site = λ s c. refl;
  value-set_same_site = λ s c. refl;
  path-set_same_site = λ s c. refl;
  name-set_max_age = λ a c. refl;
  value-set_max_age = λ a c. refl;
  path-set_max_age = λ a c. refl;
  max_age-set_max_age = λ a c. refl;
  name-set_domain = λ d c. refl;
  value-set_domain = λ d c. refl;
  path-set_domain = λ d c. refl;
  max_age-set_domain = λ d c. refl;
  name-set_path = λ p c. refl;
  value-set_path = λ p c. refl;
  path-set_path = λ p c. refl;
  max_age-set_path = λ p c. refl;
}

-- Plain cookies, and signed ones by their key.
pub record Tin : Type 0 where
  pub plain : String → Option Biscuit
  pub signed : ℕ → String → Option Biscuit

abbrev pub empty_tin : Tin
empty_tin = record { plain = λ n. none; signed = λ k n. none }

pub read_signed :
    (k : ℕ) (a n : String) (x y : Option Biscuit)
    → (if k == k then (if str_eq a n then x else y) else y) ≡ (if str_eq a n then x else y)
read_signed k a n x y = ground arith

abbrev pub tins : JarCrate biscuits
tins = record {
  Jar = Tin;
  Key = ℕ;
  get = λ j n. j.plain n;
  add = λ c j. record j { plain = λ n. if str_eq c.name n then some c else j.plain n };
  remove = λ c j. record j { plain = λ n. if str_eq c.name n then none else j.plain n };
  signed_get = λ k j n. j.signed k n;
  signed_add = λ k c j. record j {
    signed =
        λ q n. if q == k then (if str_eq c.name n then some c else j.signed q n) else j.signed q n;
  };
  get-add = λ c j n. refl;
  get-remove = λ c j n. refl;
  signed_get-signed_add = λ k c j n. read_signed k (c.name) n (some c) (j.signed k n);
}
