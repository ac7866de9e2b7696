-- ===== src/Suite.antt =====
-- The repository's own unit tests, each an action on a store at the instants of its calls: what a
-- test asserts is a panic where it does not hold, as `unwrap` is. The values that a test writes are
-- arguments, for any type with an encoder and an equality (`PartialEq`).
pub mod Memory
pub mod Session
pub mod Postgres
pub mod Redis
pub mod Layered
use ruts.Prelude.{Bool, true, false, Option, none, some, ℤ, ltb_ℤ, not, ◌≡◌}
use ruts.Outcome.{Result, ok, err, panic, Action}

-- `assert!`
abbrev pub assert {ℓ} : {S E : Type ℓ} → Bool → Action S E (Unit {ℓ})
assert true s = (ok tt, s)
assert false s = (panic, s)

-- the answer of a call, an error too, which a test looks at; a panic goes on
abbrev pub answered {ℓ} : {E A : Type ℓ} → Result E A → Result E (Result E A)
answered (ok a) = ok (ok a)
answered (err e) = ok (err e)
answered panic = panic

abbrev pub answer_of {ℓ} : {S E A : Type ℓ} → Action S E A → Action S E (Result E A)
answer_of m s = let (r, s') = m s in (answered r, s')

abbrev pub is_none {ℓ} : {A : Type ℓ} → Option A → Bool
is_none none = true
is_none (some a) = false

abbrev pub is_some {ℓ} : {A : Type ℓ} → Option A → Bool
is_some o = not (is_none o)

abbrev pub is_err {ℓ} : {E A : Type ℓ} → Result E A → Bool
is_err (ok a) = false
is_err (err e) = true
is_err panic = false

-- `o.unwrap() == a`, or `o == Some(a)`
abbrev pub holds {ℓ} : {A : Type ℓ} → (A → A → Bool) → Option A → A → Bool
holds same none a = false
holds same (some b) a = same b a

-- a test that ends without a panic
abbrev pub Passes : {S E : Type 0} → Action S E (Unit {0}) → S → Type 0
Passes test s = (test s).0 ≡ ok tt
