-- ===== src/Outcome.antt =====
-- What a fallible Rust function returns: `Result<A, E>`, or a panic (`unwrap` on `None`,
-- `unimplemented!`). A method that changes a store is an action: what was written before an error
-- stays written, so the state comes back beside the error too.

use ruts.Prelude.{Option, none, some}

pub data Result {ℓ} (E A : Type ℓ) : Type ℓ where
  ok : A → Result E A
  err : E → Result E A
  panic : Result E A

abbrev pub Action {ℓ} : Type ℓ → Type ℓ → Type ℓ → Type ℓ
Action S E A = S → Result E A × S

-- `?` on a result at hand
abbrev pub and_then {ℓ} : {E A B : Type ℓ} → Result E A → (A → Result E B) → Result E B
and_then (ok a) f = f a
and_then (err e) f = err e
and_then panic f = panic

module _ {ℓ} {S E A B : Type ℓ} where
  -- the code after `?`, from the state that the first call left
  abbrev pub continue : Result E A → (A → Action S E B) → Action S E B
  continue (ok a) f s = f a s
  continue (err e) f s = (err e, s)
  continue panic f s = (panic, s)

  infixl 5 ◌>>=◌
  abbrev pub ◌>>=◌ : Action S E A → (A → Action S E B) → Action S E B
  ◌>>=◌ m f s = let (r, s') = m s in continue r f s'

module _ {ℓ} {S E A : Type ℓ} where
  abbrev pub pure : A → Action S E A
  pure a s = (ok a, s)

-- `map_err`
abbrev pub map_err {ℓ} : {E F A : Type ℓ} → (E → F) → Result E A → Result F A
map_err f (ok a) = ok a
map_err f (err e) = err (f e)
map_err f panic = panic

-- `.map(Some)`
abbrev pub map_some {ℓ} : {E A : Type ℓ} → Result E A → Result E (Option A)
map_some (ok a) = ok (some a)
map_some (err e) = err e
map_some panic = panic

-- `unwrap` of a result, whose error panics
abbrev pub unwrapped {ℓ} : {E A : Type ℓ} → Result E A → Result E A
unwrapped (ok a) = ok a
unwrapped (err e) = panic
unwrapped panic = panic

abbrev pub unwrap {ℓ} : {S E A : Type ℓ} → Action S E A → Action S E A
unwrap m s = let (r, s') = m s in (unwrapped r, s')

-- `unwrap` of an option
abbrev pub unwrap_option {ℓ} : {E A : Type ℓ} → Option A → Result E A
unwrap_option none = panic
unwrap_option (some a) = ok a
