-- ===== src/SessionId/Random.antt =====
-- src/session/id.rs: `Id::default()`. The system's generator (`SysRng` of the `rand` crate) is not
-- part of the repository: it fills a buffer with bytes, or fails.
use ruts.Prelude.{ℕ, String, ◌≡◌, List, length, refl, arith}
use ruts.Outcome.{Result, ok, err, panic}
use ruts.SessionId.{SessionId, IsSessionId, IsBytes}

pub record Rng : Type 1 where
  pub State : Type 0
  -- `try_fill_bytes` on a buffer of so many bytes
  pub try_fill_bytes : ℕ → State → Result String (List ℕ) × State
  pub filled :
      (n : ℕ) (s : State) (bs : List ℕ)
      → (try_fill_bytes n s).0 ≡ ok bs
      → (length bs ≡ n) × IsBytes bs

-- the array behind `unwrap`
abbrev as_id : Result String (List ℕ) → Result String SessionId
as_id (ok bs) = ok (record { bytes = bs })
as_id (err e) = panic
as_id panic = panic

module _ (rng : Rng) where
  unfoldable pub default : rng.State → Result String SessionId × rng.State
  default s = let (r, s') = rng.try_fill_bytes 16 s in (as_id r, s')

  -- an id that the generator may draw
  abbrev pub IsDrawn : SessionId → Type 0
  IsDrawn id = (s : rng.State) × ((default s).0 ≡ ok id)

  -- What is drawn has sixteen bytes.
  pub drawn-IsSessionId : (id : SessionId) → IsDrawn id → IsSessionId id
  unfolding default
  drawn-IsSessionId id (s, h) = go ((rng.try_fill_bytes 16 s).0) refl h
    where
      go :
          (r : Result String (List ℕ))
          → (rng.try_fill_bytes 16 s).0 ≡ r
          → as_id r ≡ ok id
          → IsSessionId id
      go (ok bs) e h' = ground (arith, rng.filled 16 s bs e)
      go (err x) e h' = ground arith
      go panic e h' = ground arith
