-- ===== src/Store/Layered/Answers.antt =====
-- src/store/layered/mod.rs: writes, by what the two stores answer, and what a session makes of them.
use ruts.Prelude.{String, ◌≡◌, ◌↔◌, refl, ℤ, Option, none, some, Bool, ◌&&◌, arith}
use ruts.Outcome.{Result, ok, err, panic}
use ruts.SessionId.{SessionId}
use ruts.Store.Codec.{Error, Codec}
use ruts.Store.Trait.{SessionStore}
use ruts.Store.LayeredTrait.{LayeredHotStore, LayeredColdStore}
use ruts.Store.Join.{Race}
use ruts.Store.Layered.{hot_ttl, set, delete, expire, rename_session_id}

module _ (hot cold : SessionStore) (warm : LayeredHotStore hot) (meta : LayeredColdStore cold)
    (race : Race) where
  -- `set` succeeds exactly when both stores accept the value, the hot one for the cache's lifetime,
  -- the cold one for the session's and the field's; it reports the cold store's lifetime, and both
  -- stores have then taken the value.
  pub set-both :
      {T : Type 0} (codec : Codec T) (id : SessionId) (field : String) (value : T)
      (key_ttl field_ttl : ℤ) (hot_cache : Option ℤ) (h : hot.State) (c : cold.State)
      (rh rc : Result Error ℤ) (h' : hot.State) (c' : cold.State) (ttl : ℤ)
      → hot.set codec id field value
          (hot_ttl field_ttl hot_cache)
          (hot_ttl field_ttl hot_cache)
          none
          h
        ≡ (rh, h')
      → meta.set_with_meta codec id field value key_ttl field_ttl
          (some (hot_ttl field_ttl hot_cache))
          c
        ≡ (rc, c')
      → ((set hot cold warm meta race codec id field value key_ttl field_ttl hot_cache (h, c)).0
          ≡ ok ttl)
        ↔ (((n : ℤ) × (rh ≡ ok n))
            × (rc ≡ ok ttl)
            × ((set hot cold warm meta race codec id field value key_ttl field_ttl hot_cache
                  (h, c)).1
                ≡ (h', c')))
  unfolding set
  set-both codec id field value key_ttl field_ttl hot_cache h c (ok n) (ok m) h' c' ttl eh ec =
      (λ e. ((n, refl), ground arith, ground arith), λ e. ground arith)
  set-both codec id field value key_ttl field_ttl hot_cache h c (ok n) (err y) h' c' ttl eh ec =
      (λ e. absurd (ground arith), λ e. absurd (ground arith))
  set-both codec id field value key_ttl field_ttl hot_cache h c (ok n) panic h' c' ttl eh ec =
      (λ e. absurd (ground arith), λ e. absurd (ground arith))
  set-both codec id field value key_ttl field_ttl hot_cache h c (err x) rc h' c' ttl eh ec =
      (λ e. absurd (ground arith), λ e. absurd (ground arith))
  set-both codec id field value key_ttl field_ttl hot_cache h c panic rc h' c' ttl eh ec =
      (λ e. absurd (ground arith), λ e. absurd (ground arith))

  module _ (id : SessionId) (h h' : hot.State) (c c' : cold.State) where
    -- `delete`, `expire` and `rename_session_id` report success only if both stores do, though the
    -- cold store has done its part also where the hot one had nothing to do.
    pub conjunction :
        (new : SessionId) (seconds : ℤ) (a b : Bool)
        → (hot.delete id h ≡ (ok a, h')
            → cold.delete id c ≡ (ok b, c')
            → delete hot cold warm meta race id (h, c) ≡ (ok (a && b), (h', c')))
          × (hot.expire id seconds h ≡ (ok a, h')
              → cold.expire id seconds c ≡ (ok b, c')
              → expire hot cold warm meta race id seconds (h, c) ≡ (ok (a && b), (h', c')))
          × (hot.rename_session_id id new h ≡ (ok a, h')
              → cold.rename_session_id id new c ≡ (ok b, c')
              → rename_session_id hot cold warm meta race id new (h, c) ≡ (ok (a && b), (h', c')))
    unfolding delete expire rename_session_id
    conjunction new seconds a b = (λ p q. ground arith, λ p q. ground arith, λ p q. ground arith)
