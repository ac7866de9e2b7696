-- ===== src/Session/Expiring.antt =====
-- src/session/mod.rs over any store that meets the contract and keeps instants: `expire`, and what
-- handlers read from the end of the lifetime on.
use ruts.Prelude.{ℕ, ◌≤◌, String, ◌≡◌, Bool, true, false, some, none, ℤ, pos, ltb_ℤ, arith}
use ruts.Outcome.{ok}
use ruts.SessionId.{SessionId, Base64, same_session}
use ruts.Store.Codec.{Codec}
use ruts.Store.Contract.{Timed, at, View, Meets, Expires}
use ruts.Session.State.{set_expiration, set_changed}
use ruts.Session.{World, get, expire, on_inner, on_store, when_done}
use ruts.Session.AnyStore.{get-view}

module _ (Cookies Key : Type 0) (b64 : Base64) (store : Timed) (v : View store.State)
    (meets : Meets b64 store v) (expires : Expires b64 store v) where
  -- what `expire` does with the store's answer
  expire_answered :
      (now : ℕ) (seconds : ℤ) (w : World Cookies Key store.State) (id : SessionId) (done : Bool)
      (s : store.State)
      → w.inner.id ≡ some id
      → ltb_ℤ (pos 0) seconds ≡ true
      → store.expire now id seconds w.store ≡ (ok done, s)
      → ((expire Cookies Key (at store now) seconds w).0 ≡ ok done)
        × ((expire Cookies Key (at store now) seconds w).1.store ≡ s)
        × ((expire Cookies Key (at store now) seconds w).1.inner.cookie_max_age ≡ seconds)
  unfolding expire on_inner on_store when_done set_expiration set_changed
  expire_answered now seconds w id done s named positive answered =
      (ground arith, ground arith, ground arith)

  -- Over any store that meets the contract and keeps instants, in a sound state: after `expire` with a
  -- positive lifetime by a handler of a session, which answers and sets the cookie's lifetime to that,
  -- every `get` of that session, by any handler of it and once the lifetime has ended, finds nothing;
  -- a `get` of another session answers what it would have without the call; the store stays sound.
  pub any-expire :
      (now later : ℕ) (seconds : ℤ) (w : World Cookies Key store.State) (id : SessionId)
      → v.IsValid w.store
      → now ≤ later
      → w.inner.id ≡ some id
      → ltb_ℤ (pos 0) seconds ≡ true
      → v.lasts now seconds later ≡ false
      → ((done : Bool) × ((expire Cookies Key (at store now) seconds w).0 ≡ ok done))
        × ((expire Cookies Key (at store now) seconds w).1.inner.cookie_max_age ≡ seconds)
        × ((T : Type 0) (codec : Codec T) (f : String) (u : World Cookies Key store.State)
            → u.inner.id ≡ some id
            → u.store ≡ (expire Cookies Key (at store now) seconds w).1.store
            → (get Cookies Key (at store later) codec f u).0 ≡ ok none)
        × ((T : Type 0) (codec : Codec T) (f : String) (j : SessionId)
              (u u' : World Cookies Key store.State)
            → same_session b64 id j ≡ false
            → u.inner.id ≡ some j
            → u'.inner.id ≡ some j
            → u.store ≡ w.store
            → u'.store ≡ (expire Cookies Key (at store now) seconds w).1.store
            → (get Cookies Key (at store later) codec f u').0
              ≡ (get Cookies Key (at store later) codec f u).0)
        × v.IsValid (expire Cookies Key (at store now) seconds w).1.store
  any-expire now later seconds w id valid order named positive ended =
      let (done, s', called, hidden, only, valid') =
        expires.expire-view now later id seconds w.store valid order positive ended in
      let (answered, stored, aged) =
        expire_answered now seconds w id done s' named positive called in
      (
        (done, answered),
        aged,
        λ T codec f u own same.
            ground (arith, get-view Cookies Key b64 store v meets codec later f u id own, hidden f),
        λ T codec f j u u' other own own' before after. ground (
          arith,
          get-view Cookies Key b64 store v meets codec later f u j own,
          get-view Cookies Key b64 store v meets codec later f u' j own',
          only j f other,
        ),
        rw stored valid',
      )
