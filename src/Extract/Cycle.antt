-- ===== src/Extract/Cycle.antt =====
-- src/service/mod.rs, src/extract/mod.rs and src/session/mod.rs together, over any store that meets
-- the contract: a request, its response, and the request that brings the response's cookie back.
use ruts.Prelude.{ℕ, ◌≤◌, String, ◌≡◌, true, Option, none, some, ℤ, arith, Option-cases, inl, inr}
use ruts.Outcome.{Result, ok, err, panic}
use ruts.SessionId.{SessionId, IsSessionId, Base64, from_str, to_string-from_str}
use ruts.Cookies.{CookieCrate, JarCrate}
use ruts.Store.Codec.{Codec, Bytes, serialize_value, deserialize_value}
use ruts.Store.Contract.{Timed, at, View, Meets}
use ruts.Session.State.{Inner, is_changed}
use ruts.Session.{World, get, set}
use ruts.Session.Effects.{current, field_ttl, session_ttl}
use ruts.Session.AnyStore.{get-view, set-view}
use ruts.Service.{ready, SessionService, Options, poll, call}
use ruts.Extract.{ok?, find_cookie, from_request_parts}
use ruts.Extract.Requests.{carried, from_request_parts-call, next_request}

-- `.ok()` gives what the result holds
ok?_lem : {E A : Type 0} (r : Result E A) (a : A) → ok? r ≡ some a → r ≡ ok a
ok?_lem (ok b) a e = ground arith
ok?_lem (err x) a e = absurd (ground arith)
ok?_lem panic a e = absurd (ground arith)

module _ (b64 : Base64) (crate : CookieCrate) (jars : JarCrate crate) where
  -- an id that a request carries is of 16 bytes
  carried-IsSessionId :
      {Service Store : Type 0} (service : SessionService Service crate.SameSite jars.Key Store)
      (o : Options b64 crate jars) (configured : service.cookie_options ≡ some o) (jar : jars.Jar)
      (id : SessionId)
      → carried b64 crate jars service o configured jar ≡ some id
      → IsSessionId id
  carried-IsSessionId service o configured jar id h =
      elim (Option-cases (find_cookie b64 crate jars o.signing_key jar o.name)) [
        | inl e ↦ absurd (ground arith)
        | inr (cookie, e) ↦
            let text = crate.value cookie in
            (to_string-from_str b64 text id (ok?_lem (from_str b64 text) id (ground arith))).0
      ]

  module _ {Service Store : Type 0} (service : SessionService Service crate.SameSite jars.Key Store)
      (o : Options b64 crate jars) (configured : service.cookie_options ≡ some o) (store : Timed)
      (v : View store.State) (meets : Meets b64 store v) {T : Type 0} (codec : Codec T)
      (now later : ℕ) (order : now ≤ later) where
    -- Over any store that meets the contract: a handler that sets a field, of a request whose cookie
    -- names a session or not, has its value read by the handler of a later request that brings the
    -- jar of the response back. The service has cookie options, the value is encoded and decoded,
    -- a fresh id has 16 bytes, and the two lifetimes that are asked for have not ended by then.
    pub cycle :
        {Body : Type 0} (E : Type 0) (res : Body) (jar : jars.Jar) (first : Inner jars.Jar jars.Key)
        (s : store.State) (fresh : SessionId) (field : String) (value : T) (ttl hot : Option ℤ)
        (bytes : Bytes)
        → v.IsValid s
        → IsSessionId fresh
        → serialize_value codec value ≡ ok bytes
        → deserialize_value codec bytes ≡ ok value
        → from_request_parts b64 crate jars
            (call service (record { session = none; cookies = some jar })).1
          ≡ ok first
        → v.lasts now
            (session_ttl jars.Jar jars.Key
              (at store now)
              (record { inner = first; store = s })
              codec
              fresh
              field
              value
              ttl
              hot)
            later
          ≡ true
        → v.lasts now
            (field_ttl jars.Jar jars.Key
              (at store now)
              (record { inner = first; store = s })
              codec
              fresh
              field
              value
              ttl
              hot)
            later
          ≡ true
        → (w : World jars.Jar jars.Key store.State) × (set jars.Jar jars.Key
              (at store now)
              codec
              fresh
              field
              value
              ttl
              hot
              (record { inner = first; store = s })
            ≡ (ok true, w))
          × (j : jars.Jar) × ((poll b64 crate jars {E = E}
                (ready (ok res))
                (some o)
                w.inner).1.cookies
              ≡ some j)
          × (second : Inner jars.Jar jars.Key) × (from_request_parts b64 crate jars
                (call service (record { session = none; cookies = some j })).1
              ≡ ok second)
          × ((get jars.Jar jars.Key
                (at store later)
                codec
                field
                (record { inner = second; store = w.store })).0
              ≡ ok (some value))
    unfolding is_changed
    cycle E res jar first s fresh field value ttl hot bytes valid sixteen encoded decodes given
          lasting field_lasting =
        let w₀ : World jars.Jar jars.Key store.State = record { inner = first; store = s } in
        let opened = from_request_parts-call b64 crate jars service o configured jar in
        let id = current jars.Jar jars.Key (at store now) w₀ codec fresh field value ttl hot in
        let (max_age, s', whole, seen, only, valid') =
          set-view jars.Jar jars.Key b64 store v meets codec now later w₀ valid order fresh field
            value ttl hot bytes encoded lasting field_lasting (ground arith) in
        let (r, w) = set jars.Jar jars.Key (at store now) codec fresh field value ttl hot w₀ in
        let named : w.inner.id ≡ some id = ground (arith, whole) in
        let (j, written, second, again, same) =
          next_request b64 crate jars E service o w.inner jar res id configured
            (ground (arith, whole)) named
            (elim (Option-cases (carried b64 crate jars service o configured jar)) [
              | inl e ↦ ground arith
              | inr (known, e) ↦
                  let h = carried-IsSessionId service o configured jar known e in ground arith
            ])
            (ground (arith, whole)) in
        (
          w,
          ground (arith, whole),
          j,
          written,
          second,
          again,
          ground (
            arith,
            whole,
            seen,
            decodes,
            get-view jars.Jar jars.Key b64 store v meets codec later field
                (record { inner = second; store = w.store }) id same,
          ),
        )
