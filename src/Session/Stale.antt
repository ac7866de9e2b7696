-- ===== src/Session/Stale.antt =====
-- src/session/mod.rs: two requests of one session at a time, over any store that meets the contract.
-- The second one has read the old id from its cookie before the first one gives the session a new id.
use ruts.Prelude.{ℕ, ◌≤◌, String, ◌≡◌, true, false, Option, none, some, ℤ, eq_iff, arith}
use ruts.Outcome.{ok}
use ruts.SessionId.{SessionId, Base64, same_session, to_string}
use ruts.Store.Codec.{Codec, Bytes, serialize_value}
use ruts.Store.Contract.{Timed, at, View, Meets}
use ruts.Session.State.{Inner, required_session_ttl, unwrap_or}
use ruts.Session.{World, set, regenerate}
use ruts.Session.AnyStore.{set-view}

module _ (Cookies Key : Type 0) (b64 : Base64) (store : Timed) (v : View store.State)
    (meets : Meets b64 store v) where
  -- Over any store that meets the contract, in a sound state: a handler has regenerated the id of a
  -- session that can be read, to one that the store does not know, and then a handler of another
  -- request that still has the old id, with none pending, sets a value that is encoded. It
  -- succeeds, and keeps the old id; while both lifetimes last, its value can be read under the old
  -- id, which is so in use again, and the new id shows what the old one would have shown without
  -- it.
  pub set-stale :
      {T : Type 0} (codec : Codec T) (now soon later : ℕ) (w : World Cookies Key store.State)
      (stale : Inner Cookies Key) (old new : SessionId) (f : String) (b : Bytes) (fresh : SessionId)
      (field : String) (value : T) (ttl hot : Option ℤ) (bytes : Bytes)
      → v.IsValid w.store
      → now ≤ soon
      → soon ≤ later
      → w.inner.id ≡ some old
      → same_session b64 new old ≡ false
      → v.known now w.store old ≡ true
      → v.view now w.store old f ≡ some b
      → v.known now w.store new ≡ false
      → stale.id ≡ some old
      → stale.pending_id ≡ none
      → serialize_value codec value ≡ ok bytes
      → v.lasts soon
          (required_session_ttl stale.cookie_max_age (unwrap_or ttl stale.cookie_max_age))
          later
        ≡ true
      → v.lasts soon (unwrap_or ttl stale.cookie_max_age) later ≡ true
      → (u : World Cookies Key store.State) × ((regenerate Cookies Key (at store now) new w).0
          ≡ ok (some new))
        × (set Cookies Key (at store soon) codec fresh field value ttl hot (record {
          inner = stale;
          store = (regenerate Cookies Key (at store now) new w).1.store;
        })
            ≡ (ok true, u))
        × (u.inner.id ≡ some old)
        × (v.view later u.store old field ≡ some bytes)
        × ((g : String) → v.view later u.store new g ≡ v.view later w.store old g)
  unfolding regenerate
  set-stale codec now soon later w stale old new f b fresh field value ttl hot bytes valid first
        second named distinct here readable free same none_pending encoded lasting field_lasting =
      let (s, renamed, moved, emptied, others, valid') =
        meets.rename-view now later old new f b w.store valid (omega arith) distinct here readable
          free in
      let (n, s', whole, seen, only, valid'') =
        set-view Cookies Key b64 store v meets codec soon later
          (record { inner = stale; store = s }) valid' second fresh field value ttl hot bytes
          encoded lasting field_lasting none_pending in
      let after : (regenerate Cookies Key (at store now) new w).1.store ≡ s = ground arith in
      let u : World Cookies Key store.State =
        (set Cookies Key (at store soon) codec fresh field value ttl hot
          (record { inner = stale; store = s })).1 in
      (
        u,
        ground arith,
        rw after (ground (arith, whole)),
        ground (arith, whole),
        ground (arith, seen),
        λ g. ground (arith, only new g, moved g, eq_iff (to_string b64 old) (to_string b64 new)),
      )
