-- ===== src/Session/History.antt =====
-- src/session/mod.rs and src/store/store_trait.rs over any store that meets the contract: a value that a
-- handler has set, after any calls that other handlers make.
use ruts.Prelude.{
  ℕ, ◌≤◌, String, ◌≡◌, true, false, Option, none, some, ℤ, str_eq, arith, ◌⊎◌, inl, inr,
}
use ruts.Outcome.{ok}
use ruts.SessionId.{SessionId, Base64, same_session}
use ruts.Store.Codec.{Codec, Bytes, serialize_value, deserialize_value}
use ruts.Store.Contract.{Timed, at, View, Meets}
use ruts.Session.{World, get, set}
use ruts.Session.Effects.{current, field_ttl, session_ttl}
use ruts.Session.AnyStore.{get-view, set-view}

module _ (b64 : Base64) (store : Timed) (v : View store.State) (meets : Meets b64 store v) (t : ℕ)
    (id : SessionId) (field : String) where
  -- One call, at an instant not after `t`, that leaves the field `field` of the session `id` alone: a
  -- `set` of another field or another session, or a `set_and_rename`, `remove`, `delete` or
  -- `rename_session_id` of other sessions. What is written is encoded and lasts until `t`; a session
  -- that is renamed is known, by `rename_session_id` also with a field that can be read, and the new
  -- id is free.
  pub data Step : store.State → store.State → Type 1 where
    setting :
        {T : Type 0} (codec : Codec T) (now : ℕ) (j : SessionId) (f : String) (value : T)
        (key_ttl ttl : ℤ) (hot : Option ℤ) (bytes : Bytes) (s : store.State)
        → now ≤ t
        → serialize_value codec value ≡ ok bytes
        → v.lasts now key_ttl t ≡ true
        → v.lasts now ttl t ≡ true
        → (same_session b64 j id ≡ false) ⊎ ((j ≡ id) × (str_eq f field ≡ false))
        → Step s (store.set now codec j f value key_ttl ttl hot s).1
    removing :
        (now : ℕ) (j : SessionId) (f : String) (s : store.State)
        → now ≤ t
        → same_session b64 j id ≡ false
        → Step s (store.remove now j f s).1
    deleting :
        (now : ℕ) (j : SessionId) (s : store.State)
        → now ≤ t
        → same_session b64 j id ≡ false
        → Step s (store.delete now j s).1
    setting_renaming :
        {T : Type 0} (codec : Codec T) (now : ℕ) (old new : SessionId) (f : String) (value : T)
        (key_ttl ttl : ℤ) (hot : Option ℤ) (bytes : Bytes) (s : store.State)
        → now ≤ t
        → serialize_value codec value ≡ ok bytes
        → v.lasts now key_ttl t ≡ true
        → v.lasts now ttl t ≡ true
        → same_session b64 old id ≡ false
        → same_session b64 new id ≡ false
        → same_session b64 new old ≡ false
        → v.known now s old ≡ true
        → v.known now s new ≡ false
        → Step s (store.set_and_rename now codec old new f value key_ttl ttl hot s).1
    renaming :
        (now : ℕ) (old new : SessionId) (f : String) (bytes : Bytes) (s : store.State)
        → now ≤ t
        → same_session b64 old id ≡ false
        → same_session b64 new id ≡ false
        → same_session b64 new old ≡ false
        → v.known now s old ≡ true
        → v.view now s old f ≡ some bytes
        → v.known now s new ≡ false
        → Step s (store.rename_session_id now old new s).1

  pub data Reach (s : store.State) : store.State → Type 1 where
    here : Reach s s
    next : {u w : store.State} → Reach s u → Step u w → Reach s w

  -- the store is sound and shows the value
  pub record Holds (b : Bytes) (s : store.State) : Type 0 where
    pub valid : v.IsValid s
    pub seen : v.view t s id field ≡ some b

  Step-Holds : (b : Bytes) {s u : store.State} → Step s u → Holds b s → Holds b u
  Step-Holds b (setting codec now j f value key_ttl ttl hot bytes s order encoded k l apart) h =
      let (n, s', called, above, shown, kept, only, known, valid) =
        meets.set-view codec now t j f value key_ttl ttl hot bytes s h.valid order encoded k l in
      let after : (store.set now codec j f value key_ttl ttl hot s).1 ≡ s' = ground arith in
      let unmoved : v.view t s' id field ≡ some b = elim apart [
        | inl other ↦ ground (arith, only id field other, h.seen)
        | inr (same, different) ↦ ground (arith, kept field b different (rw same (h.seen)))
      ] in
      rw after (record { valid = valid; seen = unmoved })
  Step-Holds b (removing now j f s order apart) h =
      let (n, s', called, hidden, only, valid) = meets.remove-view now t j f s h.valid order in
      let after : (store.remove now j f s).1 ≡ s' = ground arith in
      rw after (record { valid = valid; seen = ground (arith, only id field apart, h.seen) })
  Step-Holds b (deleting now j s order apart) h =
      let (n, s', called, hidden, only, valid) = meets.delete-view now t j s h.valid order in
      let after : (store.delete now j s).1 ≡ s' = ground arith in
      rw after (record { valid = valid; seen = ground (arith, only id field apart, h.seen) })
  Step-Holds b
        (setting_renaming codec now old new f value key_ttl ttl hot bytes s order encoded k l apart
          apart' distinct there free)
        h =
      let (n, s', called, above, shown, kept, emptied, others, valid) =
        meets.set_and_rename-view codec now t old new f value key_ttl ttl hot bytes s h.valid order
          encoded k l distinct there free in
      let after : (store.set_and_rename now codec old new f value key_ttl ttl hot s).1 ≡ s' =
        ground arith in
      rw after
        (record { valid = valid; seen = ground (arith, others id field apart' apart, h.seen) })
  Step-Holds b (renaming now old new f bytes s order apart apart' distinct there readable free) h =
      let (s', called, moved, emptied, others, valid) =
        meets.rename-view now t old new f bytes s h.valid order distinct there readable free in
      let after : (store.rename_session_id now old new s).1 ≡ s' = ground arith in
      rw after
        (record { valid = valid; seen = ground (arith, others id field apart' apart, h.seen) })

  pub Reach-Holds : (b : Bytes) {s u : store.State} → Reach s u → Holds b s → Holds b u
  Reach-Holds b here h = h
  Reach-Holds b (next r step) h = Step-Holds b step (Reach-Holds b r h)

module _ (Cookies Key : Type 0) (b64 : Base64) (store : Timed) (v : View store.State)
    (meets : Meets b64 store v) where
  -- Over any store that meets the contract, in a sound state: a handler of a session with no pending
  -- id sets a value that is encoded, and decoded again, with lifetimes that last until `later`. Then
  -- any number of these calls of the store follow, at instants up to `later`: a `set` of another
  -- field or another session, or a `remove` or `delete` of another session, or a `set_and_rename` or
  -- `rename_session_id` from one other session to another one, where what is written is encoded and lasts until `later`, and where a session
  -- that is renamed is known, by `rename_session_id` with a field that can be read, and the new id is
  -- free. A `get` of the field at `later` by any handler of the session reads the value.
  pub any-get-history :
      {T : Type 0} (codec : Codec T) (now later : ℕ) (w : World Cookies Key store.State)
      (fresh : SessionId) (field : String) (value : T) (ttl hot : Option ℤ) (bytes : Bytes)
      (u : World Cookies Key store.State)
      → v.IsValid w.store
      → now ≤ later
      → serialize_value codec value ≡ ok bytes
      → deserialize_value codec bytes ≡ ok value
      → v.lasts now (session_ttl Cookies Key (at store now) w codec fresh field value ttl hot) later
        ≡ true
      → v.lasts now (field_ttl Cookies Key (at store now) w codec fresh field value ttl hot) later
        ≡ true
      → w.inner.pending_id ≡ none
      → u.inner.id ≡ some (current Cookies Key (at store now) w codec fresh field value ttl hot)
      → Reach b64 store v meets later
          (current Cookies Key (at store now) w codec fresh field value ttl hot)
          field
          (set Cookies Key (at store now) codec fresh field value ttl hot w).1.store
          u.store
      → (get Cookies Key (at store later) codec field u).0 ≡ ok (some value)
  any-get-history codec now later w fresh field value ttl hot bytes u valid order encoded decodes
        lasting field_lasting none_pending named reached =
      let id = current Cookies Key (at store now) w codec fresh field value ttl hot in
      let (n, s', whole, seen, only, valid') =
        set-view Cookies Key b64 store v meets codec now later w valid order fresh field value ttl
          hot bytes encoded lasting field_lasting none_pending in
      let after : (set Cookies Key (at store now) codec fresh field value ttl hot w).1.store ≡ s' =
        ground (arith, whole) in
      let holds : Holds b64 store v meets later id field bytes
          (set Cookies Key (at store now) codec fresh field value ttl hot w).1.store =
        rw after (record { valid = valid'; seen = seen }) in
      let end = Reach-Holds b64 store v meets later id field bytes reached holds in
      ground (arith, get-view Cookies Key b64 store v meets codec later field u id named, end.seen)
