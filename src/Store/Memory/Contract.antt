-- ===== src/Store/Memory/Contract.antt =====
-- src/store/memory/mod.rs: the in-memory store meets the contract of a store.
use ruts.Prelude.{String, eq_iff, arith}
use ruts.HashMap.{map_option}
use ruts.DashMap.{DashMap}
use ruts.SessionId.{SessionId, Base64, to_string}
use ruts.Store.Memory.Renames.{rename-moves}
use ruts.Store.Memory.View.{visible-missing}
use ruts.Store.Contract.{Timed, View, Meets}
use ruts.Store.Memory
use ruts.Store.Memory.{cleanup_expired, get_ttl, insert_field}
use ruts.Store.Memory.Expiry.{StoredValue, Fields}
use ruts.Store.Memory.View.{visible, is_live_mono}
use ruts.Store.Memory.Effects.{get-visible, visible-set, visible-remove, visible-delete}
use ruts.Store.Memory.Moves.{visible-set_and_rename}
use ruts.Store.Memory.Reported.{set-Covers, set_and_rename-Covers}
use ruts.Store.Memory.Ttl.{Covers-above}
use ruts.Store.Memory.Answers.{
  instant, is_present, lasts, lasts-nonzero, live_lem, visible_some, remove-answers, delete-answers,
  present-set,
}

module _ (b64 : Base64) (dash : DashMap Fields) where
  abbrev pub memory_timed : Timed
  memory_timed = record {
    State = dash.Table;
    get = λ now codec. Memory.get b64 dash codec (instant now);
    get_all = λ now. Memory.get_all b64 dash;
    set = λ now codec. Memory.set b64 dash codec (instant now);
    set_and_rename = λ now codec. Memory.set_and_rename b64 dash codec (instant now);
    rename_session_id = λ now. Memory.rename_session_id b64 dash (instant now);
    remove = λ now. Memory.remove b64 dash (instant now);
    delete = λ now. Memory.delete b64 dash (instant now);
    expire = λ now. Memory.expire b64 dash (instant now);
  }

  abbrev pub memory_view : View dash.Table
  memory_view = record {
    IsValid = λ s. Unit {0};
    view = λ t s id f. map_option (λ (v : StoredValue). v.bytes) (visible b64 dash t s id f);
    known = λ t s id. is_present (dash.get s (to_string b64 id));
    lasts = lasts;
  }

  -- The in-memory store meets the contract, at every instant not before the operation.
  pub memory-Meets : Meets b64 memory_timed memory_view
  memory-Meets = record {
    get-view =
        λ codec now id field s. ground (arith, get-visible b64 dash codec (instant now) id field s);
    set-view = λ codec now t id field value key_ttl field_ttl hot bytes s valid order encoded k l.
        let live = live_lem now t key_ttl field_ttl bytes order k l in
        let k0 = lasts-nonzero now t key_ttl order k in
        let l0 = lasts-nonzero now t field_ttl order l in
        let (ttl, reported, covers) =
          set-Covers b64 dash codec (instant now) s id field value key_ttl field_ttl hot bytes k0 l0
            encoded (is_live_mono now t _ order live) in
        let (r, s') =
          Memory.set b64 dash codec (instant now) id field value key_ttl field_ttl hot s in
        let after = λ (j : SessionId) (f : String).
          visible-set b64 dash (instant now) t order s id codec field value key_ttl field_ttl hot j
            f in
        (
          ttl,
          s',
          ground (arith, reported),
          Covers-above now _ ttl covers,
          ground (
            arith,
            after id field,
            eq_iff (to_string b64 id) (to_string b64 id),
            eq_iff field field,
          ),
          λ f b other seen. ground (arith, after id f),
          λ j f other. ground (arith, after j f),
          present-set b64 dash codec (instant now) id field value key_ttl field_ttl hot s k0 l0,
          tt,
        );
    set_and_rename-view =
        λ codec now t old new field value key_ttl field_ttl hot bytes s valid order encoded k l
            distinct here free.
          let live = live_lem now t key_ttl field_ttl bytes order k l in
          let k0 = lasts-nonzero now t key_ttl order k in
          let l0 = lasts-nonzero now t field_ttl order l in
          let (ttl, reported, covers) =
            set_and_rename-Covers b64 dash codec (instant now) s old new field value key_ttl
              field_ttl hot bytes k0 l0 encoded (is_live_mono now t _ order live) in
          let (r, s') =
            Memory.set_and_rename b64 dash codec (instant now) old new field value key_ttl field_ttl
              hot s in
          let after = λ (j : SessionId) (f : String).
            visible-set_and_rename b64 dash (instant now) t order s old new codec field value
              key_ttl field_ttl hot k0 l0 bytes encoded j f in
          (
            ttl,
            s',
            ground (arith, reported),
            Covers-above now _ ttl covers,
            ground (
              arith,
              after new field,
              eq_iff (to_string b64 new) (to_string b64 new),
              eq_iff field field,
            ),
            λ f b other seen.
                ground (arith, after new f, eq_iff (to_string b64 new) (to_string b64 new)),
            λ f. ground (arith, after old f, eq_iff (to_string b64 old) (to_string b64 old)),
            λ j f n o. ground (arith, after j f),
            tt,
          );
    rename-view = λ now t old new field bytes s valid order distinct here readable free.
        let (r, s') = Memory.rename_session_id b64 dash (instant now) old new s in
        let (v₀, seen) = visible_some (visible b64 dash now s old field) bytes readable in
        let unseen = λ (g : String). visible-missing b64 dash now s new g (ground arith) in
        let moved = λ (j : SessionId) (f : String).
          rename-moves b64 dash (instant now) s old new t field v₀ j f order seen unseen in
        (
          s',
          ground (arith, (moved old field).0),
          λ f. ground (arith, (moved new f).1, eq_iff (to_string b64 new) (to_string b64 new)),
          λ f. ground (arith, (moved old f).1, eq_iff (to_string b64 old) (to_string b64 old)),
          λ j f n o. ground (arith, (moved j f).1),
          tt,
        );
    remove-view = λ now t id field s valid order.
        let (r, s') = Memory.remove b64 dash (instant now) id field s in
        let (ttl, answered) = remove-answers b64 dash (instant now) id field s in
        let after = λ (j : SessionId) (f : String).
          visible-remove b64 dash (instant now) t order s id field j f in
        (
          ttl,
          s',
          ground (arith, answered),
          ground (
            arith,
            after id field,
            eq_iff (to_string b64 id) (to_string b64 id),
            eq_iff field field,
          ),
          λ j f other. ground (arith, after j f),
          tt,
        );
    delete-view = λ now t id s valid order.
        let (r, s') = Memory.delete b64 dash (instant now) id s in
        let (done, answered) = delete-answers b64 dash (instant now) id s in
        let after =
          λ (j : SessionId) (f : String). visible-delete b64 dash (instant now) t order s id j f in
        (
          done,
          s',
          ground (arith, answered),
          λ f. ground (arith, after id f, eq_iff (to_string b64 id) (to_string b64 id)),
          λ j f other. ground (arith, after j f),
          tt,
        );
  }
