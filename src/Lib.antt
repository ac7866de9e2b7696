-- ===== src/Lib.antt =====
-- ruts is a session layer for HTTP services in Rust (tower, axum). A session is an id and a map from
-- field names to encoded values, with lifetimes for the session and for each field. This library
-- models the program's logic and proves what its parts promise. Paths are from the repository's root.
--
-- How a request runs, and where that is modelled:
--   Service.antt (src/service/mod.rs) is the middleware: `call` gives the request a new `Inner`,
--   `poll` writes the session's cookie when the response is ready. Service/Response.antt says what
--   cookie a response carries.
--   Extract.antt (src/extract/mod.rs) is the extractor: it reads the id from the request's cookie.
--   Extract/Requests.antt follows an id from one response to the next request, Extract/Cycle.antt a
--   value that one request's handler sets to the handler of a later request, Extract/Typed where
--   the id of a request comes from.
--   Session/State.antt (src/session/mod.rs) is `Inner`: a mark for the cookie, the id, a pending id,
--   the lifetime. Session.antt is the operations of a handler over any store; the theorems are in
--   Session/Effects and Session/Lifetime, over any store that meets the contract below in
--   Session/AnyStore, Session/History (a value through calls that leave its field alone),
--   Session/Expiring (`expire`, with the end of a lifetime), Session/Stale (two requests of one
--   session) and Session/Shared (two tasks of one request), and over the in-memory store in
--   Session/Roundtrip. Session/Calls is the operations of one request in any order.
--   SessionId.antt (src/session/id.rs) is the id and its text, SessionId/Random.antt its draw,
--   Cookies/Options.antt (src/session/cookie_options.rs) the options, Cookies.antt the crates for
--   cookies.
--   Store/Trait.antt, Store/Codec.antt and Store/SessionMap.antt (src/store/store_trait.rs) are the
--   interface of a store as a record, the encoding of values, and the answer of `get_all`.
--   Store/Contract.antt is what a session relies on in a store, as an abstract specification: a
--   view of the store as a function from instants, sessions and fields to encoded values, and what
--   the operations do to it. Store/Memory/Contract, Store/Redis/Contract and Store/Postgres/Contract
--   give the three stores their views. Store/Memory/Expires and Store/Postgres/Expires add `expire`,
--   where the view keeps instants.
--   Store/Memory.antt with Store/Memory/Expiry.antt (src/store/memory/mod.rs) is the in-memory store.
--   Its specification is `visible` (Store/Memory/View): the value that can be read at an instant.
--   Store/Memory/Interleaving.antt is the accesses of several threads, one after the other, of which
--   Store/Memory/Races has those of `remove`. Store/Memory/Renamers.antt is two threads in
--   `rename_session_id` as a state machine, Store/Memory/Exclusive and Store/Memory/Winner what it
--   keeps and how it ends.
--   Store/Layered.antt (src/store/layered/mod.rs) is a cache before a durable store, over the
--   interfaces of Store/LayeredTrait.antt (src/store/layered_store_trait.rs); Store/Join.antt is
--   `tokio::try_join!`. Store/Layered/Coherence has the layered store over Postgres and any hot store
--   that meets the contract, Store/Layered/Refill over Redis and Postgres, Store/Layered/Evicted
--   and Store/Layered/Undeleted what a rename and `delete` do to a session that the cache has lost.
--   Store/Postgres.antt, with Tables, Queries and Traits below it (src/store/postgres/mod.rs), is the
--   Postgres store, each query a function on two tables. Its specification is `shown`
--   (Store/Postgres/View): the row that can be read at an instant. Store/Postgres/Builder.antt is the
--   builder with the statements that create the tables, Store/Postgres/Tasks.antt the task that
--   cleans them. Store/Postgres/Kept carries what each statement keeps true to every call; what they
--   keep is the foreign key (Store/Postgres/Linked) and the primary keys (Store/Postgres/Keys).
--   Store/Redis.antt (src/store/redis/mod.rs) is the Redis store, Store/Redis/Lua.antt its scripts
--   (src/store/redis/lua.rs), over the server's commands, which are the record of
--   Store/Redis/Server.antt; Store/Redis/Lifetimes and Store/Redis/FieldLifetimes have the lifetimes
--   that they set, Store/Redis/Scripts.antt is how the scripts are loaded and called by their hash.
--   Suite.antt and the modules below it are the unit tests of src/store and src/session as actions on
--   these models; Tests/Suite runs them. Examples.antt and the modules below it are the routes of
--   examples/, with a theorem in Examples/Uncached.
-- Outcome.antt has results, panics and actions on a state, HashMap.antt maps as association lists,
-- DashMap.antt the concurrent map of the in-memory store, Prelude.antt the integers and tests. The
-- modules below Tests apply each theorem to concrete input; Tests/Crates.antt implements the
-- crates, Tests/Server.antt the Redis server, Tests/Builder.antt a database and a timer.
--
-- What is assumed. Crates are records of operations with their documented behaviour as laws: base64,
-- rand, dashmap, the encoders, cookie, tower_cookies, sqlx (to create tables,
-- without laws), the script commands of fred, tokio's timer, and so is the Redis server; small
-- implementations show that the laws can be met.
-- One operation of a store is one step (in Store/Memory/Interleaving and Store/Memory/Renamers one
-- access to the concurrent map is), at instants that it takes as arguments (`Clock`, `now`), and time
-- does not run backwards between them where a theorem says so. An operation that draws an id takes it
-- as an argument. Instants are natural numbers of nanoseconds or microseconds and lifetimes are
-- integers: the additions of the code stay far below the bounds of `i64` and `Instant` for lifetimes
-- that are used, and `f64` holds seconds exactly below 2^53. No definition needs
-- fuel: all recursion is on lists.
--
-- What is not modelled: failures of a connection, statements of other connections within one
-- statement, interleavings of the methods of the in-memory store other than `set`, `remove` and
-- `rename_session_id`, tracing, what the examples and tests do to connect to servers, and the
-- requests of tests/axum.rs, which go through axum. The server of Tests/Server has no lifetimes of
-- fields, which Tests/Lifetimes adds to it: where a test sleeps, the keys whose lifetime ends go.
pub mod Cookies
pub mod DashMap
pub mod Examples
pub mod Extract
pub mod HashMap
pub mod Outcome
pub mod Prelude
pub mod Service
pub mod Session
pub mod SessionId
pub mod Store
pub mod Suite
pub mod Tests
