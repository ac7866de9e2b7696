-- ===== src/Extract/Typed.antt =====
-- src/session/id.rs, src/session/mod.rs, src/service/mod.rs and src/extract/mod.rs together: where the
-- id of a request comes from.
use ruts.Prelude.{◌≡◌, ◌⊎◌, Option, none, some}
use ruts.Outcome.{ok}
use ruts.SessionId.{SessionId, Base64, from_str}
use ruts.SessionId.Random.{Rng, IsDrawn}
use ruts.Cookies.{CookieCrate, JarCrate}
use ruts.Cookies.Options.{CookieOptions}
use ruts.Store.Trait.{SessionStore}
use ruts.Session.State.{Inner}
use ruts.Session.{World}
use ruts.Session.Calls.{
  Step, getting, getting_all, setting, removing, deleting, expiring, regenerating, preparing, aging,
  Reach, here, next,
}
use ruts.Service.{Extensions, SessionService}
use ruts.Extract.{find_cookie}

-- an id that is there has the property
abbrev OfOption : (SessionId → Type 0) → Option SessionId → Type 0
OfOption P none = Unit
OfOption P (some id) = P id

-- both ids of a session have it
record Of (P : SessionId → Type 0) {Cookies Key : Type 0} (inner : Inner Cookies Key) : Type 0 where
  id : OfOption P inner.id
  pending_id : OfOption P inner.pending_id

module _ {Cookies Key : Type 0} (rng : Rng) (store : SessionStore) where
  -- the id that an operation may use is drawn
  abbrev pub StepDraws : {w u : World Cookies Key store.State} → Step store w u → Type 0
  StepDraws (getting codec field w) = Unit
  StepDraws (getting_all w) = Unit
  StepDraws (setting codec fresh field value ttl hot w) = IsDrawn rng fresh
  StepDraws (removing field w) = Unit
  StepDraws (deleting w) = Unit
  StepDraws (expiring ttl w) = Unit
  StepDraws (regenerating fresh w) = IsDrawn rng fresh
  StepDraws (preparing fresh w) = IsDrawn rng fresh
  StepDraws (aging seconds w) = Unit

  -- and so are those of all operations
  abbrev pub Draws : {w u : World Cookies Key store.State} → Reach store w u → Type 0
  Draws here = Unit
  Draws (next r step) = Draws r × StepDraws step

module _ (b64 : Base64) (crate : CookieCrate) (jars : JarCrate crate) (rng : Rng)
    (store : SessionStore) {Service Store : Type 0}
    (service : SessionService Service crate.SameSite jars.Key Store)
    (parts : Extensions jars.Jar jars.Key) where
  -- The request carries a cookie with the configured name, and where a signing key is configured,
  -- signed with it, whose value is the text of the id.
  pub record IsSent (id : SessionId) : Type 0 where
    pub options : CookieOptions crate.SameSite jars.Key
    pub jar : jars.Jar
    pub cookie : crate.Cookie
    pub configured : service.cookie_options ≡ some options
    pub brought : parts.cookies ≡ some jar
    pub found : find_cookie b64 crate jars options.signing_key jar options.name ≡ some cookie
    pub reads : from_str b64 (crate.value cookie) ≡ ok id

  abbrev Origin : SessionId → Type 0
  Origin id = IsDrawn rng id ⊎ IsSent id
