-- ===== src/Service/Response.antt =====
-- src/service/mod.rs: the cookie that a response carries.
use ruts.Prelude.{
  String, ◌≡◌, refl, ℤ, Option, none, some, true, false, arith, eq_iff, Option-cases, inl, inr,
}
use ruts.Outcome.{Result, ok, err, panic}
use ruts.SessionId.{SessionId, Base64, to_string}
use ruts.Cookies.{CookieCrate, JarCrate}
use ruts.Session.State.{Inner, is_changed, is_deleted}
use ruts.Extract.{find_cookie}
use ruts.Service.{
  Poll, pending, ready, Options, session_cookie, removal_cookie, in_domain, in_path, build_cookie,
  drop_cookie, poll,
}

module _ (b64 : Base64) (crate : CookieCrate) (jars : JarCrate crate) where
  -- the conditional steps keep what they do not set
  in_domain_lem :
      (domain : Option String) (c : crate.Cookie)
      → (crate.name (in_domain b64 crate jars domain c) ≡ crate.name c)
        × (crate.value (in_domain b64 crate jars domain c) ≡ crate.value c)
        × (crate.max_age (in_domain b64 crate jars domain c) ≡ crate.max_age c)
        × (crate.path (in_domain b64 crate jars domain c) ≡ crate.path c)
  unfolding in_domain
  in_domain_lem none c = (refl, refl, refl, refl)
  in_domain_lem (some d) c = (
    crate.name-set_domain d c,
    crate.value-set_domain d c,
    crate.max_age-set_domain d c,
    crate.path-set_domain d c,
  )

  in_path_lem :
      (path : Option String) (c : crate.Cookie)
      → crate.path c ≡ none
      → (crate.name (in_path b64 crate jars path c) ≡ crate.name c)
        × (crate.value (in_path b64 crate jars path c) ≡ crate.value c)
        × (crate.max_age (in_path b64 crate jars path c) ≡ crate.max_age c)
        × (crate.path (in_path b64 crate jars path c) ≡ path)
  unfolding in_path
  in_path_lem none c h = (refl, refl, refl, h)
  in_path_lem (some p) c h = (
    crate.name-set_path p c,
    crate.value-set_path p c,
    crate.max_age-set_path p c,
    crate.path-set_path p c,
  )

  -- The cookie of a session has the configured name and path, the session's id as its value, and the
  -- session's lifetime.
  pub session_cookie_lem :
      (id : SessionId) (o : Options b64 crate jars) (max_age : ℤ)
      → (crate.name (session_cookie b64 crate jars id o max_age) ≡ o.name)
        × (crate.value (session_cookie b64 crate jars id o max_age) ≡ to_string b64 id)
        × (crate.max_age (session_cookie b64 crate jars id o max_age) ≡ some max_age)
        × (crate.path (session_cookie b64 crate jars id o max_age) ≡ o.path)
  unfolding session_cookie
  session_cookie_lem id o max_age =
      let c₀ = crate.build o.name (to_string b64 id) in
      let c₁ = crate.set_secure o.secure c₀ in
      let c₂ = crate.set_http_only o.http_only c₁ in
      let c₃ = crate.set_same_site o.same_site c₂ in
      let c₄ = crate.set_max_age max_age c₃ in
      let c₅ = in_domain b64 crate jars o.domain c₄ in
      let (n₅, v₅, m₅, p₅) = in_domain_lem o.domain c₄ in
      let unscoped : crate.path c₅ ≡ none = cc (
        p₅,
        crate.path-set_max_age max_age c₃,
        crate.path-set_same_site o.same_site c₂,
        crate.path-set_http_only o.http_only c₁,
        crate.path-set_secure o.secure c₀,
        crate.path-build o.name (to_string b64 id),
      ) in
      let (n, v, m, p) = in_path_lem o.path c₅ unscoped in
      (
        cc (
          n,
          n₅,
          crate.name-set_max_age max_age c₃,
          crate.name-set_same_site o.same_site c₂,
          crate.name-set_http_only o.http_only c₁,
          crate.name-set_secure o.secure c₀,
          crate.name-build o.name (to_string b64 id),
        ),
        cc (
          v,
          v₅,
          crate.value-set_max_age max_age c₃,
          crate.value-set_same_site o.same_site c₂,
          crate.value-set_http_only o.http_only c₁,
          crate.value-set_secure o.secure c₀,
          crate.value-build o.name (to_string b64 id),
        ),
        cc (m, m₅, crate.max_age-set_max_age max_age c₃),
        p,
      )

  module _ {Body : Type 0} (E : Type 0) (o : Options b64 crate jars)
      (s : Inner jars.Jar jars.Key) where
    -- A session that is neither changed nor deleted leaves the cookie jar, and the response, alone.
    -- So do, for any session, a response that is not ready and one that is an error.
    pub poll_idle :
        (r : Poll (Result E Body)) (e : E)
        → (is_changed s ≡ false → is_deleted s ≡ false → poll b64 crate jars r (some o) s ≡ (r, s))
          × (poll b64 crate jars {Body = Body} {E = E} pending (some o) s ≡ (pending, s))
          × (poll b64 crate jars {Body = Body} (ready (err e)) (some o) s ≡ (ready (err e), s))
    unfolding poll
    poll_idle r e = (idle r, refl, refl)
      where
        idle :
            (r : Poll (Result E Body))
            → is_changed s ≡ false
            → is_deleted s ≡ false
            → poll b64 crate jars r (some o) s ≡ (r, s)
        idle pending same kept = refl
        idle (ready (err e)) same kept = refl
        idle (ready panic) same kept = refl
        idle (ready (ok res)) same kept = ground arith

    -- The response of a deleted session with a jar has no cookie of that name in its jar.
    pub poll_deleted :
        (res : Body) (jar : jars.Jar)
        → is_deleted s ≡ true
        → s.cookies ≡ some jar
        → (j : jars.Jar) × ((poll b64 crate jars {E = E} (ready (ok res)) (some o) s).1.cookies
            ≡ some j)
          × (jars.get j o.name ≡ none)
    unfolding poll
    poll_deleted res jar deleted here = (
      drop_cookie b64 crate jars o jar,
      ground arith,
      ground (
        arith,
        jars.get-remove (removal_cookie b64 crate jars o) jar o.name,
        crate.name-named o.name,
        eq_iff o.name o.name,
      ),
    )

    -- The response of a changed session with an id and a jar carries the session's cookie: the
    -- jar, through its signed view if there is a key, answers with it.
    pub poll_changed :
        (res : Body) (jar : jars.Jar) (id : SessionId)
        → is_changed s ≡ true
        → s.id ≡ some id
        → s.cookies ≡ some jar
        → (j : jars.Jar) × ((poll b64 crate jars {E = E} (ready (ok res)) (some o) s).1.cookies
            ≡ some j)
          × (find_cookie b64 crate jars o.signing_key j o.name
              ≡ some (session_cookie b64 crate jars id o s.cookie_max_age))
    unfolding poll find_cookie
    poll_changed res jar id changed named here =
        let c = session_cookie b64 crate jars id o s.cookie_max_age in
        let (n, v, m, p) = session_cookie_lem id o s.cookie_max_age in
        (
          build_cookie b64 crate jars id o s.cookie_max_age jar,
          ground arith,
          elim (Option-cases o.signing_key) [
            | inl e ↦ ground (arith, jars.get-add c jar o.name, n, eq_iff o.name o.name)
            | inr (key, e) ↦
                ground (arith, jars.signed_get-signed_add key c jar o.name, n, eq_iff o.name o.name)
          ],
        )
