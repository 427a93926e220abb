-- ===== src/ProxyHttp/Request.antt =====
-- `request_filter` of src/web/proxyhttp.rs. A gate answers the request itself (`Ok(true)`) or lets
-- it pass to the next one.
use aralez.Prelude.{
  Bool, true, false, not, ◌&&◌, ◌||◌, Option, none, some, [], ◌∷◌, ◌++◌, ◌==◌, nat_eq, list_eq,
  if◌then◌else◌, ltb,
}
use aralez.Prelude.Int.{ltb_ℤ}
use aralez.Text.{Str, bytes}
use aralez.DashMap.{get}
use aralez.Structs.{InnerAuth, InnerMap}
use aralez.Session.{Response, Session, write_response}
use aralez.Auth.{authenticate}
use aralez.Metrics.{inc}
use aralez.GetHosts.{get_host}
use aralez.Tools.Format.{unwrap_or}
use aralez.ProxyHttp.{ProxyEnv, Rq, return_header_host_from_upstream, cookie_backend_id}

pub data Flow : Type 0 where
  answered : Rq → Flow
  pass : Rq → Flow

infixl 5 ◌>>=◌
abbrev pub ◌>>=◌ : Flow → (Rq → Flow) → Flow
answered rq >>= k = answered rq
pass rq >>= k = k rq

-- `Option::or`
abbrev pub or {ℓ} : {A : Type ℓ} → Option A → Option A → Option A
or none b = b
or (some a) b = some a

abbrev pub respond : Response → Rq → Flow
respond r rq = answered (record rq { session = write_response r rq.session })

abbrev pub unauthorized : Response
unauthorized = record { status = 401; headers = []; body = []; closes = false }

abbrev pub too_many : Response
too_many = record { status = 429; headers = []; body = []; closes = true }

abbrev pub moved : Str → Response
moved location = record {
  status = 301;
  headers = (bytes "Location", location) ∷ (bytes "Content-Length", bytes "0") ∷ [];
  body = [];
  closes = false;
}

module _ (env : ProxyEnv) (innermap : InnerMap) where
  -- The authentication of the configuration before that of the path.
  abbrev pub required_auth : Rq → Option InnerAuth
  required_auth rq = or rq.ctx.extraparams.authentication innermap.authorization

  unfoldable pub auth_gate : Rq → Flow
  auth_gate rq = elim (required_auth rq) [
    | none ↦ pass rq
    | some auth ↦
        let (verdict, session, cache) = authenticate env.auth auth rq.session rq.world.jwt_cache in
        let rq' = record rq { session = session; world = record rq.world { jwt_cache = cache } } in
        if verdict then pass rq' else respond unauthorized rq'
  ]

  unfoldable pub x4xx_gate : Rq → Flow
  x4xx_gate rq = elim (or innermap.x4xx_limit rq.ctx.extraparams.x4xx_limit) [
    | none ↦ pass rq
    | some rate ↦
        let rq' = record rq { ctx = record rq.ctx { x4xx_limit = innermap.x4xx_limit } } in
        elim rq.session.client_ip [
          | none ↦ pass rq'
          | some rk ↦
              if ltb rate (unwrap_or 0 (get rk rq.world.requests_4xx))
              then respond too_many rq'
              else pass rq'
        ]
  ]

  -- `RATE_LIMITER.observe(&rate_key, 1)`, and the request is then among the observed.
  unfoldable pub rate_gate : Rq → Flow
  rate_gate rq = elim (or innermap.rate_limit rq.ctx.extraparams.rate_limit) [
    | none ↦ pass rq
    | some rate ↦
        let rate_key = rq.session.client_ip in
        let rq' = record rq {
          world = record rq.world { rate_limiter = rate_key ∷ rq.world.rate_limiter };
        } in
        if ltb_ℤ rate (env.observe rq.world.rate_limiter rate_key)
        then respond too_many rq'
        else pass rq'
  ]

  unfoldable pub redirect_gate : Rq → Flow
  redirect_gate rq = elim innermap.redirect_to [
    | none ↦ pass rq
    | some redirect_to ↦ respond (moved (redirect_to ++ rq.session.path)) rq
  ]

  abbrev pub https_location : Str → Str → Str → Str
  https_location port host uri =
      bytes "https://" ++ (host ++ ((if port == bytes "443" then [] else b':' ∷ port) ++ uri))

  abbrev pub wants_https : Rq → Bool
  wants_https rq = unwrap_or false rq.ctx.extraparams.to_https || innermap.to_https

  -- The connection is there, and without TLS.
  abbrev pub is_plain : Session → Bool
  is_plain session = elim session.stream [ none ↦ false | some ssl ↦ not ssl ]

  unfoldable pub https_gate : Rq → Flow
  https_gate rq =
      if wants_https rq && is_plain rq.session
      then elim rq.ctx.hostname [
        | none ↦ pass rq
        | some host ↦
            let port = unwrap_or (bytes "443") rq.world.lb.config.proxy_port_tls in
            respond (moved (https_location port host rq.session.path)) rq
      ]
      else pass rq

  unfoldable pub gates : Rq → Flow
  gates rq = do
    authenticated ← auth_gate rq
    below_4xx ← x4xx_gate authenticated
    below_rate ← rate_gate below_4xx
    not_redirected ← redirect_gate below_rate
    https_gate not_redirected

  -- `_ctx.upstream_peer = optioninnermap;`
  abbrev pub with_peer : Flow → Bool × Rq
  with_peer (answered rq) = (true, rq)
  with_peer (pass rq) = (false, record rq { ctx = record rq.ctx { upstream_peer = some innermap } })

-- The gauge and the host name, before the host is looked up.
unfoldable pub entered : Rq → Rq
entered rq = record rq {
  ctx = record rq.ctx {
    hostname = return_header_host_from_upstream rq.session rq.world.lb.ump_upst;
  };
  world = record rq.world {
    metrics = record rq.world.metrics { active_sessions = inc rq.world.metrics.active_sessions };
  };
}

-- Once the host is known: its backend, and the gates.
unfoldable pub dispatch : ProxyEnv → Str → Rq → Bool × Rq
dispatch env host rq =
    elim (get_host rq.world.lb host rq.session.path
      (cookie_backend_id rq.ctx.extraparams rq.session)) [
        | none ↦ (false, rq)
        | some (innermap, lb) ↦
            with_peer env innermap
              (gates env innermap (record rq { world = record rq.world { lb = lb } }))
      ]

-- True where the request is answered, false where it goes on to `upstream_peer`.
unfoldable pub request_filter : ProxyEnv → Rq → Bool × Rq
request_filter env rq =
    let rq' = entered rq in
    elim rq'.ctx.hostname [ none ↦ (false, rq') | some host ↦ dispatch env host rq' ]
