-- ===== src/ProxyHttp/Gauge.antt =====
-- The gauge of the active sessions over all the phases of a request (src/web/proxyhttp.rs).
use aralez.Prelude.{
  ℕ, zero, suc, ◌≡◌, refl, ap, ◌∙◌, inl, inr, Bool, false, none, some, arith, Option-cases, nat_eq,
  list_eq,
}
use aralez.Prelude.Int.{ℤ, pos, negsuc}
use aralez.Text.{Str}
use aralez.Structs.{InnerMap}
use aralez.Session.{Session}
use aralez.GetHosts.{get_host}
use aralez.Metrics.{HttpVersion, inc, dec, calc_metrics}
use aralez.ProxyHttp.{ProxyEnv, Rq, cookie_backend_id}
use aralez.ProxyHttp.Request.{
  Flow, answered, pass, ◌>>=◌, auth_gate, x4xx_gate, rate_gate, redirect_gate, https_gate, gates,
  with_peer, entered, dispatch, request_filter,
}
use aralez.ProxyHttp.Upstream.{upstream_peer, upstream_request_filter, response_filter, logging}

abbrev pub gauge : Rq → ℤ
gauge rq = rq.world.metrics.active_sessions

abbrev state : Flow → Rq
state (answered rq) = rq
state (pass rq) = rq

bind-gauge :
    (g : ℤ) (f : Flow) (k : Rq → Flow)
    → gauge (state f) ≡ g
    → ((m : Rq) → gauge m ≡ g → gauge (state (k m)) ≡ g)
    → gauge (state (f >>= k)) ≡ g
bind-gauge g (answered rq) k e next = e
bind-gauge g (pass rq) k e next = next rq e

module _ (env : ProxyEnv) (innermap : InnerMap) where
  auth_gate-gauge : (rq : Rq) → gauge (state (auth_gate env innermap rq)) ≡ gauge rq
  unfolding auth_gate
  auth_gate-gauge rq = ground arith

  x4xx_gate-gauge : (rq : Rq) → gauge (state (x4xx_gate env innermap rq)) ≡ gauge rq
  unfolding x4xx_gate
  x4xx_gate-gauge rq = ground arith

  rate_gate-gauge : (rq : Rq) → gauge (state (rate_gate env innermap rq)) ≡ gauge rq
  unfolding rate_gate
  rate_gate-gauge rq = ground arith

  redirect_gate-gauge : (rq : Rq) → gauge (state (redirect_gate env innermap rq)) ≡ gauge rq
  unfolding redirect_gate
  redirect_gate-gauge rq = ground arith

  https_gate-gauge : (rq : Rq) → gauge (state (https_gate env innermap rq)) ≡ gauge rq
  unfolding https_gate
  https_gate-gauge rq = ground arith

  gates-gauge : (rq : Rq) → gauge (state (gates env innermap rq)) ≡ gauge rq
  unfolding gates
  gates-gauge rq =
      let g = gauge rq in
      bind-gauge g (auth_gate env innermap rq) _ (auth_gate-gauge rq) (λ a p.
        bind-gauge g (x4xx_gate env innermap a) _ (x4xx_gate-gauge a ∙ p) (λ b q.
          bind-gauge g (rate_gate env innermap b) _ (rate_gate-gauge b ∙ q) (λ c r.
            bind-gauge g (redirect_gate env innermap c) _ (redirect_gate-gauge c ∙ r)
              (λ d s. https_gate-gauge d ∙ s))))

  with_peer-gauge : (f : Flow) → gauge (with_peer env innermap f).1 ≡ gauge (state f)
  with_peer-gauge (answered rq) = refl
  with_peer-gauge (pass rq) = refl

dispatch-gauge : (env : ProxyEnv) (host : Str) (rq : Rq) → gauge (dispatch env host rq).1 ≡ gauge rq
unfolding dispatch
dispatch-gauge env host rq =
    elim (Option-cases (
      get_host rq.world.lb host rq.session.path
        (cookie_backend_id rq.ctx.extraparams rq.session))) [
          | inl e ↦ rw (e, dispatch) refl
          | inr ((innermap, lb), e) ↦
              let r : Rq = record rq { world = record rq.world { lb = lb } } in
              rw (e, dispatch)
                (with_peer-gauge env innermap (gates env innermap r) ∙ gates-gauge env innermap r)
        ]

request_filter-gauge : (env : ProxyEnv) (rq : Rq) → gauge (request_filter env rq).1 ≡ inc (gauge rq)
unfolding request_filter entered
request_filter-gauge env rq =
    let rq' = entered rq in
    elim rq'.ctx.hostname
      as (λ o.
        gauge
          (elim o as (λ _. Bool × Rq) [ none ↦ (false, rq') | some host ↦ dispatch env host rq' ]).1
        ≡ inc (gauge rq)) [ none ↦ refl | some host ↦ dispatch-gauge env host rq' ]

upstream_peer-gauge : (rq : Rq) → gauge (upstream_peer rq).1 ≡ gauge rq
unfolding upstream_peer
upstream_peer-gauge rq = ground arith

upstream_request_filter-gauge :
    (valid : Str → Str → Bool) (rq : Rq) → gauge (upstream_request_filter valid rq).2 ≡ gauge rq
unfolding upstream_request_filter
upstream_request_filter-gauge valid rq = ground arith

logging-gauge :
    (latency : ℕ) (version : HttpVersion) (summary : Str) (rq : Rq)
    → gauge (logging latency version summary rq) ≡ dec (gauge rq)
unfolding logging calc_metrics
logging-gauge latency version summary rq = refl

dec-inc : (n : ℤ) → dec (inc n) ≡ n
dec-inc (pos n) = refl
dec-inc (negsuc zero) = refl
dec-inc (negsuc (suc n)) = refl

-- The states of a request that has entered the proxy: pingora calls the later phases in an order
-- that is not assumed here, and changes the session itself between them.
pub data Reached (env : ProxyEnv) (valid : Str → Str → Bool) (rq : Rq) : Rq → Type 0 where
  filtered : Reached env valid rq (request_filter env rq).1
  chosen : {m : Rq} → Reached env valid rq m → Reached env valid rq (upstream_peer m).1
  sent :
      {m : Rq} → Reached env valid rq m → Reached env valid rq (upstream_request_filter valid m).2
  received :
      {m : Rq} → Reached env valid rq m → Reached env valid rq (response_filter env valid m).2
  relayed :
      {m : Rq} (session : Session)
      → Reached env valid rq m
      → Reached env valid rq (record m { session = session })

Reached-gauge :
    {env : ProxyEnv} {valid : Str → Str → Bool} {rq m : Rq}
    → Reached env valid rq m
    → gauge m ≡ inc (gauge rq)
unfolding response_filter
Reached-gauge {env} {rq = rq} filtered = request_filter-gauge env rq
Reached-gauge (chosen {m} r) = upstream_peer-gauge m ∙ Reached-gauge r
Reached-gauge {valid = valid} (sent {m} r) = upstream_request_filter-gauge valid m ∙ Reached-gauge r
Reached-gauge (received r) = Reached-gauge r
Reached-gauge (relayed session r) = Reached-gauge r

-- The gauge of the active sessions is balanced: whichever phases a request goes through after
-- `request_filter`, and wherever it ends, after `logging` the gauge is what it was before.
pub logging-Reached-gauge :
    (env : ProxyEnv) (valid : Str → Str → Bool) (latency : ℕ) (version : HttpVersion)
    (summary : Str) (rq m : Rq)
    → Reached env valid rq m
    → gauge (logging latency version summary m) ≡ gauge rq
logging-Reached-gauge env valid latency version summary rq m r =
    logging-gauge latency version summary m ∙ ap dec (Reached-gauge r) ∙ dec-inc (gauge rq)
