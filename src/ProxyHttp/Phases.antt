-- ===== src/ProxyHttp/Phases.antt =====
-- How the phases of src/web/proxyhttp.rs work together.
use aralez.Prelude.{
  ℕ, ◌+◌, ◌%◌, ◌≤◌, ◌<◌, ◌==◌, ◌≡◌, refl, ◌⊎◌, inl, inr, true, ◌&&◌, none, some, arith,
  Option-cases, nat_eq, list_eq, leb, if◌then◌else◌,
}
use aralez.Text.{Str}
use aralez.DashMap.{get}
use aralez.DashMap.Laws.{get-insert}
use aralez.Lb.{Lb}
use aralez.GetHosts.{get_host}
use aralez.Tools.Format.{unwrap_or}
use aralez.Metrics.{HttpVersion}
use aralez.ProxyHttp.{Rq, cookie_backend_id, return_header_host_from_upstream}
use aralez.ProxyHttp.Request.{or}
use aralez.ProxyHttp.Upstream.{response_status, count_response, u32_mod, logging}

-- No backend is found for the request.
abbrev pub IsUnserved : Rq → Type 0
IsUnserved rq =
    (return_header_host_from_upstream rq.session rq.world.lb.ump_upst ≡ none)
    ⊎ ((host : Str) × (return_header_host_from_upstream rq.session rq.world.lb.ump_upst ≡ some host)
        × (get_host rq.world.lb host rq.session.path
              (cookie_backend_id rq.ctx.extraparams rq.session)
            ≡ none))

-- `logging` counts a 4xx answer under the client's address, where a limit applies and the address
-- is known: that count goes up by one and no other changes.
pub logging-counts :
    (latency : ℕ) (version : HttpVersion) (summary : Str) (rq : Rq) (limit code : ℕ) (ip k : Str)
    → or rq.ctx.x4xx_limit rq.ctx.extraparams.x4xx_limit ≡ some limit
    → response_status rq.session ≡ some code
    → 400 ≤ code
    → code ≤ 499
    → rq.session.client_ip ≡ some ip
    → get k (logging latency version summary rq).world.requests_4xx ≡ (
        if ip == k
        then some ((unwrap_or 0 (get ip rq.world.requests_4xx) + 1) % u32_mod)
        else get k rq.world.requests_4xx)
unfolding logging count_response
logging-counts latency version summary rq limit code ip k e f low high g =
    let counted : (leb 400 code && leb code 499) ≡ true = ground arith in
    rw (e, f, counted, g, count_response)
      (get-insert ip k ((unwrap_or 0 (get ip rq.world.requests_4xx) + 1) % u32_mod)
        rq.world.requests_4xx)

-- Whatever is not a 4xx answer under a limit leaves the counts as they were.
pub logging-ignores :
    (latency : ℕ) (version : HttpVersion) (summary : Str) (rq : Rq)
    → (or rq.ctx.x4xx_limit rq.ctx.extraparams.x4xx_limit ≡ none)
      ⊎ ((code : ℕ) → response_status rq.session ≡ some code → (code < 400) ⊎ (499 < code))
    → (logging latency version summary rq).world.requests_4xx ≡ rq.world.requests_4xx
unfolding logging count_response
logging-ignores latency version summary rq (inl e) = rw (e, count_response) refl
logging-ignores latency version summary rq (inr other) =
    elim (Option-cases (response_status rq.session)) [
      | inl e ↦ ground arith
      | inr (code, e) ↦ let out = other code e in ground (arith, out)
    ]
