-- ===== src/ProxyHttp/Tests.antt =====
-- The theorems on src/web/proxyhttp.rs at the sample configuration.
use aralez.Prelude.{
  ◌≡◌, refl, ◌⊎◌, true, false, none, some, [], ◌∷◌, ◌++◌, list_beq, nat_eq, list_eq,
}
use aralez.Prelude.Int.{pos}
use aralez.Text.{Str, bytes, split_once, find, rfind}
use aralez.DashMap.{get, insert}
use aralez.Samples.{server, upstreams, lb, lb_after, auth_env, session_with, authorized}
use aralez.Structs.{UpstreamsDashMap}
use aralez.Lb.{Lb}
use aralez.Session.{Session, header_text, write_response}
use aralez.Metrics.{http_11}
use aralez.GetHosts.{find_sticky_backend, pick_backend, try_path, host_loop, search_paths, get_host}
use aralez.Tools.{clone_idmap_into}
use aralez.ProxyHttp.{
  Context, World, ProxyEnv, Rq, new_ctx, host_str, return_header_host_from_upstream, cookie_key,
  cookie_backend_id,
}
use aralez.ProxyHttp.Request.{entered, request_filter}
use aralez.ProxyHttp.Upstream.{
  upstream_peer, upstream_request_filter, response_filter, peer_id, logging,
}
use aralez.ProxyHttp.Gates.{IsAdmitted}
use aralez.ProxyHttp.Gauge.{gauge, filtered, chosen, sent, received, logging-Reached-gauge}
use aralez.ProxyHttp.Admission.{request_filter-IsAdmitted}

-- The limiter counts what it was shown, and the hash is a constant.
abbrev env : ProxyEnv
env = record { auth = auth_env; observe = λ history key. pos 1; sha_hex = λ s. bytes "ab" }

abbrev world : World
world = record {
  lb = lb;
  jwt_cache = [];
  reverse_store = [];
  requests_4xx = (bytes "10.0.0.1", 3) ∷ [];
  rate_limiter = [];
  metrics = record {
    request_count = 0;
    response_codes = [];
    response_latency = [];
    requests_by_method = [];
    requests_by_version = [];
    requests_by_upstream = [];
    active_sessions = pos 0;
  };
  log = record { access_log = none; log_sender = none; logging_errors = pos 0 };
}

abbrev rq : Rq
rq = record { session = authorized (bytes "Basic dTpw"); ctx = new_ctx lb; world = world }

abbrev host : Str
host = bytes "x.io"

return_header_host_run : return_header_host_from_upstream rq.session upstreams ≡ some host
unfolding return_header_host_from_upstream host_str header_text split_once find get list_beq
return_header_host_run = refl

get_host_run :
    get_host lb host rq.session.path (cookie_backend_id rq.ctx.extraparams rq.session)
    ≡ some (server "b" 8000, lb_after)
unfolding get_host search_paths host_loop try_path pick_backend find_sticky_backend get insert
    list_beq rfind cookie_backend_id new_ctx
get_host_run = refl

request_filter-IsAdmitted_example :
    (((request_filter env rq).0 ≡ false)
      × ((request_filter env rq).1.ctx.upstream_peer ≡ some (server "b" 8000))
      × ((request_filter env rq).1.ctx.hostname ≡ some host)
      × IsAdmitted env (server "b" 8000) (entered rq))
    ⊎ (((request_filter env rq).0 ≡ true) × ¬ IsAdmitted env (server "b" 8000) (entered rq))
request_filter-IsAdmitted_example =
    request_filter-IsAdmitted env rq host (server "b" 8000) lb_after return_header_host_run
      get_host_run

-- A request for a name that is not configured.
abbrev unserved_rq : Rq
unserved_rq = record rq {
  session = record rq.session {
    headers = (bytes "host", record { text = some (bytes "y.io") }) ∷ [];
  };
}

-- The run of a request that is sent to a backend and gets its answer.
abbrev served_rq : Rq
served_rq =
    let peer = (upstream_peer (request_filter env rq).1).1 in
    (response_filter env (λ k v. true) (upstream_request_filter (λ k v. true) peer).2).2

logging-Reached-gauge_example : gauge (logging 0 http_11 [] served_rq) ≡ gauge rq
logging-Reached-gauge_example =
    logging-Reached-gauge env (λ k v. true) 0 http_11 [] rq served_rq
      (received (sent (chosen filtered)))

-- A request under a limit of five, answered with 404.
abbrev missing_rq : Rq
missing_rq = record rq {
  ctx = record rq.ctx { x4xx_limit = some 5 };
  session =
      write_response (record { status = 404; headers = []; body = []; closes = false }) rq.session;
}

-- One host with one server, so that any hash tells its backends apart.
abbrev only_c : UpstreamsDashMap
only_c = (host, (bytes "/", (server "c" 80 ∷ [], 0)) ∷ []) ∷ []

abbrev sticky_lb : Lb
sticky_lb = record lb {
  ump_upst = only_c;
  ump_byid = clone_idmap_into env.sha_hex only_c [];
  extraparams = record lb.extraparams { sticky_sessions = some 60 };
}

abbrev sticky_ctx : Context
sticky_ctx = record (new_ctx sticky_lb) { backend_id = some (peer_id host (server "c" 80)) }

abbrev with_cookie : Session
with_cookie =
    session_with ((bytes "cookie", record { text = some (cookie_key ++ bytes "ab") }) ∷ [])
