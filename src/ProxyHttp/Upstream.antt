-- ===== src/ProxyHttp/Upstream.antt =====
-- The later phases of src/web/proxyhttp.rs: `upstream_peer`, `upstream_request_filter`,
-- `response_filter` and `logging`. What a phase does to the headers of a request or a response is
-- the list of its calls of `append_header` and `insert_header`.
use aralez.Prelude.{
  ℕ, ◌+◌, ◌%◌, ◌^◌, Bool, true, false, not, ◌&&◌, Option, none, some, List, [], ◌∷◌, ◌++◌, nat_eq,
  list_eq, if◌then◌else◌, leb, take,
}
use aralez.Prelude.Int.{pos}
use aralez.Text.{Str, bytes, show, show_bool}
use aralez.DashMap.{DashMap, get, insert}
use aralez.Structs.{InnerMap, HeaderList}
use aralez.Session.{Response, Session, header_text, write_response}
use aralez.Metrics.{HttpVersion, calc_metrics, dec}
use aralez.Logging.{LogMessage, access_log}
use aralez.GetHosts.{get_header}
use aralez.Tools.Format.{unwrap_or, show_int, debug_authorization}
use aralez.ProxyHttp.{Context, ProxyEnv, Rq}
use aralez.ProxyHttp.Request.{or}

pub record HttpPeer : Type 0 where
  pub address : Str
  pub port : ℕ
  pub tls : Bool
  pub sni : Str
  -- `options.alpn = ALPN::H2`
  pub alpn_h2 : Bool
  -- `options.verify_cert` and `options.verify_hostname`, true by default.
  pub verify_cert : Bool
  pub verify_hostname : Bool

-- The text that `upstream_peer` writes for a backend.
unfoldable pub peer_id : Str → InnerMap → Str
unfolding show show_int debug_authorization
peer_id hostname innermap =
    hostname
    ++ (b':'
        ∷ (innermap.address
            ++ (b':'
                ∷ (show innermap.port
                    ++ (b':'
                        ∷ (show_bool innermap.is_http2
                            ++ (b':'
                                ∷ (show_bool innermap.to_https
                                    ++ (b':'
                                        ∷ (show (unwrap_or 0 innermap.x4xx_limit)
                                            ++ (b':'
                                                ∷ (show_int (unwrap_or (pos 0) innermap.rate_limit)
                                                    ++ (b':'
                                                        ∷ (show_bool
                                                            (unwrap_or false innermap.healthcheck)
                                                            ++ (b':'
                                                            ∷ debug_authorization
                                                            innermap.authorization)))))))))))))))

abbrev pub bad_gateway : Response
bad_gateway = record {
  status = 502;
  headers = [];
  body = bytes "502 Bad Gateway\n";
  closes = false;
}

abbrev pub peer_of : Str → InnerMap → HttpPeer
peer_of hostname innermap = record {
  address = innermap.address;
  port = innermap.port;
  tls = innermap.is_ssl;
  sni = hostname;
  alpn_h2 = innermap.is_http2;
  verify_cert = not innermap.is_ssl;
  verify_hostname = not innermap.is_ssl;
}

abbrev with_id : Str → InnerMap → Rq → Rq
with_id hostname innermap rq = elim rq.ctx.extraparams.sticky_sessions [
  | none ↦ rq
  | some max_age ↦ record rq {
    ctx = record rq.ctx { backend_id = some (peer_id hostname innermap) };
  }
]

abbrev fail_502 : Rq → Rq
fail_502 rq = record rq { session = write_response bad_gateway rq.session }

-- `None` is the error 502.
unfoldable pub upstream_peer : Rq → Option HttpPeer × Rq
upstream_peer rq = elim rq.ctx.hostname [
  | none ↦ (none, fail_502 rq)
  | some hostname ↦ elim rq.ctx.upstream_peer [
    | none ↦ (none, fail_502 rq)
    | some innermap ↦ (some (peer_of hostname innermap), with_id hostname innermap rq)
  ]
]

pub data HeaderCall : Type 0 where
  append_header insert_header : Str → Str → HeaderCall

-- The calls of one loop with `?`: they stop at the first header that is not `valid`, which is the
-- error; `valid` stands for the check of names and values by the crate `http`.
unfoldable pub header_loop :
    (Str → Str → HeaderCall) → (Str → Str → Bool) → HeaderList → Bool × List HeaderCall
header_loop call valid [] = (true, [])
header_loop call valid ((k, v) ∷ headers) =
    let rest = header_loop call valid headers in
    if valid k v then (rest.0, call k v ∷ rest.1) else (false, [])

abbrev forwarded_for : Session → List HeaderCall
forwarded_for session = elim session.client_ip [
  | none ↦ []
  | some ip ↦ append_header (bytes "X-Forwarded-For") ip ∷ []
]

abbrev or_empty : Option HeaderList → HeaderList
or_empty none = []
or_empty (some hs) = hs

-- Whether the phase succeeds, the calls on the upstream request, and the request.
unfoldable pub upstream_request_filter : (Str → Str → Bool) → Rq → Bool × List HeaderCall × Rq
upstream_request_filter valid rq =
    let hostname = unwrap_or (bytes "localhost") rq.ctx.hostname in
    elim (get_header rq.world.lb hostname rq.session.path) [
      | none ↦ (true, forwarded_for rq.session, rq)
      | some h ↦
          let calls = header_loop insert_header valid (or_empty h.server_headers) in
          (
            calls.0,
            forwarded_for rq.session ++ calls.1,
            if calls.0
                then record rq {
                  ctx = record rq.ctx {
                    client_headers = or h.client_headers rq.ctx.client_headers;
                  };
                }
                else rq,
          )
    ]

-- The id that goes into the cookie: the stored one, or the hash, which is stored both ways.
unfoldable pub cookie_id : (Str → Str) → Str → DashMap Str Str → Str × DashMap Str Str
cookie_id sha_hex bid store = elim (get bid store) [
  | some existing ↦ (existing, store)
  | none ↦ let hh = take 50 (sha_hex bid) in (hh, insert hh bid (insert bid hh store))
]

abbrev pub set_cookie : Str → ℕ → Str
set_cookie tt max_age =
    bytes "backend_id="
    ++ (tt ++ (bytes "; Path=/; Max-Age=" ++ (show max_age ++ bytes "; HttpOnly; SameSite=Lax")))

-- The cookie of a sticky session: the call, and the store of the issued cookies.
unfoldable pub sticky_cookie :
    ProxyEnv → Context → DashMap Str Str → List HeaderCall × DashMap Str Str
sticky_cookie env ctx store = elim ctx.extraparams.sticky_sessions [
  | none ↦ ([], store)
  | some val ↦ elim ctx.backend_id [
    | none ↦ ([], store)
    | some bid ↦
        let r = cookie_id env.sha_hex bid store in
        (append_header (bytes "set-cookie") (set_cookie r.0 val) ∷ [], r.1)
  ]
]

unfoldable pub response_filter : ProxyEnv → (Str → Str → Bool) → Rq → Bool × List HeaderCall × Rq
response_filter env valid rq =
    let cookie = sticky_cookie env rq.ctx rq.world.reverse_store in
    let calls = header_loop append_header valid (or_empty rq.ctx.client_headers) in
    (
      calls.0,
      cookie.0 ++ calls.1,
      record rq { world = record rq.world { reverse_store = cookie.1 } },
    )

abbrev pub u32_mod : ℕ
u32_mod = 2 ^ 32

-- A 4xx answer to a request that a limit applies to is counted under the client's address.
unfoldable pub count_response : ℕ → Rq → DashMap Str ℕ
count_response response_code rq = elim (or rq.ctx.x4xx_limit rq.ctx.extraparams.x4xx_limit) [
  | none ↦ rq.world.requests_4xx
  | some limit ↦
      if leb 400 response_code && leb response_code 499
      then elim rq.session.client_ip [
        | none ↦ rq.world.requests_4xx
        | some ip ↦
            let current = unwrap_or 0 (get ip rq.world.requests_4xx) in
            insert ip ((current + 1) % u32_mod) rq.world.requests_4xx
      ]
      else rq.world.requests_4xx
]

abbrev pub response_status : Session → Option ℕ
response_status session = elim session.written [ [] ↦ none | r ∷ _ ↦ some r.status ]

abbrev log_message : ℕ → Str → HttpVersion → Session → LogMessage
log_message response_code summary version session = record {
  response_code = response_code;
  summary = summary;
  client_ip = unwrap_or (bytes "127.0.0.1") session.client_ip;
  version = version;
  user_agent = unwrap_or (bytes "-") (header_text (bytes "user-agent") session);
}

-- The last phase; `latency`, `version` and the summary come from the crates.
unfoldable pub logging : ℕ → HttpVersion → Str → Rq → Rq
logging latency version summary rq =
    let response_code = unwrap_or 0 (response_status rq.session) in
    let metrics =
      calc_metrics
        (record {
          method = rq.session.method;
          upstream = unwrap_or (bytes "localhost") rq.ctx.hostname;
          code = response_status rq.session;
          latency = latency;
          version = version;
        })
        rq.world.metrics in
    record rq {
      ctx = record rq.ctx { hostname = none };
      world = record rq.world {
        metrics = record metrics { active_sessions = dec metrics.active_sessions };
        requests_4xx = count_response response_code rq;
        log = access_log (log_message response_code summary version rq.session) rq.world.log;
      };
    }
