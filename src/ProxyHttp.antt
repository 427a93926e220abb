-- ===== src/ProxyHttp.antt =====
-- src/web/proxyhttp.rs: the state of the request handlers, and how a request finds its host.
-- The handlers are in the children Request (`request_filter`) and Upstream (the later phases).
pub mod Request
pub mod Upstream
pub mod Host
pub mod Gates
pub mod Gauge
pub mod Admission
pub mod Cookies
pub mod Sticky
pub mod Phases
mod Tests
use aralez.Prelude.{
  ℕ, ◌+◌, Bool, true, false, Option, none, some, List, [], ◌∷◌, ◌++◌, ◌==◌, nat_eq, list_eq,
  if◌then◌else◌, length, take, drop,
}
use aralez.Prelude.Int.{ℤ}
use aralez.Text.{Str, bytes, find, find_str, split_once}
use aralez.DashMap.{DashMap, get}
use aralez.Structs.{InnerMap, UpstreamsDashMap, HeaderList, Extraparams}
use aralez.Lb.{Lb}
use aralez.Session.{Session, header_text}
use aralez.Auth.{AuthEnv}
use aralez.Jwt.{JwtCache}
use aralez.Metrics.{Metrics}
use aralez.Logging.{Log}

-- `start_time` is left out: the latency is an argument of `logging`.
pub record Context : Type 0 where
  pub backend_id : Option Str
  pub hostname : Option Str
  pub upstream_peer : Option InnerMap
  pub extraparams : Extraparams
  pub client_headers : Option HeaderList
  pub x4xx_limit : Option ℕ

-- The shared state: the proxy and the statics of src/utils/lazylock.rs, metrics.rs, jwt.rs and
-- logging.rs.
pub record World : Type 0 where
  pub lb : Lb
  pub jwt_cache : JwtCache
  pub reverse_store : DashMap Str Str
  pub requests_4xx : DashMap Str ℕ
  -- The keys that the limiter has observed, the newest first.
  pub rate_limiter : List (Option Str)
  pub metrics : Metrics
  pub log : Log

-- What the handlers ask of other crates: authentication, the limiter's estimate for a key after
-- the observations of a history (`pingora_limits::rate::Rate`), and the hash of `sha2`.
pub record ProxyEnv : Type 0 where
  pub auth : AuthEnv
  pub observe : List (Option Str) → Option Str → ℤ
  pub sha_hex : Str → Str

-- One request in the course of its phases.
pub record Rq : Type 0 where
  pub session : Session
  pub ctx : Context
  pub world : World

unfoldable pub new_ctx : Lb → Context
new_ctx lb = record {
  backend_id = none;
  hostname = none;
  upstream_peer = none;
  extraparams = lb.extraparams;
  client_headers = none;
  x4xx_limit = none;
}

-- The name that the request asks for, without a port.
unfoldable pub host_str : Session → Option Str
host_str session = elim session.is_http2 [
  | true ↦ session.uri_host
  | false ↦ elim (header_text (bytes "host") session) [
    | none ↦ none
    | some h ↦ elim (split_once b':' h) [ none ↦ some h | some (host, _) ↦ some host ]
  ]
]

abbrev pub default_host : Str
default_host = bytes "DEFAULT"

unfoldable pub return_header_host_from_upstream : Session → UpstreamsDashMap → Option Str
return_header_host_from_upstream session ump_upst = elim (host_str session) [
  | none ↦ none
  | some host ↦ elim (get host ump_upst) [
    | some paths ↦ some host
    | none ↦ elim (get default_host ump_upst) [ some paths ↦ some default_host | none ↦ none ]
  ]
]

abbrev pub cookie_key : Str
cookie_key = bytes "backend_id="

-- `&value[..end]`, up to the next semicolon.
unfoldable pub cookie_value : Str → Option Str
cookie_value cookie_str = elim (find_str cookie_key cookie_str) [
  | none ↦ none
  | some pos ↦
      let value = drop (pos + length cookie_key) cookie_str in
      elim (find b';' value) [ none ↦ some value | some end ↦ some (take end value) ]
]

-- The id that the request's cookie gives, where sessions are sticky.
unfoldable pub cookie_backend_id : Extraparams → Session → Option Str
cookie_backend_id extraparams session = elim extraparams.sticky_sessions [
  | none ↦ none
  | some max_age ↦ elim (header_text (bytes "cookie") session) [
    | none ↦ none
    | some cookie_str ↦ cookie_value cookie_str
  ]
]
