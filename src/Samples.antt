-- ===== src/Samples.antt =====
-- A small configuration on which the tests run.
use aralez.Prelude.{
  ℕ, ◌≡◌, refl, true, false, none, some, [], ◌∷◌, String, ◌==◌, ◌&&◌, ◌∙◌, inl, inr, arith,
  Bool-cases, ==_iff, nat_eq, list_eq, list_beq, if◌then◌else◌,
}
use aralez.DashMap.{DashMap, get}
use aralez.Tools.Clone.{IsUpstreams}
use aralez.HealthCheck.{Net, http_11, http_2}
use aralez.Text.{Str, bytes}
use aralez.Structs.{
  InnerMap, inner_map_new, PathMap, UpstreamsDashMap, PathHeaders, AppConfig, extraparams_default,
}
use aralez.Lb.{Lb}
use aralez.Jwt.{Claims, Decoders}
use aralez.Session.{HeaderValue, Session}
use aralez.Auth.{AuthEnv}

-- The server `name:port`.
abbrev pub server : String → ℕ → InnerMap
server name port = record inner_map_new { address = bytes name; port = port }

abbrev pub api_paths : PathMap
api_paths =
    (bytes "/api", (server "a" 8000 ∷ server "b" 8000 ∷ [], 3))
    ∷ (bytes "/api/v1", ([], 0))
    ∷ (bytes "/", (server "c" 80 ∷ [], 0))
    ∷ []

abbrev pub upstreams : UpstreamsDashMap
upstreams = (bytes "x.io", api_paths) ∷ []

abbrev pub api_headers : PathHeaders
api_headers = (bytes "/api", []) ∷ (bytes "/", (bytes "k", bytes "v") ∷ []) ∷ []

abbrev pub app_config : AppConfig
app_config = record {
  hc_interval = 2;
  hc_method = bytes "HEAD";
  upstreams_conf = bytes "/etc/aralez/upstreams.yaml";
  log_level = bytes "info";
  access_log = none;
  pid_file = none;
  master_key = some (bytes "key");
  config_address = bytes "0.0.0.0:3000";
  proxy_address_http = bytes "0.0.0.0:6193";
  config_api_enabled = true;
  config_tls_address = none;
  config_tls_certificate = none;
  config_tls_key_file = none;
  proxy_address_tls = none;
  proxy_port_tls = none;
  proxy_port = none;
  local_server = none;
  proxy_configs = none;
  proxy_tls_grade = none;
  file_server_address = none;
  file_server_folder = none;
  runuser = none;
  rungroup = none;
  log_file = none;
  tcp_keepalive_idle = none;
  tcp_keepalive_interval = none;
  tcp_keepalive_count = none;
}

abbrev pub lb : Lb
lb = record {
  ump_upst = upstreams;
  ump_full = upstreams;
  ump_byid = (bytes "id-b", server "b" 8000) ∷ [];
  client_headers = (bytes "x.io", api_headers) ∷ [];
  server_headers = [];
  config = app_config;
  extraparams = extraparams_default;
}

-- After a request on "/api" the counter stands at 4.
abbrev pub lb_after : Lb
lb_after = record lb {
  ump_upst =
      (
        bytes "x.io",
        (bytes "/api", (server "a" 8000 ∷ server "b" 8000 ∷ [], 4))
            ∷ (bytes "/api/v1", ([], 0))
            ∷ (bytes "/", (server "c" 80 ∷ [], 0))
            ∷ [],
      )
      ∷ [];
}

pub upstreams-IsUpstreams : IsUpstreams upstreams
unfolding get list_beq
upstreams-IsUpstreams = (refl, (refl, (refl, (refl, tt))), tt)

-- The same configuration once "b" is found to use TLS and "a" is down.
abbrev pub found : UpstreamsDashMap
found =
    (
      bytes "x.io",
      (bytes "/api", (record (server "b" 8000) { is_ssl = true } ∷ [], 0))
          ∷ (bytes "/api/v1", ([], 0))
          ∷ (bytes "/", (server "c" 80 ∷ [], 0))
          ∷ [],
    )
    ∷ []

pub found-IsUpstreams : IsUpstreams found
unfolding get list_beq
found-IsUpstreams = (refl, (refl, (refl, (refl, tt))), tt)

-- A network in which "b" answers over HTTPS and "c" over HTTP.
abbrev pub net : Net
net = record {
  version = λ url.
      if url == bytes "https://b:8000"
      then some http_2
      else if url == bytes "http://c:80"
      then some http_11
      else none;
  status = λ method url.
      if url == bytes "https://b:8000/api"
      then some 200
      else if url == bytes "http://c:80/"
      then some 302
      else none;
  ping_grpc = λ url. false;
}

abbrev pub claims : Claims
claims = record { master_key = []; owner = []; exp = 100; random = none }

abbrev pub token : Str
token = bytes "h.p.s"

abbrev pub secret : Str
secret = bytes "key"

abbrev pub decoders : Decoders
decoders = record {
  decode = λ t s. if t == token then some claims else none;
  payload_exp = λ p. some (some 100);
  hash_token = λ t s. if t == token && s == secret then 0 else 1;
}

token_hash : decoders.hash_token token secret ≡ 0
unfolding list_beq
token_hash = refl

pub alone :
    (t s : Str)
    → decoders.hash_token t s ≡ decoders.hash_token token secret
    → (t ≡ token) × (s ≡ secret)
alone t s h =
    let zero = h ∙ token_hash in
    elim (Bool-cases (t == token)) [
      | inr e ↦ absurd (ground arith)
      | inl e ↦ elim (Bool-cases (s == secret)) [
        | inr f ↦ absurd (ground arith)
        | inl f ↦ ((==_iff t token).0 e, (==_iff s secret).0 f)
      ]
    ]

-- The server of forward authentication redirects to a page for logging in.
abbrev pub auth_env : AuthEnv
auth_env = record {
  base64_decode = λ s. if s == bytes "dTpw" then some (bytes "u:p") else none;
  url_decode = λ s. some s;
  jwt_token = some secret;
  decoders = decoders;
  builds = λ method uri. true;
  auth_server = λ request. some (record {
    status = 302;
    headers = (bytes "location", record { text = some (bytes "/login") }) ∷ [];
  });
  now = 7;
  later = 7;
}

-- A request for "/api/v1/users" of "x.io" with these headers.
abbrev pub session_with : DashMap Str HeaderValue → Session
session_with headers = record {
  method = bytes "GET";
  is_http2 = false;
  uri_host = none;
  path = bytes "/api/v1/users";
  query = none;
  headers = (bytes "host", record { text = some (bytes "x.io:80") }) ∷ headers;
  client_ip = some (bytes "10.0.0.1");
  stream = some false;
  written = [];
}

abbrev pub authorized : Str → Session
authorized value = session_with ((bytes "authorization", record { text = some value }) ∷ [])
