-- ===== src/Auth.antt =====
-- src/utils/auth.rs: the four ways to authenticate a request. The decoders of `base64` and
-- `urlencoding` and the authentication server are the parameter `AuthEnv`.
pub mod Laws
mod Tests
use aralez.Prelude.{
  ℕ, Bool, true, false, not, ◌&&◌, ◌||◌, Option, none, some, List, [], ◌∷◌, ◌++◌, ◌==◌, nat_eq,
  list_eq, if◌then◌else◌, leb, ltb, take, drop, map,
}
use aralez.Text.{
  Str, bytes, find, starts_with, strip_prefix, split, split_once, parse_u16, to_ascii_lowercase,
}
use aralez.DashMap.{DashMap, get, insert, extend}
use aralez.Structs.{InnerAuth}
use aralez.Session.{HeaderValue, Response, Session, header_text, write_response}
use aralez.Jwt.{Decoders, JwtCache, check_jwt}
use mathlib.Core.Option

-- The request that goes to the authentication server.
pub record AuthRequest : Type 0 where
  pub host : Str
  pub port : ℕ
  pub tls : Bool
  pub method : Str
  pub uri : Str
  pub headers : DashMap Str HeaderValue

pub record AuthResponse : Type 0 where
  pub status : ℕ
  pub headers : List (Str × HeaderValue)

pub record AuthEnv : Type 0 where
  -- `STANDARD.decode`
  pub base64_decode : Str → Option Str
  -- `urlencoding::decode`
  pub url_decode : Str → Option Str
  -- The environment's JWT_KEY, where it is not empty.
  pub jwt_token : Option Str
  pub decoders : Decoders
  -- `RequestHeader::build` takes the method and the URI.
  pub builds : Str → Str → Bool
  -- The answer of the server; there is none where connecting, writing or reading fails.
  pub auth_server : AuthRequest → Option AuthResponse
  -- The two readings of the clock.
  pub now : ℕ
  pub later : ℕ

-- `split('&')`, `splitn(2, '=')`: the pairs as they are collected into a map.
unfoldable pub query_params : List Str → DashMap Str Str → DashMap Str Str
query_params [] m = m
query_params (pair ∷ pairs) m = elim (split_once b'=' pair) [
  | none ↦ query_params pairs (insert pair [] m)
  | some (k, v) ↦ query_params pairs (insert k v m)
]

-- The host, the port, and the rest as the source returns it.
unfoldable pub split_host_port : Str → Bool → Option (Str × ℕ × Bool × Str)
split_host_port addr tls = elim (split_once b':' addr) [
  | none ↦ some (addr, if tls then 443 else 80, tls, addr)
  | some (h, p) ↦ elim (parse_u16 p) [ none ↦ none | some port ↦ some (h, port, tls, h) ]
]

abbrev pub is_some {ℓ} : {A : Type ℓ} → Option A → Bool
is_some none = false
is_some (some a) = true

-- `if let Some(v) = … { insert_header(name, v) }`
abbrev copy_header : Str → Str → Session → DashMap Str HeaderValue → DashMap Str HeaderValue
copy_header from to session m = elim (get from session.headers) [
  | none ↦ m
  | some v ↦ insert to v m
]

abbrev text_value : Str → HeaderValue
text_value s = record { text = some s }

-- Which headers of the answer go on.
abbrev is_forwarded : Str → Bool
is_forwarded name =
    starts_with (bytes "x-") name
    || (starts_with (bytes "remote-") name || starts_with (bytes "locat") name)

unfoldable pub headers_to_forward : List (Str × HeaderValue) → List (Str × Str)
headers_to_forward [] = []
headers_to_forward ((name, value) ∷ headers) =
    let rest = headers_to_forward headers in
    if is_forwarded name then elim value.text [ none ↦ rest | some v ↦ (name, v) ∷ rest ] else rest

insert_headers : List (Str × Str) → DashMap Str HeaderValue → DashMap Str HeaderValue
insert_headers [] m = m
insert_headers ((name, v) ∷ headers) m = insert_headers headers (insert name (text_value v) m)

-- The URL of the server without its scheme, and whether it is TLS.
abbrev scheme_of : Str → Option (Str × Bool)
scheme_of auth_url = elim (strip_prefix (bytes "http://") auth_url) [
  | some p ↦ some (p, false)
  | none ↦ elim (strip_prefix (bytes "https://") auth_url) [ some p ↦ some (p, true) | none ↦ none ]
]

abbrev split_uri : Str → Str × Str
split_uri plain = elim (find b'/' plain) [
  | some pos ↦ (take pos plain, drop pos plain)
  | none ↦ (plain, bytes "/")
]

abbrev forward_method : Session → Str
forward_method session = if session.method == bytes "HEAD" then bytes "HEAD" else bytes "GET"

-- The headers of the request, each `insert_header` in turn.
forward_headers : Str → Str → Bool → Session → DashMap Str HeaderValue
forward_headers addr uri tls session =
    insert (bytes "X-Forwarded-Proto") (text_value (if tls then bytes "https" else bytes "http")) (
      copy_header (bytes "cookie") (bytes "Cookie") session (
        copy_header (bytes "authorization") (bytes "Authorization") session (
          insert (bytes "X-Forwarded-Method") (text_value session.method) (
            insert (bytes "X-Forwarded-Uri") (text_value uri)
              (insert (bytes "Host") (text_value addr) [])))))

-- The redirection that the client gets.
abbrev pub redirect_response : AuthResponse → Response
redirect_response answer = record {
  status = 301;
  headers =
      insert (bytes "Content-Length") (bytes "0") (extend [] (headers_to_forward answer.headers));
  body = [];
  closes = false;
}

-- The verdict on the answer: let through with headers, redirected, or refused.
unfoldable pub forward_verdict : AuthResponse → Session → Bool × Session
unfolding insert_headers
forward_verdict answer session =
    let forwarded = headers_to_forward answer.headers in
    if leb 200 answer.status && ltb answer.status 300
    then (true, record session { headers = insert_headers forwarded session.headers })
    else if answer.status == 302 || answer.status == 301
    then (true, write_response (redirect_response answer) session)
    else (false, session)

module _ (env : AuthEnv) where
  unfoldable pub get_query_param : Session → Str → Option Str
  get_query_param session key = elim session.query [
    | none ↦ none
    | some query ↦ elim (get key (query_params (split b'&' query) [])) [
      | none ↦ none
      | some v ↦ env.url_decode v
    ]
  ]

  -- `ct_eq` compares all bytes.
  unfoldable pub basic_validate : Str → Session → Bool
  basic_validate cred session = elim (header_text (bytes "authorization") session) [
    | none ↦ false
    | some h ↦ elim (split_once b' ' h) [
      | none ↦ false
      | some (_, val) ↦ elim (env.base64_decode val) [
        | none ↦ false
        | some decoded ↦ decoded == cred
      ]
    ]
  ]

  unfoldable pub api_key_validate : Str → Session → Bool
  api_key_validate key session = elim (header_text (bytes "x-api-key") session) [
    | none ↦ false
    | some h ↦ h == key
  ]

  abbrev checked : Str → Str → JwtCache → Bool × JwtCache
  checked token secret cache = check_jwt env.decoders token secret env.now env.later cache

  -- The bearer token of the header.
  bearer_validate : Str → Session → JwtCache → Bool × JwtCache
  bearer_validate secret session cache = elim (header_text (bytes "authorization") session) [
    | none ↦ (false, cache)
    | some h ↦ elim (split_once b' ' h) [
      | none ↦ (false, cache)
      | some (name, token) ↦
          if to_ascii_lowercase name == bytes "bearer"
          then checked token secret cache
          else (false, cache)
    ]
  ]

  unfoldable pub jwt_validate : Session → JwtCache → Bool × JwtCache
  unfolding bearer_validate
  jwt_validate session cache = elim env.jwt_token [
    | none ↦ (false, cache)
    | some secret ↦ elim (get_query_param session (bytes "araleztoken")) [
      | some token ↦ checked token secret cache
      | none ↦ bearer_validate secret session cache
    ]
  ]

  unfoldable pub auth_request : Str → Session → Option AuthRequest
  unfolding forward_headers
  auth_request auth_url session = elim (scheme_of auth_url) [
    | none ↦ none
    | some (plain, tls) ↦
        let (addr, uri) = split_uri plain in
        elim (split_host_port addr tls) [
          | none ↦ none
          | some (host, port, _, _) ↦
              if env.builds (forward_method session) uri
              then some (record {
                host = host;
                port = port;
                tls = tls;
                method = forward_method session;
                uri = uri;
                headers = forward_headers addr uri tls session;
              })
              else none
        ]
  ]

  unfoldable pub forward_validate : Str → Session → Bool × Session
  forward_validate auth_url session = elim (auth_request auth_url session) [
    | none ↦ (false, session)
    | some request ↦ elim (env.auth_server request) [
      | none ↦ (false, session)
      | some answer ↦ forward_verdict answer session
    ]
  ]

  -- The verdict, the session and the cache of tokens.
  unfoldable pub authenticate : InnerAuth → Session → JwtCache → Bool × Session × JwtCache
  authenticate auth session cache =
      if auth.auth_type == bytes "basic"
      then (basic_validate auth.auth_cred session, session, cache)
      else if auth.auth_type == bytes "apikey"
      then (api_key_validate auth.auth_cred session, session, cache)
      else if auth.auth_type == bytes "jwt"
      then (let r = jwt_validate session cache in (r.0, session, r.1))
      else if auth.auth_type == bytes "forward"
      then (let r = forward_validate auth.auth_cred session in (r.0, r.1, cache))
      else (false, session, cache)
