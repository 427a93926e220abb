-- ===== src/ParceYaml.antt =====
-- src/utils/parceyaml.rs: from the configuration files to the `Configuration` that the proxy takes.
-- The YAML parser (the crate `noyalib`), the file system and the environment are parameters.
pub mod Addresses
pub mod Servers
pub mod Load
mod Tests
use aralez.Prelude.{
  ℕ, zero, suc, Bool, true, false, Option, none, some, List, [], ◌∷◌, ◌++◌, ◌==◌, nat_eq, list_eq,
  if◌then◌else◌, is_empty,
}
use aralez.Text.{
  Str, bytes, split_once, rsplit_once, trim, parse_u16, to_ascii_lowercase, to_uppercase,
}
use aralez.DashMap.{DashMap, get, insert, extend}
use aralez.Structs.{
  InnerAuth, InnerMap, PathMap, UpstreamsDashMap, HeaderList, PathHeaders, Headers, Extraparams,
  Auth, PathConfig, HostConfig, Config, Configuration, configuration_default, AppConfig,
}
use aralez.Tools.{clone_dashmap, clone_dashmap_into}
use aralez.Tools.Format.{unwrap_or}
use aralez.HealthCheck.{Net, initiate_upstreams}
use mathlib.Core.Option

-- The list as the call leaves it: what has a colon is pushed, trimmed on both sides.
unfoldable pub push_headers : List Str → HeaderList → HeaderList
push_headers [] hl = hl
push_headers (header ∷ headers) hl = elim (split_once b':' header) [
  | none ↦ push_headers headers hl
  | some (key, val) ↦ push_headers headers (hl ++ (trim key, trim val) ∷ [])
]

unfoldable pub build_headers : Option (List Str) → HeaderList → HeaderList
build_headers none hl = hl
build_headers (some headers) hl = push_headers headers hl

-- The loops over the global headers: the client's as they are written, the server's with the
-- value trimmed.
unfoldable pub global_headers : (Str → Str) → List Str → HeaderList
global_headers on_value [] = []
global_headers on_value (header ∷ headers) = elim (split_once b':' header) [
  | none ↦ global_headers on_value headers
  | some (key, val) ↦ (key, on_value val) ∷ global_headers on_value headers
]

abbrev pub inner_auth : Auth → InnerAuth
inner_auth pa = record { auth_type = pa.auth_type; auth_cred = unwrap_or [] pa.auth_cred }

abbrev pub global_client_key : Str
global_client_key = bytes "GLOBAL_CLIENT_HEADERS"

abbrev pub global_server_key : Str
global_server_key = bytes "GLOBAL_SERVER_HEADERS"

unfoldable pub populate_headers_and_auth : Configuration → Config → Configuration
populate_headers_and_auth config parsed = record config {
  client_headers =
      insert global_client_key
        ((bytes "/", global_headers (λ v. v) (unwrap_or [] parsed.client_headers)) ∷ [])
        config.client_headers;
  server_headers =
      insert global_server_key
        ((bytes "/", global_headers trim (unwrap_or [] parsed.server_headers)) ∷ [])
        config.server_headers;
  extraparams = record {
    to_https = parsed.to_https;
    sticky_sessions = parsed.sticky_sessions;
    rate_limit = parsed.rate_limit;
    x4xx_limit = parsed.x4xx_limit;
    authentication = elim parsed.authorization [
      | none ↦ config.extraparams.authentication
      | some pa ↦ some (inner_auth pa)
    ];
  };
}

-- One server of a path: `address:port`, anything else is skipped.
unfoldable pub parse_server : PathConfig → Str → Option InnerMap
parse_server path_config server = elim (rsplit_once b':' server) [
  | none ↦ none
  | some (ip, port_str) ↦ elim (parse_u16 port_str) [
    | none ↦ none
    | some port ↦ some (record {
      address = ip;
      port = port;
      is_ssl = false;
      is_http2 = false;
      to_https = unwrap_or false path_config.to_https;
      rate_limit = path_config.rate_limit;
      x4xx_limit = path_config.x4xx_limit;
      healthcheck = path_config.healthcheck;
      redirect_to = path_config.redirect_to;
      authorization = Option.map inner_auth path_config.authorization;
    })
  ]
]

unfoldable pub parse_servers : PathConfig → List Str → List InnerMap
parse_servers path_config [] = []
parse_servers path_config (server ∷ servers) = elim (parse_server path_config server) [
  | none ↦ parse_servers path_config servers
  | some s ↦ s ∷ parse_servers path_config servers
]

-- The three maps that the loop over the paths of a host fills.
pub record HostMaps : Type 0 where
  pub path_map : PathMap
  pub client_header_list : PathHeaders
  pub server_header_list : PathHeaders

unfoldable pub populate_paths : HostMaps → DashMap Str PathConfig → HostMaps
populate_paths maps [] = maps
populate_paths maps ((path, path_config) ∷ paths) =
    populate_paths
      (record {
        path_map = insert path (parse_servers path_config path_config.servers, 0) maps.path_map;
        client_header_list =
            insert path (build_headers path_config.client_headers []) maps.client_header_list;
        server_header_list =
            insert path (build_headers path_config.server_headers []) maps.server_header_list;
      })
      paths

abbrev pub no_maps : HostMaps
no_maps = record { path_map = []; client_header_list = []; server_header_list = [] }

-- What the loop over the hosts fills: `imtdashmap`, and two maps of the configuration.
pub record Populated : Type 0 where
  pub imtdashmap : UpstreamsDashMap
  pub client_headers : Headers
  pub server_headers : Headers

unfoldable pub populate_hosts : Populated → DashMap Str HostConfig → Populated
populate_hosts p [] = p
populate_hosts p ((hostname, host_config) ∷ hosts) =
    let maps = populate_paths no_maps host_config.paths in
    populate_hosts
      (record {
        imtdashmap = insert hostname maps.path_map p.imtdashmap;
        client_headers = insert hostname maps.client_header_list p.client_headers;
        server_headers = insert hostname maps.server_header_list p.server_headers;
      })
      hosts

-- The shared state that a load touches: the flag of src/utils/state.rs, the issued cookies, and
-- the domains that certificates are ordered for.
pub record Globals : Type 0 where
  pub first_run : Bool
  pub reverse_store : DashMap Str Str
  pub domains : DashMap Str Bool

-- `mark_not_first_run`
abbrev pub mark_not_first_run : Globals → Globals
mark_not_first_run g = record g { first_run = false }

abbrev pub is_first_run : Globals → Bool
is_first_run g = g.first_run

unfoldable pub populate_file_upstreams :
    Net → Configuration → Config → Globals → Configuration × Globals
populate_file_upstreams net config parsed g = elim parsed.upstreams [
  | none ↦ (config, g)
  | some upstreams ↦
      let p =
        populate_hosts
          (record {
            imtdashmap = [];
            client_headers = config.client_headers;
            server_headers = config.server_headers;
          })
          upstreams in
      let with_headers = record config {
        client_headers = p.client_headers;
        server_headers = p.server_headers;
      } in
      let found = initiate_upstreams net (clone_dashmap p.imtdashmap) in
      if is_first_run g
      then (
        record with_headers { upstreams = clone_dashmap_into p.imtdashmap config.upstreams },
        record (mark_not_first_run g) { reverse_store = [] },
      )
      else (
        record with_headers { upstreams = clone_dashmap_into found config.upstreams },
        record g { reverse_store = [] },
      )
]

unfoldable pub parce_tls_grades : Option Str → Option Str
parce_tls_grades none = some (bytes "medium")
parce_tls_grades (some g) =
    let l = to_ascii_lowercase g in
    if l == bytes "high"
    then some (bytes "high")
    else if l == bytes "medium"
    then some (bytes "medium")
    else if l == bytes "unsafe"
    then some (bytes "unsafe")
    else some (bytes "medium")
