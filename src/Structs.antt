-- ===== src/Structs.antt =====
-- src/utils/structs.rs: the configuration files and the shared maps of the proxy. `Arc<str>` and
-- `String` are `Str`; `u16`, `u32`, `u64` and `usize` are numbers, `isize` is `ℤ`; an
-- `AtomicUsize` is the number that it holds.
pub mod Equality
use aralez.Prelude.{ℕ, Bool, true, false, Option, none, some, List}
use aralez.Prelude.Int.{ℤ}
use aralez.Text.{Str, bytes}
use aralez.DashMap.{DashMap}

pub record InnerAuth : Type 0 where
  pub auth_type : Str
  pub auth_cred : Str

pub record InnerMap : Type 0 where
  pub address : Str
  pub port : ℕ
  pub is_ssl : Bool
  pub is_http2 : Bool
  pub to_https : Bool
  pub rate_limit : Option ℤ
  pub x4xx_limit : Option ℕ
  pub healthcheck : Option Bool
  pub redirect_to : Option Str
  pub authorization : Option InnerAuth

-- `InnerMap::new`
abbrev pub inner_map_new : InnerMap
inner_map_new = record {
  address = bytes "127.0.0.1";
  port = 0;
  is_ssl = false;
  is_http2 = false;
  to_https = false;
  rate_limit = none;
  x4xx_limit = none;
  healthcheck = none;
  redirect_to = none;
  authorization = none;
}

-- The servers of a path, with the counter of its round robin.
abbrev pub Servers : Type 0
Servers = List InnerMap × ℕ

abbrev pub PathMap : Type 0
PathMap = DashMap Str Servers

abbrev pub UpstreamsDashMap : Type 0
UpstreamsDashMap = DashMap Str PathMap

abbrev pub UpstreamsIdMap : Type 0
UpstreamsIdMap = DashMap Str InnerMap

abbrev pub HeaderList : Type 0
HeaderList = List (Str × Str)

abbrev pub PathHeaders : Type 0
PathHeaders = DashMap Str HeaderList

abbrev pub Headers : Type 0
Headers = DashMap Str PathHeaders

pub record Extraparams : Type 0 where
  pub to_https : Option Bool
  pub sticky_sessions : Option ℕ
  pub authentication : Option InnerAuth
  pub rate_limit : Option ℤ
  pub x4xx_limit : Option ℕ

abbrev pub extraparams_default : Extraparams
extraparams_default = record {
  to_https = none;
  sticky_sessions = none;
  authentication = none;
  rate_limit = none;
  x4xx_limit = none;
}

pub record GlobalServiceMapping : Type 0 where
  pub upstream : Str
  pub hostname : Str
  pub path : Option Str
  pub to_https : Option Bool
  pub sticky_sessions : Option ℕ
  pub rate_limit : Option ℤ
  pub x4xx_limit : Option ℕ
  pub client_headers : Option (List Str)
  pub server_headers : Option (List Str)

pub record Kubernetes : Type 0 where
  pub servers : Option (List Str)
  pub services : Option (List GlobalServiceMapping)
  pub tokenpath : Option Str

pub record Consul : Type 0 where
  pub servers : Option (List Str)
  pub services : Option (List GlobalServiceMapping)
  pub token : Option Str

pub record Auth : Type 0 where
  pub auth_type : Str
  pub auth_cred : Option Str

pub record PathConfig : Type 0 where
  pub servers : List Str
  pub to_https : Option Bool
  pub client_headers : Option (List Str)
  pub server_headers : Option (List Str)
  pub rate_limit : Option ℤ
  pub x4xx_limit : Option ℕ
  pub healthcheck : Option Bool
  pub redirect_to : Option Str
  pub authorization : Option Auth

pub record HostConfig : Type 0 where
  pub paths : DashMap Str PathConfig
  pub rate_limit : Option ℤ
  pub x4xx_limit : Option ℕ

-- The upstreams file.
pub record Config : Type 0 where
  pub provider : Str
  pub to_https : Option Bool
  pub sticky_sessions : Option ℕ
  pub upstreams : Option (DashMap Str HostConfig)
  pub globals : Option (DashMap Str (List Str))
  pub client_headers : Option (List Str)
  pub server_headers : Option (List Str)
  pub authorization : Option Auth
  pub consul : Option Consul
  pub kubernetes : Option Kubernetes
  pub rate_limit : Option ℤ
  pub x4xx_limit : Option ℕ

-- What a provider sends to the proxy.
pub record Configuration : Type 0 where
  pub upstreams : UpstreamsDashMap
  pub client_headers : Headers
  pub server_headers : Headers
  pub consul : Option Consul
  pub kubernetes : Option Kubernetes
  pub typecfg : Str
  pub extraparams : Extraparams

abbrev pub configuration_default : Configuration
configuration_default = record {
  upstreams = List.[];
  client_headers = List.[];
  server_headers = List.[];
  consul = none;
  kubernetes = none;
  typecfg = bytes "";
  extraparams = extraparams_default;
}

-- The main file.
pub record AppConfig : Type 0 where
  pub hc_interval : ℕ
  pub hc_method : Str
  pub upstreams_conf : Str
  pub log_level : Str
  pub access_log : Option Str
  pub pid_file : Option Str
  pub master_key : Option Str
  pub config_address : Str
  pub proxy_address_http : Str
  pub config_api_enabled : Bool
  pub config_tls_address : Option Str
  pub config_tls_certificate : Option Str
  pub config_tls_key_file : Option Str
  pub proxy_address_tls : Option Str
  pub proxy_port_tls : Option Str
  pub proxy_port : Option Str
  pub local_server : Option (Str × ℕ)
  pub proxy_configs : Option Str
  pub proxy_tls_grade : Option Str
  pub file_server_address : Option Str
  pub file_server_folder : Option Str
  pub runuser : Option Str
  pub rungroup : Option Str
  pub log_file : Option Str
  pub tcp_keepalive_idle : Option ℕ
  pub tcp_keepalive_interval : Option ℕ
  pub tcp_keepalive_count : Option ℕ

pub record InnerMapForJson : Type 0 where
  pub address : Str
  pub port : ℕ
  pub is_ssl : Bool
  pub is_http2 : Bool
  pub to_https : Bool
  pub rate_limit : Option ℤ
  pub x4xx_limit : Option ℕ
  pub healthcheck : Option Bool

pub record UpstreamSnapshotForJson : Type 0 where
  pub backends : List InnerMapForJson
  pub requests : ℕ
