-- ===== src/ParceYaml/Load.antt =====
-- `load_configuration` and `parce_main_config` of src/utils/parceyaml.rs.
pub mod Laws
pub mod Formed
use aralez.Prelude.{
  ℕ, zero, suc, Bool, true, false, not, Option, none, some, List, [], ◌∷◌, ◌==◌, nat_eq, list_eq,
  if◌then◌else◌, is_empty,
}
use aralez.Text.{Str, bytes, rsplit_once, trim, parse_u16, to_uppercase}
use aralez.DashMap.{DashMap, insert, extend}
use aralez.Structs.{HostConfig, Config, Configuration, configuration_default, AppConfig}
use aralez.HealthCheck.{Net}
use aralez.ParceYaml.{populate_headers_and_auth, populate_file_upstreams, Globals, parce_tls_grades}

pub data Result (A : Type 0) : Type 0 where
  ok : A → Result A
  err : Str → Result A

-- The YAML parser, `noyalib::from_str` at its two types.
pub record Yaml : Type 0 where
  pub config : Str → Result Config
  pub hosts : Str → Result (DashMap Str HostConfig)

-- What the file system answers during one load.
pub record Disk : Type 0 where
  -- The n-th read of the upstreams file.
  pub attempt : ℕ → Result Str
  -- autoconfigs/domains.json, if it is there and parses.
  pub domains : Option (List Str)
  -- The files conf.d/*.yaml in their order.
  pub conf_d : List (Result Str)

-- The loop over the reads: the data (empty if none came) and the last error.
unfoldable pub read_loop : ℕ → Disk → ℕ → Option Str → Str × Option Str
read_loop zero disk i last_error = ([], last_error)
read_loop (suc n) disk i last_error = elim (disk.attempt i) [
  | ok text ↦ elim (is_empty (trim text)) [
    | false ↦ (text, last_error)
    | true ↦ read_loop n disk (suc i) last_error
  ]
  | err e ↦ read_loop n disk (suc i) (some e)
]

abbrev pub read_attempts : ℕ
read_attempts = 5

insert_domains : DashMap Str Bool → List Str → DashMap Str Bool
insert_domains m [] = m
insert_domains m (domain ∷ domains) = insert_domains (insert domain true m) domains

with_domains : Globals → Option (List Str) → Globals
unfolding insert_domains
with_domains g none = g
with_domains g (some domains) = record g { domains = insert_domains g.domains domains }

read_files : List (Result Str) → List Str
read_files [] = []
read_files (ok text ∷ files) = text ∷ read_files files
read_files (err e ∷ files) = read_files files

-- What is to be parsed, the files of conf.d, and the shared state; or the message of a failure.
pub data Source : Type 0 where
  content : Str → List Str → Globals → Source
  failed : Str → Source

abbrev pub read_error : Option Str → Str
read_error (some e) = e
read_error none = bytes "File is empty"

abbrev pub mismatched : Str
mismatched = bytes "Mismatched parameter, only filepath|content is allowed"

unfoldable pub read_source : Disk → Str → Str → Globals → Source
unfolding read_files with_domains
read_source disk d kind g =
    let read = read_loop read_attempts disk 0 none in
    if kind == bytes "filepath"
    then (if is_empty read.0
        then failed (read_error read.1)
        else content read.0 (read_files disk.conf_d) (with_domains g disk.domains))
    else if kind == bytes "content"
    then content d [] g
    else failed mismatched

-- `upstreams.extend(p)` for each file of conf.d, until one does not parse.
unfoldable pub extend_upstreams :
    Yaml → DashMap Str HostConfig → List Str → Result (DashMap Str HostConfig)
extend_upstreams yaml upstreams [] = ok upstreams
extend_upstreams yaml upstreams (uconf ∷ conf_files) = elim (yaml.hosts uconf) [
  | err e ↦ err e
  | ok p ↦ extend_upstreams yaml (extend upstreams p) conf_files
]

unfoldable pub with_conf_files : Yaml → Config → List Str → Result Config
with_conf_files yaml parsed conf_files = elim parsed.upstreams [
  | none ↦ ok parsed
  | some upstreams ↦ elim (extend_upstreams yaml upstreams conf_files) [
    | err e ↦ err e
    | ok all ↦ ok (record parsed { upstreams = some all })
  ]
]

abbrev pub Loaded : Type 0
Loaded = Option Configuration × Str × Globals

-- `config.is_some().then_some(toreturn)`
abbrev pub if_some : {A : Type 0} → Option A → Configuration → Option Configuration
if_some none c = none
if_some (some a) c = some c

-- The match on the provider, on the configuration as the steps before have filled it.
unfoldable pub by_provider : Net → Config → Configuration → Globals → Loaded
by_provider net parsed toreturn g =
    if parsed.provider == bytes "file"
    then (let r = populate_file_upstreams net toreturn parsed g in (some r.0, bytes "Ok", r.1))
    else if parsed.provider == bytes "consul"
    then (if_some parsed.consul (record toreturn { consul = parsed.consul }), bytes "Ok", g)
    else if parsed.provider == bytes "kubernetes"
    then (
      if_some parsed.kubernetes (record toreturn { kubernetes = parsed.kubernetes }),
      bytes "Ok",
      g,
    )
    else (none, bytes "Unknown provider", g)

unfoldable pub build_configuration : Net → Config → Globals → Loaded
build_configuration net parsed g =
    by_provider net parsed
      (record (populate_headers_and_auth configuration_default parsed) {
        typecfg = parsed.provider;
      })
      g

parse_source : Net → Yaml → Str → List Str → Globals → Loaded
parse_source net y yaml_data conf_files g = elim (y.config yaml_data) [
  | err e ↦ (none, e, g)
  | ok parsed ↦ elim (with_conf_files y parsed conf_files) [
    | err e ↦ (none, e, g)
    | ok full ↦ build_configuration net full g
  ]
]

unfoldable pub load_configuration : Net → Yaml → Disk → Str → Str → Globals → Loaded
unfolding parse_source
load_configuration net y disk d kind g = elim (read_source disk d kind g) [
  | failed message ↦ (none, message, g)
  | content yaml_data conf_files g' ↦ parse_source net y yaml_data conf_files g'
]

-- The part of an address behind its last colon.
abbrev pub port_of : Str → Option Str
port_of address = elim (rsplit_once b':' address) [ none ↦ none | some (_, port) ↦ some port ]

-- `parce_main_config` once the file is parsed; `jwt_key` is the environment's JWT_KEY.
unfoldable pub parce_main_config : Option Str → AppConfig → AppConfig
parce_main_config jwt_key cfo = record cfo {
  master_key = elim jwt_key [ none ↦ cfo.master_key | some key ↦ some key ];
  hc_method = to_uppercase cfo.hc_method;
  local_server = elim (rsplit_once b':' cfo.config_address) [
    | none ↦ cfo.local_server
    | some (ip, port_str) ↦ elim (parse_u16 port_str) [
      | none ↦ cfo.local_server
      | some port ↦ some (ip, port)
    ]
  ];
  proxy_port_tls = elim cfo.proxy_address_tls [
    | none ↦ cfo.proxy_port_tls
    | some address ↦ elim (port_of address) [ none ↦ cfo.proxy_port_tls | some port ↦ some port ]
  ];
  proxy_port = elim (port_of cfo.proxy_address_http) [
    | none ↦ cfo.proxy_port
    | some port ↦ some port
  ];
  proxy_tls_grade = parce_tls_grades cfo.proxy_tls_grade;
}
