-- ===== src/ParceYaml/Tests.antt =====
-- The theorems on src/utils/parceyaml.rs at one host with one path.
use aralez.Prelude.{◌≡◌, refl, true, false, none, some, [], ◌∷◌, nat_eq, list_eq}
use mathlib.Core.Option
use aralez.Text.{Str, bytes, rsplit_once, rfind, parse_u16, parse_digits}
use aralez.DashMap.{DashMap, get}
use aralez.Structs.{Servers, PathConfig, HostConfig, Config, Configuration, configuration_default}
use aralez.Samples.{server, net}
use aralez.Tools.Paths.{get_path}
use aralez.ParceYaml.{
  global_client_key, global_server_key, parse_server, parse_servers, Globals,
  populate_file_upstreams,
}
use aralez.ParceYaml.Load.{ok, err, Yaml, Disk}
use aralez.ParceYaml.Servers.{configured_at, servers_of, populate-first_run}

abbrev path_config : PathConfig
path_config = record {
  servers = bytes "b:8000" ∷ bytes "nonsense" ∷ [];
  to_https = none;
  client_headers = none;
  server_headers = none;
  rate_limit = none;
  x4xx_limit = none;
  healthcheck = none;
  redirect_to = none;
  authorization = none;
}

abbrev hosts : DashMap Str HostConfig
hosts =
    (
      bytes "x.io",
      record { paths = (bytes "/api", path_config) ∷ []; rate_limit = none; x4xx_limit = none },
    )
    ∷ []

abbrev config : Config
config = record {
  provider = bytes "consul";
  to_https = none;
  sticky_sessions = none;
  upstreams = some hosts;
  globals = none;
  client_headers = none;
  server_headers = none;
  authorization = none;
  consul = some (record { servers = none; services = none; token = none });
  kubernetes = none;
  rate_limit = none;
  x4xx_limit = none;
}

abbrev globals : Globals
globals = record { first_run = true; reverse_store = (bytes "k", bytes "v") ∷ []; domains = [] }

abbrev later : Globals
later = record globals { first_run = false }

parse_servers_run : parse_servers path_config path_config.servers ≡ server "b" 8000 ∷ []
unfolding parse_servers parse_server rsplit_once rfind parse_u16 parse_digits
parse_servers_run = refl

populate-first_run_example :
    ((host path : Str)
      → get_path host path
          (populate_file_upstreams net configuration_default config globals).0.upstreams
        ≡ Option.map servers_of (configured_at host path hosts))
    × ((populate_file_upstreams net configuration_default config globals).1.first_run ≡ false)
    × ((populate_file_upstreams net configuration_default config globals).1.reverse_store ≡ [])
unfolding get
populate-first_run_example =
    populate-first_run net configuration_default config globals hosts refl (refl, (refl, tt), tt)
      refl

-- A parser that reads every text as the sample, and a disk where the file is there.
abbrev yaml : Yaml
yaml = record { config = λ text. ok config; hosts = λ text. err (bytes "bad") }

abbrev disk : Disk
disk = record { attempt = λ n. ok (bytes "text"); domains = none; conf_d = [] }

abbrev loaded : Configuration
loaded = record configuration_default {
  client_headers = (global_client_key, (bytes "/", []) ∷ []) ∷ [];
  server_headers = (global_server_key, (bytes "/", []) ∷ []) ∷ [];
  typecfg = bytes "consul";
  consul = config.consul;
}
