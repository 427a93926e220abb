-- ===== src/BgService/Tests.antt =====
-- The theorems on src/web/bgservice.rs at a configuration with global headers.
use aralez.Prelude.{◌≡◌, refl, some, [], ◌∷◌, list_beq, nat_eq, list_eq}
use aralez.Text.{bytes}
use aralez.DashMap.{get, insert}
use aralez.Structs.{Headers, Configuration, configuration_default}
use aralez.Samples.{upstreams, api_headers, lb}
use aralez.Tools.{merge_headers}
use aralez.ParceYaml.{global_client_key, global_server_key}
use aralez.BgService.{receive, with_hosts, install_headers}
use aralez.Prelude.{none, true, List}
use aralez.Text.{trim}
use aralez.Outcome.{returned}
use aralez.Structs.{Config}
use aralez.Samples.{net, app_config}
use aralez.ParceYaml.{Globals, populate_headers_and_auth, global_headers}
use aralez.ParceYaml.Load.{
  ok, err, Yaml, Disk, read_loop, read_source, extend_upstreams, with_conf_files, by_provider,
  build_configuration, load_configuration,
}
use aralez.BgService.Start.{start, start_tasks, Turn, shutdown, received, serve}
use aralez.BgService.Start.Served.{
  last_received, received_by, serve-last, IsProvided, start-IsProvided,
}

abbrev client : Headers
client =
    (bytes "x.io", api_headers)
    ∷ (global_client_key, (bytes "/", (bytes "g", bytes "w") ∷ []) ∷ [])
    ∷ []

abbrev sample : Configuration
sample = record configuration_default { upstreams = upstreams; client_headers = client }

-- The global headers join those of "/", and "/api" keeps its own list.
client_headers_run :
    get (bytes "x.io") (receive (λ s. s) sample lb).client_headers
    ≡ some (
        (bytes "/api", []) ∷ (bytes "/", (bytes "k", bytes "v") ∷ (bytes "g", bytes "w") ∷ []) ∷ [])
unfolding receive with_hosts install_headers merge_headers get insert list_beq
client_headers_run = refl

-- The second configuration before the shutdown stays, and the one behind the shutdown is not seen.
abbrev turns : List Turn
turns =
    received (some configuration_default)
    ∷ received (some sample)
    ∷ received none
    ∷ shutdown
    ∷ received (some configuration_default)
    ∷ []

last_received_run : last_received turns ≡ some sample
unfolding last_received
last_received_run = refl

serve-last_example : serve (λ s. s) turns lb ≡ received_by (λ s. s) (last_received turns) lb
serve-last_example = serve-last (λ s. s) turns lb

-- A file that names Consul as its provider, on a disk where it is there.
abbrev consul_config : Config
consul_config = record {
  provider = bytes "consul";
  to_https = none;
  sticky_sessions = none;
  upstreams = none;
  globals = none;
  client_headers = none;
  server_headers = none;
  authorization = none;
  consul = some (record { servers = none; services = none; token = none });
  kubernetes = none;
  rate_limit = none;
  x4xx_limit = none;
}

abbrev yaml : Yaml
yaml = record { config = λ text. ok consul_config; hosts = λ text. err [] }

abbrev disk : Disk
disk = record { attempt = λ n. ok (bytes "text"); domains = none; conf_d = [] }

abbrev globals : Globals
globals = record { first_run = true; reverse_store = []; domains = [] }

abbrev loaded : Configuration
loaded = record configuration_default {
  client_headers = (global_client_key, (bytes "/", []) ∷ []) ∷ [];
  server_headers = (global_server_key, (bytes "/", []) ∷ []) ∷ [];
  typecfg = bytes "consul";
  consul = consul_config.consul;
}

start_run : start net yaml disk app_config globals ≡ returned (start_tasks app_config loaded)
unfolding start start_tasks load_configuration read_source read_loop with_conf_files
    extend_upstreams build_configuration by_provider populate_headers_and_auth global_headers insert
    trim list_beq
start_run = refl

start-IsProvided_example :
    (c : Configuration) × ((load_configuration net yaml disk app_config.upstreams_conf
        (bytes "filepath")
        globals).0
      ≡ some c)
    × IsProvided app_config c (start_tasks app_config loaded)
start-IsProvided_example =
    start-IsProvided net yaml disk app_config globals (start_tasks app_config loaded) start_run
