-- ===== src/BgService/Start.antt =====
-- `start` of src/web/bgservice.rs with src/utils/discovery.rs: the tasks that the background
-- service starts, and its loop over what it receives.
pub mod Served
use aralez.Prelude.{
  ℕ, Bool, Option, none, some, List, [], ◌∷◌, ◌++◌, ◌==◌, nat_eq, list_eq, if◌then◌else◌,
}
use aralez.Outcome.{Outcome, panicked, returned}
use aralez.Text.{Str, bytes}
use aralez.Structs.{AppConfig, Configuration}
use aralez.Lb.{Lb}
use aralez.Tools.Format.{unwrap_or}
use aralez.HealthCheck.{Net}
use aralez.ParceYaml.{Globals}
use aralez.ParceYaml.Load.{Yaml, Disk, load_configuration}
use aralez.BgService.{receive}

-- The providers of upstreams but the API, each with its fields; starting one spawns
-- `filewatch::start`, or `fetch_upstreams` of Kubernetes or Consul, on them.
pub data Provider : Type 0 where
  file : (path : Str) → Provider
  kubernetes consul : (config : Configuration) → Provider

-- The two maps of upstreams, which it shares with the `Lb`, are left out.
pub record ApiUpstreamProvider : Type 0 where
  pub config_api_enabled : Bool
  pub address : Str
  pub masterkey : Option Str
  pub certs_dir : Str
  pub config_dir : Str
  pub upstreams_file : Str
  pub file_server_address : Option Str
  pub file_server_folder : Option Str

-- What `start` sends to itself, the tasks that it spawns with their arguments, and the log.
pub record Started : Type 0 where
  pub sent : Option Configuration
  pub provider : Option Provider
  pub api : ApiUpstreamProvider
  -- The method and the interval of `hc2`.
  pub health : Str × ℕ
  -- The folders of `refresh_order`.
  pub refresh : Str × Str
  pub access_log : Option Str

unfoldable pub provider_of : AppConfig → Configuration → Option Configuration × Option Provider
provider_of app config =
    if config.typecfg == bytes "file"
    then (some config, some (file app.upstreams_conf))
    else if config.typecfg == bytes "kubernetes"
    then (none, some (kubernetes config))
    else if config.typecfg == bytes "consul"
    then (none, some (consul config))
    else (none, none)

abbrev pub folder : AppConfig → Str → Str
folder app name = unwrap_or (bytes "/tmp") app.proxy_configs ++ name

unfoldable pub start_tasks : AppConfig → Configuration → Started
start_tasks app config =
    let confdir = folder app (bytes "/autoconfigs") in
    let certdir = folder app (bytes "/certificates") in
    record {
      sent = (provider_of app config).0;
      provider = (provider_of app config).1;
      api = record {
        config_api_enabled = app.config_api_enabled;
        address = app.config_address;
        masterkey = app.master_key;
        certs_dir = certdir;
        config_dir = confdir;
        upstreams_file = app.upstreams_conf;
        file_server_address = app.file_server_address;
        file_server_folder = app.file_server_folder;
      };
      health = (app.hc_method, app.hc_interval);
      refresh = (certdir, confdir);
      access_log = app.access_log;
    }

-- Up to the loop; a configuration that does not load makes the service panic.
unfoldable pub start : Net → Yaml → Disk → AppConfig → Globals → Outcome Started
start net yaml disk app g =
    elim (load_configuration net yaml disk app.upstreams_conf (bytes "filepath") g).0 [
      | none ↦ panicked
      | some config ↦ returned (start_tasks app config)
    ]

-- What the loop waits for: the shutdown, or the channel, which gives nothing once it is closed.
pub data Turn : Type 0 where
  shutdown : Turn
  received : Option Configuration → Turn

unfoldable pub serve : (Str → Str) → List Turn → Lb → Lb
serve sha_hex [] lb = lb
serve sha_hex (shutdown ∷ turns) lb = lb
serve sha_hex (received none ∷ turns) lb = serve sha_hex turns lb
serve sha_hex (received (some ss) ∷ turns) lb = serve sha_hex turns (receive sha_hex ss lb)
