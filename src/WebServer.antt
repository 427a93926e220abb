-- ===== src/WebServer.antt =====
-- src/web/webserver.rs: uploading a configuration, and issuing tokens. The YAML parser, the disk,
-- the encoder of tokens and the clock are parameters; the router, the pages of reports
-- and metrics are not modelled, and the handlers of ACME are in the module of that name.
pub mod Uploaded
mod Tests
use aralez.Prelude.{
  ℕ, ◌+◌, ◌*◌, Bool, true, false, Option, none, some, List, [], ◌∷◌, ◌++◌, ◌==◌, if◌then◌else◌,
  nat_eq, list_eq,
}
use aralez.Text.{Str, bytes}
use aralez.DashMap.{DashMap, get, contains_key}
use aralez.Structs.{Configuration}
use aralez.HealthCheck.{Net}
use aralez.Jwt.{Claims}
use aralez.ParceYaml.{Globals}
use aralez.ParceYaml.Load.{Result, ok, err, Yaml, Disk, load_configuration}

-- What the handlers below use of it.
pub record AppState : Type 0 where
  pub master_key : Option Str
  pub upstreams_file : Str
  pub config_api_enabled : Bool

-- The answer, and the flag `save` of the task that it starts.
unfoldable pub conf : Yaml → AppState → DashMap Str Str → Str → (ℕ × Str) × Option Bool
conf yaml st params content =
    if st.config_api_enabled
    then elim (yaml.config content) [
      | ok _ ↦ (
        (200, bytes "Accepted! Applying in background\n"),
        some (contains_key (bytes "save") params),
      )
      | err e ↦ ((502, bytes "Failed: " ++ (e ++ bytes "\n")), none)
    ]
    else ((403, bytes "Config API is disabled !\n"), none)

-- What the task does: the file that it writes, and the configuration that it sends.
pub record Applied : Type 0 where
  pub saved : Option (Str × Str)
  pub sent : Option Configuration
  pub globals : Globals

unfoldable pub apply_config : Net → Yaml → Disk → Str → AppState → Bool → Globals → Applied
apply_config net yaml disk content st save g =
    let sl = load_configuration net yaml disk content (bytes "content") g in
    elim sl.0 [
      | none ↦ record { saved = none; sent = none; globals = sl.2 }
      | some serverlist ↦ record {
        saved = if save then some (st.upstreams_file, content) else none;
        sent = some serverlist;
        globals = sl.2;
      }
    ]

-- The upload with the task that it starts.
unfoldable pub upload : Net → Yaml → Disk → AppState → DashMap Str Str → Str → Globals → Applied
upload net yaml disk st params content g = elim (conf yaml st params content).1 [
  | none ↦ record { saved = none; sent = none; globals = g }
  | some save ↦ apply_config net yaml disk content st save g
]

-- The claims of an issued token; the payload gives its life in minutes.
abbrev pub issued_claims : Claims → ℕ → Claims
issued_claims payload now = record {
  master_key = [];
  owner = payload.owner;
  exp = now + payload.exp * 60;
  random = payload.random;
}

-- The status and the token. `payload.exp * 60` is taken not to overflow, as a time that the clock
-- can hold never does.
unfoldable pub jwt_gen : (Claims → Str → Option Str) → ℕ → AppState → Claims → ℕ × Str
jwt_gen encode now state payload = elim state.master_key [
  | none ↦ (500, bytes "ERROR Getting JWT_KEY environment variable")
  | some master_key ↦
      if payload.master_key == master_key
      then elim (encode (issued_claims payload now) payload.master_key) [
        | some t ↦ (201, t)
        | none ↦ (500, bytes "ERROR")
      ]
      else (403, bytes "Unauthorised")
]
