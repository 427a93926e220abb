-- ===== src/WebServer/Tests.antt =====
-- The theorems on src/web/webserver.rs at a small upload and a token.
use aralez.Prelude.{true, false, none, some, [], ◌∷◌, nat_eq, list_eq}
use mathlib.Core.Option
use aralez.Text.{Str, bytes}
use aralez.DashMap.{DashMap}
use aralez.Samples.{secret}
use aralez.Jwt.{Claims}
use aralez.ParceYaml.{Globals}
use aralez.ParceYaml.Load.{err, Yaml, Disk}
use aralez.WebServer.{AppState}

abbrev state : AppState
state = record {
  master_key = some secret;
  upstreams_file = bytes "/etc/aralez/upstreams.yaml";
  config_api_enabled = true;
}

abbrev yaml : Yaml
yaml = record { config = λ text. err (bytes "bad"); hosts = λ text. err (bytes "bad") }

abbrev disk : Disk
disk = record { attempt = λ n. err (bytes "gone"); domains = none; conf_d = [] }

abbrev globals : Globals
globals = record { first_run = false; reverse_store = []; domains = [] }

abbrev save : DashMap Str Str
save = (bytes "save", []) ∷ []

abbrev payload : Claims
payload = record { master_key = secret; owner = []; exp = 1; random = none }
