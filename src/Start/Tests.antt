-- ===== src/Start/Tests.antt =====
-- The theorems on the start of the process, at one that runs as root and serves port 80.
use aralez.Prelude.{
  ℕ, ◌<◌, arith, ◌≡◌, refl, true, false, none, some, List, [], ◌∷◌, ◌++◌, ◌==◌, inl, nat_eq,
  list_eq, list_beq, if◌then◌else◌, ltb,
}
use aralez.Text.{Str, bytes}
use aralez.Structs.{AppConfig}
use aralez.Tools.Format.{unwrap_or}
use aralez.Samples.{app_config}
use aralez.Start.{
  Machine, done, exit, Event, http_listener, serving, dropped, ready, pid_file, tcp_options,
  first_such, check_priv, wait_served, wait_both, drop_priv, tls_listeners, drop_events, finish,
  run,
}
use aralez.Start.Waiting.{drop_priv-ends}
use aralez.Start.Dropped.{IsAllowed, run-dropped}

abbrev http : Str
http = bytes "0.0.0.0:80"

-- Its third attempt to bind the address fails.
abbrev machine : Machine ℕ ℕ
machine = record {
  port_of = λ addr. some 80;
  uid = 0;
  binds = λ addr n. ltb n 2;
  applies = λ user group. user == bytes "web";
  has_folder = λ path. true;
  listed = λ path. none;
  load = λ c. none;
  load_again = λ c. none;
  intermediate = λ cert key. none;
  set_min_proto_version = λ version t. t;
  set_cipher_list = λ list t. t;
  writes = λ path. true;
}

abbrev config : AppConfig
config = record app_config {
  proxy_address_http = http;
  runuser = some (bytes "aralez");
  rungroup = some (bytes "web");
}

abbrev events : List (Event ℕ)
events =
    http_listener http none
    ∷ serving
    ∷ dropped (bytes "web") (bytes "aralez")
    ∷ ready
    ∷ pid_file (bytes "/tmp/aralez.pid")
    ∷ []

process_run : run machine 3 config ≡ done events
unfolding run check_priv tls_listeners drop_events drop_priv wait_both wait_served first_such finish
    tcp_options list_beq
process_run = refl

in_time : 2 < 3
in_time = omega arith

no_tls : (addr : Str) → ¬ (none ≡ some addr)
no_tls addr e = cc

drop_priv-ends_example :
    drop_priv machine 3 (bytes "web") (bytes "aralez") http none
    ≡ (if machine.applies (bytes "web") (bytes "aralez") then done tt else exit 1)
drop_priv-ends_example =
    drop_priv-ends machine 3 (bytes "web") (bytes "aralez") http none (2, refl, in_time)
      (λ addr e. absurd (no_tls addr e))

run-dropped_example :
    IsAllowed machine http
    × ((n : ℕ) × (machine.binds http n ≡ false))
    × (machine.applies (bytes "web") (bytes "aralez") ≡ true)
    × ((listeners : List (Event ℕ)) × (events
          ≡ listeners
            ++ (serving
                ∷ dropped (bytes "web") (bytes "aralez")
                ∷ ready
                ∷ pid_file (unwrap_or (bytes "/tmp/aralez.pid") config.pid_file)
                ∷ [])))
run-dropped_example =
    run-dropped machine 3 config (bytes "aralez") (bytes "web") http events refl refl (inl refl)
      process_run
