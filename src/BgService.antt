-- ===== src/BgService.antt =====
-- src/web/bgservice.rs: what the background service does with a configuration that a provider
-- sends, `rx.recv()` in `start`. What it starts first is in the child module of that name.
pub mod Received
pub mod Start
mod Tests
use aralez.Prelude.{Option, none, some, List, [], ◌∷◌, ◌++◌, ◌==◌, nat_eq, list_eq, if◌then◌else◌}
use aralez.Text.{Str}
use aralez.DashMap.{DashMap, get, insert}
use aralez.Structs.{PathHeaders, Headers, UpstreamsDashMap, Extraparams, Configuration}
use aralez.Lb.{Lb}
use aralez.Tools.{clone_dashmap_into, clone_idmap_into, merge_headers}
use aralez.ParceYaml.{global_client_key, global_server_key}

-- `entry(key).or_insert_with(DashMap::new)`
abbrev pub or_insert_empty : Str → Headers → Headers
or_insert_empty key headers = elim (get key headers) [
  | none ↦ insert key [] headers
  | some _ ↦ headers
]

-- The first loop gives every host an entry in the headers that were received.
unfoldable pub with_hosts : UpstreamsDashMap → Headers → Headers
with_hosts [] headers = headers
with_hosts ((host, _) ∷ upstreams) headers = with_hosts upstreams (or_insert_empty host headers)

-- The headers of one entry, followed by the global ones if there are any.
abbrev pub with_global : Option PathHeaders → PathHeaders → PathHeaders
with_global none path_headers = path_headers
with_global (some global_headers) path_headers = merge_headers path_headers global_headers

-- The loops over `ss.client_headers` and `ss.server_headers`.
unfoldable pub install_headers : Option PathHeaders → Headers → Headers → Headers
install_headers global installed [] = installed
install_headers global installed ((path_key, path_headers) ∷ rest) =
    install_headers global (insert path_key (with_global global path_headers) installed) rest

abbrev pub preloaded : Str → Option PathHeaders → Headers → Headers
preloaded host none installed = installed
preloaded host (some headers) installed = insert host headers installed

-- `server_headers.insert` in the first loop. What it inserts the last loop inserts again.
unfoldable pub preload_headers : UpstreamsDashMap → Headers → Headers → Headers
preload_headers [] received installed = installed
preload_headers ((host, _) ∷ upstreams) received installed =
    let entry = or_insert_empty host received in
    preload_headers upstreams entry (preloaded host (get host entry) installed)

unfoldable pub receive : (Str → Str) → Configuration → Lb → Lb
receive sha_hex ss lb =
    let client = with_hosts ss.upstreams ss.client_headers in
    let server = with_hosts ss.upstreams ss.server_headers in
    record lb {
      ump_full = clone_dashmap_into ss.upstreams lb.ump_full;
      ump_upst = clone_dashmap_into ss.upstreams lb.ump_upst;
      ump_byid = clone_idmap_into sha_hex ss.upstreams lb.ump_byid;
      extraparams = record lb.extraparams {
        to_https = ss.extraparams.to_https;
        sticky_sessions = ss.extraparams.sticky_sessions;
        authentication = ss.extraparams.authentication;
        rate_limit = ss.extraparams.rate_limit;
        x4xx_limit = ss.extraparams.x4xx_limit;
      };
      client_headers = install_headers (get global_client_key client) [] client;
      server_headers =
          install_headers (get global_server_key server)
            (preload_headers ss.upstreams ss.server_headers []) server;
    }
