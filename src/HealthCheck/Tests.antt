-- ===== src/HealthCheck/Tests.antt =====
-- The theorems on src/utils/healthcheck.rs on a network where one server is down.
use aralez.Prelude.{◌≡◌, refl, ◌↔◌, ◌⊎◌, true, some, List, [], ◌∷◌, In, list_beq, nat_eq, list_eq}
use mathlib.Core.Option
use aralez.Text.{Str, bytes, show}
use aralez.DashMap.{get, insert}
use aralez.Structs.{InnerMap, Servers}
use aralez.Samples.{server, upstreams, upstreams-IsUpstreams, net}
use aralez.Tools.{clone_idmap_into, clone_dashmap, clone_hosts, clone_paths}
use aralez.Tools.Clone.{reset}
use aralez.Tools.Paths.{get_path}
use aralez.Tools.Compare.{SameUpstreams}
use aralez.HealthCheck.{
  detect_tls, http_request, scheme, link, probe, probe_servers, build_paths, build_hosts,
  build_upstreams, Checked, hc2,
}
use aralez.HealthCheck.Kept.{Answers, build_upstreams-get_path}
use aralez.HealthCheck.Tick.{hc2_lem}

abbrev method : Str
method = bytes "HEAD"

abbrev checked : Checked
checked = record { upslist = upstreams; idlist = []; reverse_store = (bytes "k", bytes "v") ∷ [] }

-- "a" is down, "b" answers with TLS and HTTP/2, "c" with a redirection.
build_upstreams_run :
    get_path (bytes "x.io") (bytes "/api") (build_upstreams net upstreams method)
    ≡ some (record (server "b" 8000) { is_ssl = true; is_http2 = true } ∷ [], 0)
unfolding build_upstreams build_hosts build_paths probe_servers probe http_request link detect_tls
    show clone_dashmap clone_hosts clone_paths get insert list_beq
build_upstreams_run = refl

build_upstreams-get_path_example :
    ((host path : Str)
      → get_path host path (build_upstreams net upstreams method)
        ≡ Option.map {B = Servers}
            (λ s. (probe_servers net method path s.0, 0))
            (get_path host path upstreams))
    × ((path : Str) (vec : List InnerMap) (y : InnerMap)
        → In y (probe_servers net method path vec)
          ↔ ((s : InnerMap) × In s vec × Answers net method path s × (y ≡ scheme net s)))
build_upstreams-get_path_example =
    build_upstreams-get_path net upstreams method upstreams-IsUpstreams

hc2_lem_example :
    (let totest = build_upstreams net upstreams method in
      (SameUpstreams totest checked.upslist × (hc2 (λ s. s) net upstreams method checked ≡ checked))
      ⊎ (¬ (SameUpstreams totest checked.upslist)
          × (hc2 (λ s. s) net upstreams method checked ≡ record {
            upslist = reset totest;
            idlist = clone_idmap_into (λ s. s) totest checked.idlist;
            reverse_store = [];
          })))
hc2_lem_example =
    hc2_lem (λ s. s) net upstreams method checked upstreams-IsUpstreams upstreams-IsUpstreams
