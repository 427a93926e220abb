-- ===== src/KuberConsul/Tests.antt =====
-- The theorems on src/utils/kuberconsul.rs and httpclient.rs at two subsets and three servers.
use aralez.Prelude.{
  ℕ, ◌≡◌, refl, ◌↔◌, true, Option, none, some, List, [], ◌∷◌, In, list_beq, nat_eq, list_eq,
}
use mathlib.Core.Option
use aralez.Text.{Str, bytes}
use aralez.DashMap.{get, insert}
use aralez.Structs.{InnerMap, PathMap, GlobalServiceMapping, configuration_default}
use aralez.Tools.Compare.{SameUpstreams}
use aralez.KuberConsul.{
  KubeAddress, KubePort, KubeSubset, KubeEndpoints, Answer, service_path, match_path, discovered,
  kube_servers, kube_subsets, for_kuber, kube_round,
}
use aralez.KuberConsul.Polling.{Polling, kube_loop}
use aralez.KuberConsul.Polling.Current.{latest, Changes, kube_loop-current}
use aralez.KuberConsul.Discovered.{last_complete, servers_of_subset, for_kuber-last_complete}

abbrev service : GlobalServiceMapping
service = record {
  upstream = bytes "api";
  hostname = bytes "x.io";
  path = some (bytes "/api");
  to_https = none;
  sticky_sessions = none;
  rate_limit = none;
  x4xx_limit = none;
  client_headers = none;
  server_headers = none;
}

abbrev subset : Str → ℕ → KubeSubset
subset ip port = record {
  addresses = some (record { ip = ip } ∷ []);
  ports = some (record { port = port } ∷ []);
}

abbrev subsets : List KubeSubset
subsets = subset (bytes "a") 80 ∷ subset (bytes "b") 81 ∷ []

-- Only the second subset is left.
kube_subsets_run :
    kube_subsets service subsets []
    ≡ (bytes "/api", (discovered service (bytes "b") 81 ∷ [], 0)) ∷ []
unfolding kube_subsets match_path kube_servers get insert list_beq
kube_subsets_run = refl

for_kuber-last_complete_example :
    ((ups : PathMap) × (for_kuber
          (some (record { is_success = true; json = some (record { subsets = some subsets }) }))
          service
        ≡ some ups)
      × (get (service_path service) ups
          ≡ Option.map (servers_of_subset service) (last_complete none subsets)))
    × ((addresses : List KubeAddress) (ports : List KubePort) (b : InnerMap)
        → In b (kube_servers service addresses ports) ↔ (
            (a : KubeAddress) × (p : KubePort) × In a addresses
            × In p ports
            × (b ≡ discovered service a.ip p.port)))
for_kuber-last_complete_example = for_kuber-last_complete service subsets

abbrev servers : List Str
servers = bytes "a" ∷ bytes "b" ∷ bytes "c" ∷ []

-- A round that finds the service's servers, after one that gets no answer.
abbrev answered : GlobalServiceMapping → Option (Answer KubeEndpoints)
answered s = some (record { is_success = true; json = some (record { subsets = some subsets }) })

abbrev silent : GlobalServiceMapping → Option (Answer KubeEndpoints)
silent s = none

abbrev polling : Polling
polling = record { config = configuration_default; prev_upstreams = [] }

kube_loop-current_example :
    let sent = (kube_loop (service ∷ []) (silent ∷ answered ∷ []) polling).0 in
    SameUpstreams (kube_round answered (service ∷ []) [] polling.config).0 (latest [] sent)
    × Changes [] sent
kube_loop-current_example = kube_loop-current (service ∷ []) (silent ∷ []) answered polling tt
