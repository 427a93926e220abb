-- ===== src/KuberConsul.antt =====
-- src/utils/kuberconsul.rs and src/utils/httpclient.rs: the upstreams that Consul and Kubernetes
-- report, and what is sent on when they change. The answer to a request is a parameter; the loops
-- around the rounds are in the child module `Polling`.
pub mod Discovered
pub mod Rounds
pub mod Polling
mod Tests
use aralez.Prelude.{
  ℕ, ◌-◌, Bool, true, false, not, Option, none, some, List, [], ◌∷◌, ◌++◌, map, if◌then◌else◌, ltb,
  length, get_elem?, is_empty, nat_eq, list_eq,
}
use aralez.Outcome.{Outcome, panicked, returned, ◌>>=◌}
use aralez.Text.{Str, bytes}
use aralez.DashMap.{DashMap, get, insert, extend}
use aralez.Structs.{
  InnerMap, Servers, PathMap, UpstreamsDashMap, GlobalServiceMapping, Configuration,
}
use aralez.Tools.{clone_dashmap_into, compare_dashmaps}
use aralez.Tools.Format.{unwrap_or}
use aralez.ParceYaml.{build_headers}

pub record KubeAddress : Type 0 where
  pub ip : Str

pub record KubePort : Type 0 where
  pub port : ℕ

pub record KubeSubset : Type 0 where
  pub addresses : Option (List KubeAddress)
  pub ports : Option (List KubePort)

pub record KubeEndpoints : Type 0 where
  pub subsets : Option (List KubeSubset)

pub record ConsulTaggedAddress : Type 0 where
  pub address : Str
  pub port : ℕ

pub record ConsulService : Type 0 where
  pub tagged_addresses : DashMap Str ConsulTaggedAddress

-- An answer that came in time: whether its status is a success, and the body if it parses.
pub record Answer (T : Type 0) : Type 0 where
  pub is_success : Bool
  pub json : Option T

abbrev pub service_path : GlobalServiceMapping → Str
service_path conf = unwrap_or (bytes "/") conf.path

unfoldable pub match_path : GlobalServiceMapping → PathMap → List InnerMap → PathMap
match_path conf upstreams values = elim conf.path [
  | some p ↦ insert p (values, 0) upstreams
  | none ↦ insert (bytes "/") (values, 0) upstreams
]

-- The `InnerMap` that both clients build.
abbrev pub discovered : GlobalServiceMapping → Str → ℕ → InnerMap
discovered conf address port = record {
  address = address;
  port = port;
  is_ssl = false;
  is_http2 = false;
  to_https = unwrap_or false conf.to_https;
  rate_limit = conf.rate_limit;
  x4xx_limit = conf.x4xx_limit;
  healthcheck = none;
  redirect_to = none;
  authorization = none;
}

-- `tagged_addresses.get("lan_ipv4").unwrap()` for each service.
unfoldable pub consul_servers : GlobalServiceMapping → List ConsulService → Outcome (List InnerMap)
consul_servers conf [] = returned []
consul_servers conf (service ∷ endpoints) = elim (get (bytes "lan_ipv4") service.tagged_addresses) [
  | none ↦ panicked
  | some lan ↦ do
    rest ← consul_servers conf endpoints
    returned (discovered conf lan.address lan.port ∷ rest)
]

-- Once the request is sent.
unfoldable pub for_consul :
    Option (Answer (List ConsulService)) → GlobalServiceMapping → Outcome (Option PathMap)
for_consul none conf = returned none
for_consul (some answer) conf = if not answer.is_success then returned none else elim answer.json [
  | none ↦ returned none
  | some endpoints ↦ do
    inner_vec ← consul_servers conf endpoints
    returned (some (match_path conf [] inner_vec))
]

-- The two loops over the addresses and the ports of a subset.
unfoldable pub kube_servers :
    GlobalServiceMapping → List KubeAddress → List KubePort → List InnerMap
kube_servers conf [] ports = []
kube_servers conf (addr ∷ addresses) ports =
    map (λ p. discovered conf addr.ip p.port) ports ++ kube_servers conf addresses ports

unfoldable pub kube_subsets : GlobalServiceMapping → List KubeSubset → PathMap → PathMap
kube_subsets conf [] upstreams = upstreams
kube_subsets conf (subset ∷ subsets) upstreams = elim subset.addresses [
  | none ↦ kube_subsets conf subsets upstreams
  | some addresses ↦ elim subset.ports [
    | none ↦ kube_subsets conf subsets upstreams
    | some ports ↦
        kube_subsets conf subsets (match_path conf upstreams (kube_servers conf addresses ports))
  ]
]

unfoldable pub for_kuber : Option (Answer KubeEndpoints) → GlobalServiceMapping → Option PathMap
for_kuber none conf = none
for_kuber (some answer) conf = if not answer.is_success then none else elim answer.json [
  | none ↦ none
  | some endpoints ↦ elim endpoints.subsets [
    | none ↦ some []
    | some subsets ↦ some (kube_subsets conf subsets [])
  ]
]

unfoldable pub list_to_upstreams :
    Option PathMap → UpstreamsDashMap → GlobalServiceMapping → UpstreamsDashMap
list_to_upstreams none upstreams i = upstreams
list_to_upstreams (some list) upstreams i = elim (get i.hostname upstreams) [
  | some upstr ↦ insert i.hostname (extend upstr list) upstreams
  | none ↦ insert i.hostname list upstreams
]

-- The server to ask; `random_range` is given the exclusive end, which is not 0.
unfoldable pub choose_server : (ℕ → ℕ) → List Str → Outcome Str
choose_server random_range servers =
    let end = length servers - 1 in
    let num = if ltb 0 end then random_range end else 0 in
    elim (get_elem? servers num) [ none ↦ panicked | some server ↦ returned server ]

-- The headers of a service go into the configuration, which lives on from round to round.
unfoldable pub service_headers : GlobalServiceMapping → Configuration → Configuration
service_headers service config =
    let hl = build_headers service.client_headers [] in
    if is_empty hl then config else record config {
      client_headers =
          insert service.hostname ((service_path service, hl) ∷ []) config.client_headers;
    }

-- The configuration to send, and the upstreams that were sent last.
unfoldable pub clone_compare :
    UpstreamsDashMap → UpstreamsDashMap → Configuration → Option Configuration × UpstreamsDashMap
clone_compare upstreams prev_upstreams config =
    if not (compare_dashmaps upstreams prev_upstreams)
    then (
      some (record config { upstreams = clone_dashmap_into upstreams [] }),
      clone_dashmap_into upstreams prev_upstreams,
    )
    else (none, prev_upstreams)

-- One round over the services of Kubernetes; `fetch` is the answer for a service.
unfoldable pub kube_round :
    (GlobalServiceMapping → Option (Answer KubeEndpoints))
    → List GlobalServiceMapping
    → UpstreamsDashMap
    → Configuration
    → UpstreamsDashMap × Configuration
kube_round fetch [] upstreams config = (upstreams, config)
kube_round fetch (service ∷ services) upstreams config =
    kube_round fetch services
      (list_to_upstreams (for_kuber (fetch service) service) upstreams service)
      (service_headers service config)

-- One round over the services of Consul.
unfoldable pub consul_round :
    (GlobalServiceMapping → Option (Answer (List ConsulService)))
    → List GlobalServiceMapping
    → UpstreamsDashMap
    → Configuration
    → Outcome (UpstreamsDashMap × Configuration)
consul_round fetch [] upstreams config = returned (upstreams, config)
consul_round fetch (service ∷ services) upstreams config = do
  list ← for_consul (fetch service) service
  consul_round fetch services (list_to_upstreams list upstreams service)
      (service_headers service config)
