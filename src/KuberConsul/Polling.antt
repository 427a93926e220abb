-- ===== src/KuberConsul/Polling.antt =====
-- The loops of `fetch_upstreams` in src/utils/kuberconsul.rs: a round every five seconds, and what
-- is sent after each. The environment, the files and the network are parameters.
pub mod Current
use aralez.Prelude.{
  ℕ, Bool, true, false, Option, none, some, List, [], ◌∷◌, ◌++◌, ltb, if◌then◌else◌,
}
use mathlib.Core.Option
use aralez.Outcome.{Outcome, panicked, returned, ◌>>=◌}
use aralez.Text.{Str, bytes, trim}
use aralez.Structs.{UpstreamsDashMap, GlobalServiceMapping, Kubernetes, Consul, Configuration}
use aralez.Tools.Format.{unwrap_or}
use aralez.KuberConsul.{
  KubeEndpoints, ConsulService, Answer, choose_server, clone_compare, kube_round, consul_round,
}

-- What the process sees: environment variables, the files that can be read, the random numbers,
-- and which texts are values of a header.
pub record Host : Type 0 where
  pub var : Str → Option Str
  pub read_to_string : Str → Option Str
  pub random_range : ℕ → ℕ
  pub is_header_value : Str → Bool

-- What goes on from round to round: the configuration, whose headers grow, and the upstreams that
-- were sent last.
pub record Polling : Type 0 where
  pub config : Configuration
  pub prev_upstreams : UpstreamsDashMap

abbrev pub namespace_file : Str
namespace_file = bytes "/var/run/secrets/kubernetes.io/serviceaccount/namespace"

unfoldable pub get_current_namespace : Host → Option Str
get_current_namespace host = elim (host.read_to_string namespace_file) [
  | some contents ↦ some (trim contents)
  | none ↦ host.var (bytes "POD_NAMESPACE")
]

unfoldable pub read_token : Host → Str → Outcome Str
read_token host path = elim (host.read_to_string path) [
  | none ↦ panicked
  | some contents ↦ returned (trim contents)
]

-- The address in two variables of the environment, where no servers are configured.
abbrev pub default_servers : Host → Str → Str → List Str
default_servers host name port =
    (unwrap_or (bytes "0.0.0.0") (host.var name)
      ++ (bytes ":" ++ unwrap_or (bytes "0") (host.var port)))
    ∷ []

abbrev pub services_of : Option (List GlobalServiceMapping) → List GlobalServiceMapping
services_of services = unwrap_or [] services

-- What a round leads to: it is sent on if it differs from the last one.
unfoldable pub deliver : UpstreamsDashMap → Configuration → Polling → Option Configuration × Polling
deliver upstreams config p =
    let (sent, prev_upstreams) = clone_compare upstreams p.prev_upstreams config in
    (sent, record { config = config; prev_upstreams = prev_upstreams })

abbrev pub with_sent : Option Configuration → List Configuration → List Configuration
with_sent none later = later
with_sent (some config) later = config ∷ later

-- The rounds of Kubernetes, each with the answers that it gets.
unfoldable pub kube_loop :
    List GlobalServiceMapping
    → List (GlobalServiceMapping → Option (Answer KubeEndpoints))
    → Polling
    → List Configuration × Polling
kube_loop services [] p = ([], p)
kube_loop services (fetch ∷ rounds) p =
    let (upstreams, config) = kube_round fetch services [] p.config in
    let (sent, p') = deliver upstreams config p in
    let (later, end) = kube_loop services rounds p' in (with_sent sent later, end)

abbrev pub kube_url : Str → Str → GlobalServiceMapping → Str
kube_url server namespace service =
    bytes "https://"
    ++ (server
        ++ (bytes "/api/v1/namespaces/"
            ++ (namespace ++ (bytes "/endpoints/" ++ service.hostname))))

kube_answers :
    Str
    → Str
    → Str
    → List (Str → Str → Option (Answer KubeEndpoints))
    → List (GlobalServiceMapping → Option (Answer KubeEndpoints))
kube_answers server namespace token [] = []
kube_answers server namespace token (get ∷ rounds) =
    (λ service. get (kube_url server namespace service) token)
    ∷ kube_answers server namespace token rounds

-- `KubernetesDiscovery::fetch_upstreams`: what it sends. Each round's network answers a link and a
-- token.
unfoldable pub kube_fetch_upstreams :
    Host
    → List (Str → Str → Option (Answer KubeEndpoints))
    → Configuration
    → Outcome (List Configuration)
unfolding kube_answers
kube_fetch_upstreams host rounds config = elim config.kubernetes [
  | none ↦ returned []
  | some kuber ↦ do
    let servers =
        unwrap_or
          (default_servers host (bytes "KUBERNETES_SERVICE_HOST")
            (bytes "KUBERNETES_SERVICE_PORT_HTTPS"))
          kuber.servers
    server ← choose_server host.random_range servers
    let path =
        unwrap_or (bytes "/var/run/secrets/kubernetes.io/serviceaccount/token") kuber.tokenpath
    let namespace = unwrap_or (bytes "default") (get_current_namespace host)
    token ← read_token host path
    let fetches = kube_answers server namespace token rounds
    returned
        (kube_loop (services_of kuber.services) fetches
          (record { config = config; prev_upstreams = [] })).0
]

-- `HeaderValue::from_str(&token).unwrap()`, which each request makes; the header that it is put in
-- is not sent.
consul_header : Host → Option Str → List GlobalServiceMapping → Outcome (Unit {0})
consul_header host none services = returned tt
consul_header host (some token) [] = returned tt
consul_header host (some token) (service ∷ services) =
    if host.is_header_value token then returned tt else panicked

consul_answers :
    Host
    → Consul
    → (Str → Option (Answer (List ConsulService)))
    → Configuration
    → Outcome (UpstreamsDashMap × Configuration)
unfolding consul_header
consul_answers host consul get config = do
  let servers =
      unwrap_or (default_servers host (bytes "CONSUL_SERVICE_HOST") (bytes "CONSUL_SERVICE_PORT"))
        consul.servers
  consul_data ← choose_server host.random_range servers
  _ ← consul_header host consul.token (services_of consul.services)
  consul_round (λ i. get (consul_data ++ (bytes "/v1/catalog/service/" ++ i.upstream)))
      (services_of consul.services) [] config

-- One round of Consul, which chooses its server anew.
unfoldable pub consul_turn :
    Host
    → (Str → Option (Answer (List ConsulService)))
    → Polling
    → Outcome (Option Configuration × Polling)
unfolding consul_answers
consul_turn host get p = elim p.config.consul [
  | none ↦ returned (deliver [] p.config p)
  | some consul ↦ do r ← consul_answers host consul get p.config; returned (deliver r.0 r.1 p)
]

-- `ConsulDiscovery::fetch_upstreams`: what it sends, and whether a round panics, which ends it.
unfoldable pub consul_loop :
    List (Host × (Str → Option (Answer (List ConsulService)))) → Polling → List Configuration × Bool
consul_loop [] p = ([], false)
consul_loop ((host, get) ∷ rounds) p = elim (consul_turn host get p) [
  | panicked ↦ ([], true)
  | returned r ↦ let (later, panics) = consul_loop rounds r.1 in (with_sent r.0 later, panics)
]
