-- ===== src/KuberConsul/Rounds.antt =====
-- The rounds of discovery build well-formed upstreams, whatever the answers.
use aralez.Prelude.{
  inl, inr, Option, none, some, List, [], ◌∷◌, Bool-cases, Option-cases, nat_eq, list_eq,
}
use aralez.DashMap.{get, extend}
use aralez.DashMap.Laws.{IsMap, insert-IsMap, extend-IsMap}
use aralez.Structs.{InnerMap, PathMap, UpstreamsDashMap, GlobalServiceMapping, Configuration}
use aralez.Tools.Clone.{IsUpstreams}
use aralez.Tools.Paths.{get-IsMap, insert-IsUpstreams}
use aralez.KuberConsul.{
  KubeSubset, KubeEndpoints, Answer, service_path, match_path, kube_servers, kube_subsets,
  for_kuber, list_to_upstreams, service_headers, kube_round,
}
use aralez.KuberConsul.Discovered.{match_path-service_path}

match_path-IsMap :
    (conf : GlobalServiceMapping) (m : PathMap) (v : List InnerMap)
    → IsMap m
    → IsMap (match_path conf m v)
match_path-IsMap conf m v h =
    rw (match_path-service_path conf m v) (insert-IsMap (service_path conf) (v, 0) m h)

kube_subsets-IsMap :
    (conf : GlobalServiceMapping) (subsets : List KubeSubset) (m : PathMap)
    → IsMap m
    → IsMap (kube_subsets conf subsets m)
unfolding kube_subsets
kube_subsets-IsMap conf [] m h = h
kube_subsets-IsMap conf (subset ∷ subsets) m h = elim (Option-cases subset.addresses) [
  | inl f ↦ rw (f, kube_subsets) (kube_subsets-IsMap conf subsets m h)
  | inr (addresses, f) ↦ elim (Option-cases subset.ports) [
    | inl g ↦ rw (f, g, kube_subsets) (kube_subsets-IsMap conf subsets m h)
    | inr (ports, g) ↦
        let vec = kube_servers conf addresses ports in
        rw (f, g, kube_subsets)
          (kube_subsets-IsMap conf subsets (match_path conf m vec) (match_path-IsMap conf m vec h))
  ]
]

-- A list that a client returns holds every path once.
abbrev IsList : Option PathMap → Type 0
IsList none = Unit
IsList (some m) = IsMap m

for_kuber-IsList :
    (answer : Option (Answer KubeEndpoints)) (conf : GlobalServiceMapping)
    → IsList (for_kuber answer conf)
unfolding for_kuber
for_kuber-IsList none conf = tt
for_kuber-IsList (some answer) conf = elim (Bool-cases answer.is_success) [
  | inr e ↦ rw (e, for_kuber) tt
  | inl e ↦ elim (Option-cases answer.json) [
    | inl f ↦ rw (e, f, for_kuber) tt
    | inr (endpoints, f) ↦ elim (Option-cases endpoints.subsets) [
      | inl g ↦ rw (e, f, g, for_kuber) tt
      | inr (subsets, g) ↦ rw (e, f, g, for_kuber) (kube_subsets-IsMap conf subsets [] tt)
    ]
  ]
]

list_to_upstreams-IsUpstreams :
    (list : Option PathMap) (upstreams : UpstreamsDashMap) (i : GlobalServiceMapping)
    → IsList list
    → IsUpstreams upstreams
    → IsUpstreams (list_to_upstreams list upstreams i)
unfolding list_to_upstreams
list_to_upstreams-IsUpstreams none upstreams i l h = h
list_to_upstreams-IsUpstreams (some m) upstreams i l h =
    elim (Option-cases (get i.hostname upstreams)) [
      | inl e ↦ rw (e, list_to_upstreams) (insert-IsUpstreams i.hostname m upstreams l h)
      | inr (paths, e) ↦
          rw (e, list_to_upstreams)
            (insert-IsUpstreams i.hostname (extend paths m) upstreams
              (extend-IsMap paths m (get-IsMap upstreams i.hostname h e)) h)
    ]

-- A round over the services of Kubernetes keeps upstreams well-formed, without a host twice or a
-- path twice under a host, whatever the answers are.
pub kube_round-IsUpstreams :
    (fetch : GlobalServiceMapping → Option (Answer KubeEndpoints))
    (services : List GlobalServiceMapping) (upstreams : UpstreamsDashMap) (config : Configuration)
    → IsUpstreams upstreams
    → IsUpstreams (kube_round fetch services upstreams config).0
unfolding kube_round
kube_round-IsUpstreams fetch [] upstreams config h = h
kube_round-IsUpstreams fetch (service ∷ services) upstreams config h =
    let list = for_kuber (fetch service) service in
    kube_round-IsUpstreams fetch services (list_to_upstreams list upstreams service)
      (service_headers service config)
      (list_to_upstreams-IsUpstreams list upstreams service
        (for_kuber-IsList (fetch service) service) h)
