-- ===== src/KuberConsul/Discovered.antt =====
-- Which upstreams are discovered, and when they are sent on.
use aralez.Prelude.{
  ℕ, suc, ◌+◌, ◌-◌, ◌<◌, ◌≡◌, refl, ap, ◌∙◌, ◌↔◌, ◌⊎◌, inl, inr, true, Option, none, some, List, [],
  ◌∷◌, ◌++◌, map, arith, In, In-append_left, In-append_right, length, get_elem?, get_elem?_of_lt,
  ltb, Bool-cases, Option-cases, nat_eq, list_eq,
}
use mathlib.Core.Option
use aralez.Outcome.{panicked, returned}
use aralez.Text.{Str}
use aralez.DashMap.{get, insert}
use aralez.DashMap.Laws.{get-insert_self}
use aralez.Structs.{
  InnerMap, Servers, PathMap, UpstreamsDashMap, GlobalServiceMapping, Configuration,
}
use aralez.Tools.{compare_dashmaps}
use aralez.Tools.Clone.{IsUpstreams, reset, clone_dashmap_into-eq-reset}
use aralez.Tools.Compare.{SameUpstreams, compare_dashmaps_iff}
use aralez.KuberConsul.{
  KubeAddress, KubePort, KubeSubset, service_path, match_path, discovered, kube_servers,
  kube_subsets, for_kuber, choose_server, clone_compare,
}

-- A round sends its upstreams on exactly if they are not those that were sent last: the
-- configuration as it stands, with the new upstreams and counters of 0, which are then the last
-- ones. In both maps no host may stand twice, and no path twice under a host.
pub clone_compare_lem :
    (upstreams prev_upstreams : UpstreamsDashMap) (config : Configuration)
    → IsUpstreams upstreams
    → IsUpstreams prev_upstreams
    → (SameUpstreams upstreams prev_upstreams
        × (clone_compare upstreams prev_upstreams config ≡ (none, prev_upstreams)))
      ⊎ (¬ (SameUpstreams upstreams prev_upstreams)
          × (clone_compare upstreams prev_upstreams config
              ≡ (some (record config { upstreams = reset upstreams }), reset upstreams)))
unfolding clone_compare
clone_compare_lem upstreams prev_upstreams config h k =
    let same_iff = compare_dashmaps_iff upstreams prev_upstreams h k in
    elim (Bool-cases (compare_dashmaps upstreams prev_upstreams)) [
      | inl same ↦ inl (same_iff.0 same, rw (same, clone_compare) refl)
      | inr other ↦ inr (
        λ s. cc (other, same_iff.1 s),
        rw
            (
              other,
              clone_dashmap_into-eq-reset upstreams [] h,
              clone_dashmap_into-eq-reset upstreams prev_upstreams h,
              clone_compare,
            )
            refl,
      )
    ]

pub match_path-service_path :
    (conf : GlobalServiceMapping) (m : PathMap) (v : List InnerMap)
    → match_path conf m v ≡ insert (service_path conf) (v, 0) m
unfolding match_path
match_path-service_path conf m v = ground arith

-- The addresses and ports of the last subset that has both, or what there was before.
abbrev pub last_complete :
    Option (List KubeAddress × List KubePort)
    → List KubeSubset
    → Option (List KubeAddress × List KubePort)
last_complete before [] = before
last_complete before (subset ∷ subsets) =
    last_complete
      (elim subset.addresses [
        | none ↦ before
        | some addresses ↦ elim subset.ports [
          | none ↦ before
          | some ports ↦ some (addresses, ports)
        ]
      ])
      subsets

abbrev pub servers_of_subset : GlobalServiceMapping → List KubeAddress × List KubePort → Servers
servers_of_subset conf s = (kube_servers conf s.0 s.1, 0)

kube_subsets-last_complete :
    (conf : GlobalServiceMapping) (subsets : List KubeSubset) (upstreams : PathMap)
    (before : Option (List KubeAddress × List KubePort))
    → get (service_path conf) upstreams ≡ Option.map (servers_of_subset conf) before
    → get (service_path conf) (kube_subsets conf subsets upstreams)
      ≡ Option.map (servers_of_subset conf) (last_complete before subsets)
unfolding kube_subsets
kube_subsets-last_complete conf [] upstreams before e = e
kube_subsets-last_complete conf (subset ∷ subsets) upstreams before e =
    elim (Option-cases subset.addresses) [
      | inl f ↦ rw (f, kube_subsets) (kube_subsets-last_complete conf subsets upstreams before e)
      | inr (addresses, f) ↦ elim (Option-cases subset.ports) [
        | inl g ↦
            rw (f, g, kube_subsets) (kube_subsets-last_complete conf subsets upstreams before e)
        | inr (ports, g) ↦
            let vec = kube_servers conf addresses ports in
            rw (f, g, kube_subsets)
              (kube_subsets-last_complete conf subsets (match_path conf upstreams vec)
                (some (addresses, ports))
                (ap (get (service_path conf)) (match_path-service_path conf upstreams vec)
                  ∙ get-insert_self (service_path conf) (vec, 0) upstreams))
      ]
    ]

In-ports :
    (conf : GlobalServiceMapping) (ip : Str) (ports : List KubePort) (b : InnerMap)
    → In b (map (λ p. discovered conf ip p.port) ports)
      ↔ ((p : KubePort) × In p ports × (b ≡ discovered conf ip p.port))
In-ports conf ip [] b = (λ i. absurd i, λ t. absurd t.1)
In-ports conf ip (p ∷ ports) b = (
  λ i. elim i [
    | inl e ↦ (p, inl refl, e)
    | inr j ↦ let (q, k, e) = (In-ports conf ip ports b).0 j in (q, inr k, e)
  ],
  λ (q, k, e). elim k [
    | inl same ↦ inl (e ∙ ap (λ r. discovered conf ip r.port) same)
    | inr j ↦ inr ((In-ports conf ip ports b).1 (q, j, e))
  ],
)

In-append : (xs ys : List InnerMap) (b : InnerMap) → In b (xs ++ ys) → In b xs ⊎ In b ys
In-append [] ys b i = inr i
In-append (x ∷ xs) ys b (inl e) = inl (inl e)
In-append (x ∷ xs) ys b (inr i) = elim (In-append xs ys b i) [ inl j ↦ inl (inr j) | inr j ↦ inr j ]

In-kube_servers :
    (conf : GlobalServiceMapping) (addresses : List KubeAddress) (ports : List KubePort)
    (b : InnerMap)
    → In b (kube_servers conf addresses ports) ↔ (
        (a : KubeAddress) × (p : KubePort) × In a addresses
        × In p ports
        × (b ≡ discovered conf a.ip p.port))
unfolding kube_servers
In-kube_servers conf [] ports b = (λ i. absurd i, λ t. absurd t.2)
In-kube_servers conf (a ∷ addresses) ports b =
    let here = map (λ p. discovered conf a.ip p.port) ports in
    let rest = kube_servers conf addresses ports in
    (
      λ i. elim (In-append here rest b i) [
        | inl j ↦ let (p, k, e) = (In-ports conf a.ip ports b).0 j in (a, p, inl refl, k, e)
        | inr j ↦
            let (a', p, l, k, e) = (In-kube_servers conf addresses ports b).0 j in
            (a', p, inr l, k, e)
      ],
      λ (a', p, l, k, e). elim l [
        | inl same ↦
            In-append_left b here rest (
              (In-ports conf a.ip ports b).1 (p, k, e ∙ ap (λ x. discovered conf x.ip p.port) same))
        | inr j ↦
            In-append_right b here rest
              ((In-kube_servers conf addresses ports b).1 (a', p, j, k, e))
      ],
    )

-- From an answer of Kubernetes that lists subsets, a service gets under its path exactly the
-- addresses of the last subset that has addresses and ports, each with each of its ports; those
-- of the subsets before it are lost, and there is no entry where no subset has both.
pub for_kuber-last_complete :
    (conf : GlobalServiceMapping) (subsets : List KubeSubset)
    → ((upstreams : PathMap) × (for_kuber
            (some (record { is_success = true; json = some (record { subsets = some subsets }) }))
            conf
          ≡ some upstreams)
        × (get (service_path conf) upstreams
            ≡ Option.map (servers_of_subset conf) (last_complete none subsets)))
      × ((addresses : List KubeAddress) (ports : List KubePort) (b : InnerMap)
          → In b (kube_servers conf addresses ports) ↔ (
              (a : KubeAddress) × (p : KubePort) × In a addresses
              × In p ports
              × (b ≡ discovered conf a.ip p.port)))
unfolding for_kuber get
for_kuber-last_complete conf subsets = (
  (kube_subsets conf subsets [], refl, kube_subsets-last_complete conf subsets [] none refl),
  In-kube_servers conf,
)

choose_server_at :
    (random_range : ℕ → ℕ) (servers : List Str) (end : ℕ) (found : Str)
    → length servers - 1 ≡ end
    → ltb 0 end ≡ true
    → get_elem? servers (random_range end) ≡ some found
    → choose_server random_range servers ≡ returned found
unfolding choose_server
choose_server_at random_range servers end found minus positive e =
    rw (minus, positive, e, choose_server) refl

-- The server that is asked, where the random number is below the bound that it is given: with no
-- server the choice panics; otherwise it is one of the servers, and never the last of several.
pub choose_server_lem :
    (random_range : ℕ → ℕ) (servers : List Str)
    → ((end : ℕ) → 0 < end → random_range end < end)
    → ((servers ≡ []) × (choose_server random_range servers ≡ panicked))
      ⊎ ((s : Str) × (i : ℕ) × (choose_server random_range servers ≡ returned s)
          × (get_elem? servers i ≡ some s)
          × ((i + 1 < length servers) ⊎ (length servers ≡ 1)))
unfolding choose_server
choose_server_lem random_range [] below = inl (refl, refl)
choose_server_lem random_range (s ∷ []) below = inr (s, 0, refl, refl, inr refl)
choose_server_lem random_range (s ∷ t ∷ servers) below =
    let end = suc (length servers) in
    let bounded = below end (omega arith) in
    let (found, e) = get_elem?_of_lt (s ∷ t ∷ servers) (random_range end) (omega arith) in
    let minus : suc (suc (length servers)) - 1 ≡ end = omega arith in
    let positive : ltb 0 end ≡ true = ground arith in
    inr (
      found,
      random_range end,
      choose_server_at random_range (s ∷ t ∷ servers) end found minus positive e,
      e,
      inl (omega arith),
    )
