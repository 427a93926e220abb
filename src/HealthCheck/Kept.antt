-- ===== src/HealthCheck/Kept.antt =====
-- Which servers a round of probes keeps, and what it leaves of them.
use aralez.Prelude.{
  ◌≡◌, refl, sym, ap, ◌∙◌, ◌↔◌, ◌⊎◌, inl, inr, true, false, Option, none, some, List, [], ◌∷◌,
  arith, In, Option-cases, list_eq, nat_eq, subst,
}
use mathlib.Core.Option
use aralez.Text.{Str}
use aralez.DashMap.Laws.{IsMap}
use aralez.DashMap.Rebuild.{map_values, rebuild}
use aralez.Structs.{InnerMap, Servers, PathMap, UpstreamsDashMap}
use aralez.Tools.Clone.{IsUpstreams, IsMap-of_IsUpstreams, reset, clone_dashmap-eq-reset}
use aralez.Tools.Paths.{
  get_path, get_path-rebuilt, get_path-reset, map_values-IsMap, map_values-IsUpstreams,
  reset-IsUpstreams,
}
use aralez.HealthCheck.{
  Net, http_request, link, scheme, is_checked, probe, probe_servers, build_paths, build_hosts,
  build_upstreams,
}

map-reset :
    (f : List InnerMap → List InnerMap) (o : Option Servers)
    → Option.map {B = Servers} (λ s. (f s.0, 0)) (Option.map {B = Servers} (λ s. (s.0, 0)) o)
      ≡ Option.map {B = Servers} (λ s. (f s.0, 0)) o
map-reset f none = refl
map-reset f (some s) = refl

module _ (net : Net) where
  -- A server answers: it is not to be checked, or its probe finds it alive.
  abbrev pub Answers : Str → Str → InnerMap → Type 0
  Answers method path s =
      (is_checked net s ≡ false) ⊎ ((http_request net (link net path s) method).0 ≡ true)

  probe_iff :
      (method path : Str) (s y : InnerMap)
      → (probe net method path s ≡ some y) ↔ (Answers method path s × (y ≡ scheme net s))
  unfolding probe
  probe_iff method path s y = ground arith

  -- The list that a path is left with: in order, the configured servers that answer.
  pub In-probe_servers :
      (method path : Str) (vec : List InnerMap) (y : InnerMap)
      → In y (probe_servers net method path vec)
        ↔ ((s : InnerMap) × In s vec × Answers method path s × (y ≡ scheme net s))
  unfolding probe_servers
  In-probe_servers method path [] y = (λ m. absurd m, λ t. absurd t.1)
  In-probe_servers method path (s ∷ vec) y = elim (Option-cases (probe net method path s)) [
    | inl dead ↦
        rw (dead, probe_servers)
          (
            λ m.
                let (s', i, answers, same) = (In-probe_servers method path vec y).0 m in
                (s', inr i, answers, same),
            λ t. elim t.1 [
              | inl here ↦
                  let found =
                    (probe_iff method path s (scheme net s)).1
                      (subst (Answers method path) here t.2, refl) in
                  cc (dead, found)
              | inr i ↦ (In-probe_servers method path vec y).1 (t.0, i, t.2, t.3)
            ],
          )
    | inr (a, found) ↦
        let (answers, is_a) = (probe_iff method path s a).0 found in
        rw (found, probe_servers)
          (
            λ m. elim m [
              | inl here ↦ (s, inl refl, answers, here ∙ is_a)
              | inr m' ↦
                  let (s', i, answers', same) = (In-probe_servers method path vec y).0 m' in
                  (s', inr i, answers', same)
            ],
            λ t. elim t.1 [
              | inl here ↦ inl (t.3 ∙ (ap (scheme net) here ∙ sym is_a))
              | inr i ↦ inr ((In-probe_servers method path vec y).1 (t.0, i, t.2, t.3))
            ],
          )
  ]

  build_paths_lem :
      (method : Str) (m : PathMap)
      → IsMap m
      → build_paths net method [] m
        ≡ map_values (λ path s. (probe_servers net method path s.0, 0)) m
  unfolding build_paths
  build_paths_lem method m h =
      rebuild (λ path s. (probe_servers net method path s.0, 0)) (build_paths net method)
        (λ acc. refl) (λ acc k v l. refl) m h

  build_upstreams_lem :
      (fullist : UpstreamsDashMap) (method : Str)
      → IsUpstreams fullist
      → build_upstreams net fullist method
        ≡ map_values (λ _ val. build_paths net method [] val) (reset fullist)
  unfolding build_upstreams build_hosts
  build_upstreams_lem fullist method h =
      ap (build_hosts net method []) (clone_dashmap-eq-reset fullist h)
      ∙ rebuild (λ _ val. build_paths net method [] val) (build_hosts net method) (λ acc. refl)
          (λ acc k v l. refl) (reset fullist)
          (IsMap-of_IsUpstreams (reset fullist) (reset-IsUpstreams fullist h))

  pub build_upstreams-IsUpstreams :
      (fullist : UpstreamsDashMap) (method : Str)
      → IsUpstreams fullist
      → IsUpstreams (build_upstreams net fullist method)
  build_upstreams-IsUpstreams fullist method h = rw (build_upstreams_lem fullist method h) (
      map_values-IsUpstreams (λ _ val. build_paths net method [] val) (reset fullist)
        (λ host paths k.
          rw (build_paths_lem method paths k)
            (map_values-IsMap (λ path s. (probe_servers net method path s.0, 0)) paths k))
        (reset-IsUpstreams fullist h))

  -- Where no host stands twice and no path twice under a host, a round keeps every configured host
  -- and path, with a counter of 0, and under each path those configured servers, in their order,
  -- that answer their probe or are not to be checked; only `is_ssl` and `is_http2` of a server are
  -- set anew.
  pub build_upstreams-get_path :
      (fullist : UpstreamsDashMap) (method : Str)
      → IsUpstreams fullist
      → ((host path : Str)
          → get_path host path (build_upstreams net fullist method)
            ≡ Option.map {B = Servers}
                (λ s. (probe_servers net method path s.0, 0))
                (get_path host path fullist))
        × ((path : Str) (vec : List InnerMap) (y : InnerMap)
            → In y (probe_servers net method path vec)
              ↔ ((s : InnerMap) × In s vec × Answers method path s × (y ≡ scheme net s)))
  build_upstreams-get_path fullist method h = (
    λ host path.
        ap (get_path host path) (build_upstreams_lem fullist method h)
        ∙ (get_path-rebuilt (λ _ p s. (probe_servers net method p s.0, 0))
              (λ _ val. build_paths net method [] val) (λ _ m k. build_paths_lem method m k)
              (reset fullist) host path (reset-IsUpstreams fullist h)
            ∙ (ap (Option.map {B = Servers} (λ s. (probe_servers net method path s.0, 0)))
                  (get_path-reset fullist host path h)
                ∙ map-reset (probe_servers net method path) (get_path host path fullist))),
    λ path vec y. In-probe_servers method path vec y,
  )
