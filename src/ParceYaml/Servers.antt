-- ===== src/ParceYaml/Servers.antt =====
-- The upstreams that a configuration file gives.
use aralez.Prelude.{
  ◌≡◌, refl, ap, ◌∙◌, inl, inr, true, false, Option, none, some, [], ◌∷◌, arith, Option-cases,
  Bool-cases, ◌==◌, subst, nat_eq, list_eq,
}
use mathlib.Core.Option
use aralez.Text.{Str}
use aralez.DashMap.{DashMap, get, insert}
use aralez.DashMap.Laws.{IsMap}
use aralez.DashMap.Rebuild.{map_values, get-map_values, rebuild}
use aralez.Structs.{
  Servers, PathMap, UpstreamsDashMap, PathConfig, HostConfig, Config, Configuration,
}
use aralez.Tools.{clone_dashmap_into}
use aralez.Tools.Clone.{IsUpstreams, reset, clone_dashmap_into-eq-reset}
use aralez.Tools.Paths.{get_path, map_values-IsMap, get_path-reset}
use aralez.HealthCheck.{Net}
use aralez.ParceYaml.{
  parse_servers, HostMaps, no_maps, populate_paths, Populated, populate_hosts,
  populate_file_upstreams, Globals,
}

-- The map of the paths alone, and the map of the hosts alone.
paths_loop : PathMap → DashMap Str PathConfig → PathMap
paths_loop acc [] = acc
paths_loop acc ((path, pc) ∷ paths) =
    paths_loop (insert path (parse_servers pc pc.servers, 0) acc) paths

path_map_lem :
    (paths : DashMap Str PathConfig) (maps : HostMaps)
    → (populate_paths maps paths).path_map ≡ paths_loop maps.path_map paths
unfolding populate_paths paths_loop
path_map_lem [] maps = refl
path_map_lem ((path, pc) ∷ paths) maps = path_map_lem paths _

host_paths : HostConfig → PathMap
host_paths hc = (populate_paths no_maps hc.paths).path_map

hosts_loop : UpstreamsDashMap → DashMap Str HostConfig → UpstreamsDashMap
hosts_loop acc [] = acc
hosts_loop acc ((host, hc) ∷ hosts) = hosts_loop (insert host (host_paths hc) acc) hosts

imtdashmap_lem :
    (hosts : DashMap Str HostConfig) (p : Populated)
    → (populate_hosts p hosts).imtdashmap ≡ hosts_loop p.imtdashmap hosts
unfolding populate_hosts hosts_loop host_paths
imtdashmap_lem [] p = refl
imtdashmap_lem ((host, hc) ∷ hosts) p = imtdashmap_lem hosts _

-- No host stands twice in the file, and no path twice under a host: YAML mappings.
abbrev pub IsHosts : DashMap Str HostConfig → Type 0
IsHosts [] = Unit
IsHosts ((host, hc) ∷ hosts) = (get host hosts ≡ none) × IsMap hc.paths × IsHosts hosts

abbrev pub configured_at : Str → Str → DashMap Str HostConfig → Option PathConfig
configured_at host path hosts = elim (get host hosts) [ none ↦ none | some hc ↦ get path hc.paths ]

abbrev pub servers_of : PathConfig → Servers
servers_of pc = (parse_servers pc pc.servers, 0)

host_paths_lem :
    (hc : HostConfig) → IsMap hc.paths → host_paths hc ≡ map_values (λ _ pc. servers_of pc) hc.paths
unfolding host_paths paths_loop
host_paths_lem hc h =
    path_map_lem hc.paths no_maps
    ∙ rebuild (λ _ pc. servers_of pc) paths_loop (λ acc. refl) (λ acc k v m. refl) hc.paths h

IsMap-of_IsHosts : (hosts : DashMap Str HostConfig) → IsHosts hosts → IsMap hosts
IsMap-of_IsHosts [] h = tt
IsMap-of_IsHosts ((host, hc) ∷ hosts) (fresh, _, h) = (fresh, IsMap-of_IsHosts hosts h)

hosts_loop_lem :
    (hosts : DashMap Str HostConfig)
    → IsHosts hosts
    → hosts_loop [] hosts ≡ map_values (λ _ hc. host_paths hc) hosts
unfolding hosts_loop
hosts_loop_lem hosts h =
    rebuild (λ _ hc. host_paths hc) hosts_loop (λ acc. refl) (λ acc k v m. refl) hosts
      (IsMap-of_IsHosts hosts h)

map_hosts-IsUpstreams :
    (hosts : DashMap Str HostConfig)
    → IsHosts hosts
    → IsUpstreams (map_values (λ _ hc. host_paths hc) hosts)
map_hosts-IsUpstreams [] h = tt
map_hosts-IsUpstreams ((host, hc) ∷ hosts) (fresh, is_map, h) = (
  rw (get-map_values (λ _ hc'. host_paths hc') host hosts, fresh) refl,
  rw (host_paths_lem hc is_map) (map_values-IsMap (λ _ pc. servers_of pc) hc.paths is_map),
  map_hosts-IsUpstreams hosts h,
)

get_hosts-IsMap :
    (hosts : DashMap Str HostConfig) (host : Str) (hc : HostConfig)
    → IsHosts hosts
    → get host hosts ≡ some hc
    → IsMap hc.paths
unfolding get
get_hosts-IsMap [] host hc h e = cc
get_hosts-IsMap ((j, c) ∷ hosts) host hc (_, is_map, h) e = elim (Bool-cases (j == host)) [
  | inl same ↦ let here : c ≡ hc = ground arith in subst (λ x. IsMap x.paths) here is_map
  | inr other ↦ get_hosts-IsMap hosts host hc h (ground arith)
]

get_path-hosts :
    (hosts : DashMap Str HostConfig) (host path : Str)
    → IsHosts hosts
    → get_path host path (map_values (λ _ hc. host_paths hc) hosts)
      ≡ Option.map servers_of (configured_at host path hosts)
get_path-hosts hosts host path h = elim (Option-cases (get host hosts)) [
  | inl e ↦ ground (arith, get-map_values (λ _ hc. host_paths hc) host hosts)
  | inr (hc, e) ↦ ground (
    arith,
    get-map_values (λ _ hc'. host_paths hc') host hosts,
    host_paths_lem hc (get_hosts-IsMap hosts host hc h e),
    get-map_values (λ _ pc. servers_of pc) path hc.paths,
  )
]

map-servers_of :
    (o : Option PathConfig)
    → Option.map {B = Servers} (λ s. (s.0, 0)) (Option.map servers_of o) ≡ Option.map servers_of o
map-servers_of none = refl
map-servers_of (some pc) = refl

module _ (net : Net) (config : Configuration) (parsed : Config) (g : Globals)
    (hosts : DashMap Str HostConfig) (given : parsed.upstreams ≡ some hosts)
    (h : IsHosts hosts) where
  abbrev loaded : Configuration × Globals
  loaded = populate_file_upstreams net config parsed g

  abbrev built : UpstreamsDashMap
  built = map_values (λ _ hc. host_paths hc) hosts

  built_lem : (p : Populated) → p.imtdashmap ≡ [] → (populate_hosts p hosts).imtdashmap ≡ built
  built_lem p e = imtdashmap_lem hosts p ∙ (ap (λ m. hosts_loop m hosts) e ∙ hosts_loop_lem hosts h)

  first_upstreams : g.first_run ≡ true → loaded.0.upstreams ≡ reset built
  unfolding populate_file_upstreams
  first_upstreams first =
      rw (given, first, populate_file_upstreams)
        (ap (λ m. clone_dashmap_into m config.upstreams) (built_lem _ refl)
          ∙ clone_dashmap_into-eq-reset built config.upstreams (map_hosts-IsUpstreams hosts h))

  -- On the first run of a configuration that gives hosts, no host twice and no path twice under a
  -- host, the configured servers are taken as they are, with counters of 0; the run is no longer
  -- the first, and the issued cookies are forgotten.
  pub populate-first_run :
      g.first_run ≡ true
      → ((host path : Str)
          → get_path host path loaded.0.upstreams
            ≡ Option.map servers_of (configured_at host path hosts))
        × (loaded.1.first_run ≡ false)
        × (loaded.1.reverse_store ≡ [])
  unfolding populate_file_upstreams
  populate-first_run first = (
    λ host path.
        ap (get_path host path) (first_upstreams first)
        ∙ (get_path-reset built host path (map_hosts-IsUpstreams hosts h)
            ∙ (ap (Option.map (λ s. (s.0, 0))) (get_path-hosts hosts host path h)
                ∙ map-servers_of (configured_at host path hosts))),
    rw (given, first, populate_file_upstreams) refl,
    rw (given, first, populate_file_upstreams) refl,
  )
