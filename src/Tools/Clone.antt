-- ===== src/Tools/Clone.antt =====
-- The copies of the upstreams: the same hosts, paths and servers, and counters of 0.
use aralez.Prelude.{◌≡◌, refl, ◌∙◌, none, [], ◌∷◌, nat_eq, list_eq}
use aralez.DashMap.{get}
use aralez.DashMap.Laws.{IsMap}
use aralez.DashMap.Rebuild.{map_values, rebuild}
use mathlib.Core.Path.{ap₂}
use aralez.Structs.{PathMap, UpstreamsDashMap}
use aralez.Tools.{clone_paths, clone_hosts, clone_dashmap, clone_dashmap_into}

-- No host stands twice, and no path twice under a host.
abbrev pub IsUpstreams : UpstreamsDashMap → Type 0
IsUpstreams [] = Unit
IsUpstreams ((host, paths) ∷ m) = (get host m ≡ none) × IsMap paths × IsUpstreams m

-- The same upstreams with every counter at 0.
abbrev pub reset_paths : PathMap → PathMap
reset_paths = map_values (λ _ s. (s.0, 0))

abbrev pub reset : UpstreamsDashMap → UpstreamsDashMap
reset = map_values (λ _ paths. reset_paths paths)

clone_paths-eq-reset_paths : (m : PathMap) → IsMap m → clone_paths [] m ≡ reset_paths m
unfolding clone_paths
clone_paths-eq-reset_paths m h =
    rebuild (λ _ s. (s.0, 0)) clone_paths (λ acc. refl) (λ acc k v l. refl) m h

-- The copies of the hosts are the resets where the paths of each are distinct.
clones-eq-reset :
    (m : UpstreamsDashMap) → IsUpstreams m → map_values (λ _ p. clone_paths [] p) m ≡ reset m
clones-eq-reset [] h = refl
clones-eq-reset ((host, paths) ∷ m) (_, is_map, h) =
    ap₂ (λ p l. (host, p) ∷ l) (clone_paths-eq-reset_paths paths is_map) (clones-eq-reset m h)

pub IsMap-of_IsUpstreams : (m : UpstreamsDashMap) → IsUpstreams m → IsMap m
IsMap-of_IsUpstreams [] h = tt
IsMap-of_IsUpstreams ((j, ps) ∷ m) (fresh, _, h) = (fresh, IsMap-of_IsUpstreams m h)

clone_hosts-eq-reset : (m : UpstreamsDashMap) → IsUpstreams m → clone_hosts [] m ≡ reset m
unfolding clone_hosts
clone_hosts-eq-reset m h =
    rebuild (λ _ p. clone_paths [] p) clone_hosts (λ acc. refl) (λ acc k v l. refl) m
      (IsMap-of_IsUpstreams m h)
    ∙ clones-eq-reset m h

-- Where no host stands twice and no path twice under a host, a copy has the same hosts, paths and
-- servers, in the same order, and every counter at 0.
pub clone_dashmap-eq-reset : (m : UpstreamsDashMap) → IsUpstreams m → clone_dashmap m ≡ reset m
unfolding clone_dashmap
clone_dashmap-eq-reset m h = clone_hosts-eq-reset m h

-- Where no host stands twice and no path twice under a host, a copy into another map has the
-- hosts, paths and servers of the original, in the same order, with every counter at 0, whatever
-- that map held before.
pub clone_dashmap_into-eq-reset :
    (original cloned : UpstreamsDashMap)
    → IsUpstreams original
    → clone_dashmap_into original cloned ≡ reset original
unfolding clone_dashmap_into
clone_dashmap_into-eq-reset original cloned h = clone_hosts-eq-reset original h
