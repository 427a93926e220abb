-- ===== src/Tools/Liveness.antt =====
-- What the two reports of the upstreams show under a host and a path.
use aralez.Prelude.{◌≡◌, refl, ap, ◌∙◌, some, [], In, map, nat_eq, list_eq}
use mathlib.Core.Option
use aralez.Text.{Str}
use aralez.DashMap.Rebuild.{rebuild}
use aralez.Structs.{InnerMap, Servers, UpstreamsDashMap}
use aralez.Tools.{snapshot, json_paths, json_hosts, upstreams_to_json}
use aralez.Tools.Clone.{IsUpstreams, IsMap-of_IsUpstreams}
use aralez.Tools.Paths.{get_path, get_path-rebuilt}

-- The current servers of the path have one with the address and port of the backend.
abbrev pub IsAlive : UpstreamsDashMap → Str → Str → InnerMap → Type 0
IsAlive current host path backend =
    (s : Servers) × (b : InnerMap) × (get_path host path current ≡ some s)
    × In b s.0
    × (b.address ≡ backend.address)
    × (b.port ≡ backend.port)

-- Where no host stands twice and no path twice under a host, the status report has the same hosts
-- and paths, and under each the backends of the map in their order, with the counter for the
-- number of requests.
pub upstreams_to_json-get_path :
    (upstreams : UpstreamsDashMap) (host path : Str)
    → IsUpstreams upstreams
    → get_path host path (upstreams_to_json upstreams)
      ≡ Option.map snapshot (get_path host path upstreams)
unfolding upstreams_to_json
upstreams_to_json-get_path upstreams host path h =
    ap (get_path host path) (
      rebuild (λ _ p. json_paths [] p) json_hosts (λ acc. unfold json_hosts in refl)
        (λ acc k v m. unfold json_hosts in refl) upstreams (IsMap-of_IsUpstreams upstreams h))
    ∙ get_path-rebuilt (λ _ _ s. snapshot s) (λ _ p. json_paths [] p)
        (λ _ m k.
          rebuild (λ _ s. snapshot s) json_paths (λ acc. unfold json_paths in refl)
            (λ acc p s l. unfold json_paths in refl) m k)
        upstreams host path h
