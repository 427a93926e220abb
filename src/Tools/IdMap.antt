-- ===== src/Tools/IdMap.antt =====
-- What `clone_idmap_into` stores under the id of a backend.
use aralez.Prelude.{ℕ, ◌≡◌, some, List, In, nat_eq, list_eq}
use aralez.Text.{Str}
use aralez.DashMap.{get}
use aralez.Structs.{InnerMap, PathMap, UpstreamsDashMap, UpstreamsIdMap}
use aralez.Tools.Format.{id_string}
use aralez.Tools.{short_hash}

-- A backend of the upstreams, under the host and path that it is listed at.
pub record Listed (m : UpstreamsDashMap) (host : Str) (x : InnerMap) : Type 0 where
  pub paths : PathMap
  pub path : Str
  pub servers : List InnerMap
  pub index : ℕ
  pub host_entry : In (host, paths) m
  pub path_entry : In (path, (servers, index)) paths
  pub member : In x servers

abbrev Has : Str → UpstreamsIdMap → Type 0
Has h m = (y : InnerMap) × (get h m ≡ some y)

module _ (sha_hex : Str → Str) where
  abbrev id_of : Str → InnerMap → Str
  id_of host x = short_hash sha_hex (id_string host x)

  -- Every entry of the id map satisfies what the inserted ones do.
  module _ (P : Str → InnerMap → Type 0) where
    abbrev Holds : UpstreamsIdMap → Type 0
    Holds m = (h : Str) (y : InnerMap) → get h m ≡ some y → P h y
