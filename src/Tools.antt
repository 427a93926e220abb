-- ===== src/Tools.antt =====
-- src/utils/tools.rs: the copies, comparisons and reports of the shared maps.
pub mod Format
pub mod Clone
pub mod Paths
pub mod Members
pub mod Agree
pub mod Compare
pub mod IdMap
pub mod MergeHeaders
pub mod Liveness
mod Tests
use aralez.Prelude.{
  ℕ, Bool, true, false, ◌&&◌, ◌||◌, Option, none, some, List, [], ◌∷◌, ◌++◌, ◌==◌, PartialEq,
  nat_eq, list_eq, if◌then◌else◌, length, any, all, map, take,
}
use aralez.Text.{Str, bytes}
use aralez.DashMap.{DashMap, get, insert}
use aralez.Structs.{
  InnerMap, Servers, PathMap, UpstreamsDashMap, UpstreamsIdMap, PathHeaders, HeaderList,
  InnerMapForJson, UpstreamSnapshotForJson,
}
use aralez.Structs.Equality.{inner_map_eq}
use Format.{id_string}
use mathlib.Core.Option

abbrev pub string_to_bool : Option Str → Option Bool
string_to_bool (some v) = some (v == bytes "yes" || v == bytes "true")
string_to_bool none = some false

-- The inner loop of the copies: the servers of each path, with a counter of 0.
unfoldable pub clone_paths : PathMap → PathMap → PathMap
clone_paths new_inner_map [] = new_inner_map
clone_paths new_inner_map ((path, (vec, _)) ∷ inner_map) =
    clone_paths (insert path (vec, 0) new_inner_map) inner_map

unfoldable pub clone_hosts : UpstreamsDashMap → UpstreamsDashMap → UpstreamsDashMap
clone_hosts new_map [] = new_map
clone_hosts new_map ((hostname, inner_map) ∷ original) =
    clone_hosts (insert hostname (clone_paths [] inner_map) new_map) original

unfoldable pub clone_dashmap : UpstreamsDashMap → UpstreamsDashMap
clone_dashmap original = clone_hosts [] original

-- `clear`
abbrev pub cleared {ℓ} : {A : Type ℓ} → List A → List A
cleared m = []

-- The second map as the call leaves it.
unfoldable pub clone_dashmap_into : UpstreamsDashMap → UpstreamsDashMap → UpstreamsDashMap
clone_dashmap_into original cloned = clone_hosts (cleared cloned) original

-- A `HashSet`, filled from a list, and `HashSet::eq`: equal sizes, and one within the other.
unfoldable pub contains {ℓ} : {A : Type ℓ} ⦃e : PartialEq A⦄ → List A → A → Bool
contains set x = any (λ y. x == y) set

unfoldable pub to_set {ℓ} : {A : Type ℓ} ⦃e : PartialEq A⦄ → List A → List A
to_set [] = []
to_set (x ∷ xs) = let rest = to_set xs in if contains rest x then rest else x ∷ rest

unfoldable pub set_eq {ℓ} : {A : Type ℓ} ⦃e : PartialEq A⦄ → List A → List A → Bool
set_eq set1 set2 = length set1 == length set2 && all (contains set2) set1

-- The tests of one path.
unfoldable pub same_servers : List InnerMap → List InnerMap → Bool
same_servers vec1 vec2 = length vec1 == length vec2 && set_eq (to_set vec1) (to_set vec2)

-- The loop over the paths of one host.
unfoldable pub compare_paths : PathMap → PathMap → Bool
compare_paths [] inner_map2 = true
compare_paths ((path, (vec1, _)) ∷ inner_map1) inner_map2 = elim (get path inner_map2) [
  | none ↦ false
  | some (vec2, _) ↦ same_servers vec1 vec2 && compare_paths inner_map1 inner_map2
]

-- The loop over the hosts.
unfoldable pub compare_hosts : UpstreamsDashMap → UpstreamsDashMap → Bool
compare_hosts [] map2 = true
compare_hosts ((host, inner_map1) ∷ map1) map2 = elim (get host map2) [
  | none ↦ false
  | some inner_map2 ↦
      (length inner_map1 == length inner_map2 && compare_paths inner_map1 inner_map2)
      && compare_hosts map1 map2
]

unfoldable pub compare_dashmaps : UpstreamsDashMap → UpstreamsDashMap → Bool
compare_dashmaps map1 map2 = length map1 == length map2 && compare_hosts map1 map2

abbrev pub or_default : Option HeaderList → HeaderList
or_default none = []
or_default (some hs) = hs

-- The target as the call leaves it.
unfoldable pub merge_headers : PathHeaders → PathHeaders → PathHeaders
merge_headers target [] = target
merge_headers target ((key, values) ∷ source) =
    merge_headers (insert key (or_default (get key target) ++ values) target) source

-- `sha_hex` is the lower-case hex text of SHA-256, of the crates `sha2` and `base16ct`.
module _ (sha_hex : Str → Str) where
  -- `hex_hash[0..50]`
  abbrev pub short_hash : Str → Str
  short_hash id = take 50 (sha_hex id)

  unfoldable pub id_servers : Str → List InnerMap → UpstreamsIdMap → UpstreamsIdMap
  id_servers host [] cloned = cloned
  id_servers host (x ∷ vec) cloned =
      id_servers host vec (insert (short_hash (id_string host x)) x cloned)

  unfoldable pub id_paths : Str → PathMap → UpstreamsIdMap → UpstreamsIdMap
  id_paths host [] cloned = cloned
  id_paths host ((path, (vec, _)) ∷ inner_map) cloned =
      id_paths host inner_map (id_servers host vec cloned)

  unfoldable pub id_hosts : UpstreamsDashMap → UpstreamsIdMap → UpstreamsIdMap
  id_hosts [] cloned = cloned
  id_hosts ((host, inner_map) ∷ original) cloned =
      id_hosts original (id_paths host inner_map cloned)

  unfoldable pub clone_idmap_into : UpstreamsDashMap → UpstreamsIdMap → UpstreamsIdMap
  clone_idmap_into original cloned = id_hosts original (cleared cloned)

abbrev pub for_json : InnerMap → InnerMapForJson
for_json a = record {
  address = a.address;
  port = a.port;
  is_ssl = a.is_ssl;
  is_http2 = a.is_http2;
  to_https = a.to_https;
  rate_limit = a.rate_limit;
  x4xx_limit = a.x4xx_limit;
  healthcheck = a.healthcheck;
}

abbrev pub snapshot : Servers → UpstreamSnapshotForJson
snapshot (backends, counter) = record { backends = map for_json backends; requests = counter }

unfoldable pub json_paths :
    DashMap Str UpstreamSnapshotForJson → PathMap → DashMap Str UpstreamSnapshotForJson
json_paths inner_map [] = inner_map
json_paths inner_map ((path, s) ∷ rest) = json_paths (insert path (snapshot s) inner_map) rest

unfoldable pub json_hosts :
    DashMap Str (DashMap Str UpstreamSnapshotForJson)
    → UpstreamsDashMap
    → DashMap Str (DashMap Str UpstreamSnapshotForJson)
json_hosts outer [] = outer
json_hosts outer ((host, paths) ∷ rest) = json_hosts (insert host (json_paths [] paths) outer) rest

-- `upstreams_to_json` before `serde_json::to_string` writes it as text.
unfoldable pub upstreams_to_json :
    UpstreamsDashMap → DashMap Str (DashMap Str UpstreamSnapshotForJson)
upstreams_to_json upstreams = json_hosts [] upstreams

-- One object of `upstreams_liveness_json`.
pub record BackendJson : Type 0 where
  pub address : Str
  pub port : ℕ
  pub alive : Bool

abbrev pub endpoint_in : InnerMap → List InnerMap → Bool
endpoint_in backend list = any (λ b. b.address == backend.address && b.port == backend.port) list

unfoldable pub is_alive : UpstreamsDashMap → Str → Str → InnerMap → Bool
is_alive current hostname path backend = elim (get hostname current) [
  | none ↦ false
  | some host_map ↦ elim (get path host_map) [
    | none ↦ false
    | some (list, _) ↦ endpoint_in backend list
  ]
]

unfoldable pub backend_json : UpstreamsDashMap → Str → Str → InnerMap → BackendJson
backend_json current hostname path backend = record {
  address = backend.address;
  port = backend.port;
  alive = is_alive current hostname path backend;
}

unfoldable pub liveness_paths :
    UpstreamsDashMap
    → Str
    → DashMap Str (List BackendJson)
    → PathMap
    → DashMap Str (List BackendJson)
liveness_paths current hostname paths_json [] = paths_json
liveness_paths current hostname paths_json ((path, (configured_backends, _)) ∷ rest) =
    liveness_paths current hostname
      (insert path (map (backend_json current hostname path) configured_backends) paths_json) rest

unfoldable pub liveness_hosts :
    UpstreamsDashMap
    → DashMap Str (DashMap Str (List BackendJson))
    → UpstreamsDashMap
    → DashMap Str (DashMap Str (List BackendJson))
liveness_hosts current result [] = result
liveness_hosts current result ((hostname, paths) ∷ rest) =
    liveness_hosts current (insert hostname (liveness_paths current hostname [] paths) result) rest

unfoldable pub upstreams_liveness_json :
    UpstreamsDashMap → UpstreamsDashMap → DashMap Str (DashMap Str (List BackendJson))
upstreams_liveness_json configured current = liveness_hosts current [] configured

abbrev pub prepend : Str → Option Str → Str → Str → Option Str
prepend prefix val uri port = Option.map (λ s. prefix ++ (s ++ (b':' ∷ (port ++ uri)))) val
