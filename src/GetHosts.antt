-- ===== src/GetHosts.antt =====
-- src/web/gethosts.rs: which backend serves a request, and which headers it gets.
pub mod Pick
pub mod RoundRobin
pub mod Paths
pub mod Search
pub mod Longest
pub mod Frame
pub mod Shorten
pub mod HeaderPaths
mod Tests
use aralez.Prelude.{
  ℕ, zero, suc, ◌+◌, ◌%◌, ◌^◌, Bool, true, false, ◌&&◌, Option, none, some, List, [], ◌∷◌, ◌==◌,
  nat_eq, list_eq, if◌then◌else◌, length, take, get_elem?, is_empty, any,
}
use aralez.Text.{Str, bytes, rfind}
use aralez.DashMap.{DashMap, get, insert}
use aralez.Structs.{InnerMap, Servers, PathMap, UpstreamsDashMap, HeaderList, PathHeaders}
use aralez.Lb.{Lb}
use mathlib.Core.Option

abbrev pub usize_mod : ℕ
usize_mod = 2 ^ 64

abbrev pub slash : ℕ
slash = b'/'

abbrev pub root : Str
root = slash ∷ []

-- The test of the closure in `find_sticky_backend`.
abbrev pub same_endpoint : InnerMap → InnerMap → Bool
same_endpoint target s = s.address == target.address && s.port == target.port

unfoldable pub find_sticky_backend : Lb → List InnerMap → Option Str → Option InnerMap
find_sticky_backend lb servers none = none
find_sticky_backend lb servers (some b) = elim (get b lb.ump_byid) [
  | none ↦ none
  | some target ↦ if any (same_endpoint target) servers then some target else none
]

-- The backend, and the counter as it is left. Where there is no backend the counter stays.
-- `servers[idx]` would panic out of range, which `pick_backend-total` rules out.
unfoldable pub pick_backend : Lb → List InnerMap → ℕ → Option Str → Option (InnerMap × ℕ)
pick_backend lb servers index backend_id =
    if is_empty servers then none else elim (find_sticky_backend lb servers backend_id) [
      | some target ↦ some (target, index)
      | none ↦
          Option.map (λ s. (s, (index + 1) % usize_mod))
            (get_elem? servers (index % length servers))
    ]

-- `if let Some(entry) = host_entry.get(slice) { … pick_backend … }`, with the counter written back.
unfoldable pub try_path : Lb → PathMap → Option Str → Str → Option (InnerMap × PathMap)
try_path lb host_entry backend_id slice = elim (get slice host_entry) [
  | none ↦ none
  | some (servers, index) ↦
      Option.map (λ r. (r.0, insert slice (servers, r.1) host_entry))
        (pick_backend lb servers index backend_id)
]

-- The loop of `get_host` over the slices `path[..end]`; each is shorter than the one before.
unfoldable pub host_loop : ℕ → Lb → PathMap → Option Str → Str → Option (InnerMap × PathMap)
host_loop zero lb host_entry backend_id slice = none
host_loop (suc fuel) lb host_entry backend_id slice =
    elim (try_path lb host_entry backend_id slice) [
      | some found ↦ some found
      | none ↦ elim (rfind slash slice) [
        | none ↦ none
        | some pos ↦ host_loop fuel lb host_entry backend_id (take pos slice)
      ]
    ]

-- The whole search in the paths of one host: the loop, then the entry of "/".
unfoldable pub search_paths : Lb → PathMap → Option Str → Str → Option (InnerMap × PathMap)
search_paths lb host_entry backend_id path =
    elim (host_loop (suc (length path)) lb host_entry backend_id path) [
      | some found ↦ some found
      | none ↦ try_path lb host_entry backend_id root
    ]

unfoldable pub get_host : Lb → Str → Str → Option Str → Option (InnerMap × Lb)
get_host lb peer path backend_id = elim (get peer lb.ump_upst) [
  | none ↦ none
  | some host_entry ↦
      Option.map (λ r. (r.0, record lb { ump_upst = insert peer r.1 lb.ump_upst }))
        (search_paths lb host_entry backend_id path)
]

pub record GetHostsReturHeaders : Type 0 where
  pub client_headers : Option HeaderList
  pub server_headers : Option HeaderList

-- `if let Some(entry) = ….get(path) { if !entry.value().is_empty() { … } }`
unfoldable pub headers_at : PathHeaders → Str → Option HeaderList
headers_at entry path = elim (get path entry) [
  | none ↦ none
  | some [] ↦ none
  | some (h ∷ hs) ↦ some (h ∷ hs)
]

-- `if pos == 0 { "/" } else { &current_path[..pos] }`
abbrev pub shorten : ℕ → Str → Str
shorten pos path = if pos == 0 then root else take pos path

-- The loop over the client headers.
unfoldable pub client_loop : ℕ → PathHeaders → Str → Option HeaderList
client_loop zero entry path = none
client_loop (suc fuel) entry path = elim (headers_at entry path) [
  | some found ↦ some found
  | none ↦ elim (path == root) [
    | true ↦ none
    | false ↦ elim (rfind slash path) [
      | none ↦ none
      | some pos ↦ client_loop fuel entry (shorten pos path)
    ]
  ]
]

-- The loop over the server headers, which asks a second time at "/".
unfoldable pub server_loop : ℕ → PathHeaders → Str → Option HeaderList
server_loop zero entry path = none
server_loop (suc fuel) entry path = elim (headers_at entry path) [
  | some found ↦ some found
  | none ↦ elim (path == root) [
    | true ↦ headers_at entry root
    | false ↦ elim (rfind slash path) [
      | none ↦ none
      | some pos ↦ server_loop fuel entry (shorten pos path)
    ]
  ]
]

-- The path "/" follows one of length 1, so two rounds more than bytes.
abbrev pub header_fuel : Str → ℕ
header_fuel path = suc (suc (length path))

match_headers :
    (ℕ → PathHeaders → Str → Option HeaderList) → Option PathHeaders → Str → Option HeaderList
match_headers loop none path = none
match_headers loop (some entry) path = loop (header_fuel path) entry path

return_headers : Option HeaderList → Option HeaderList → Option GetHostsReturHeaders
return_headers none none = none
return_headers client server = some (record { client_headers = client; server_headers = server })

unfoldable pub get_header : Lb → Str → Str → Option GetHostsReturHeaders
unfolding match_headers return_headers
get_header lb peer path =
    return_headers (match_headers client_loop (get peer lb.client_headers) path)
      (match_headers server_loop (get peer lb.server_headers) path)
