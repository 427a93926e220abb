-- ===== src/GetHosts/Tests.antt =====
-- Runs of src/web/gethosts.rs on the sample, and the theorems at it.
use aralez.Prelude.{list_eq, nat_eq, ◌≡◌, refl, ◌↔◌, none, some, [], ◌∷◌, arith, list_beq}
use mathlib.Core.List.{Perm}
use aralez.Text.{Str, bytes, rfind}
use aralez.DashMap.{get, insert}
use aralez.Structs.{PathMap}
use aralez.Samples.{server, lb, lb_after}
use aralez.GetHosts.{
  root, find_sticky_backend, pick_backend, try_path, host_loop, search_paths, get_host, get_header,
  headers_at, client_loop, server_loop, match_headers, return_headers,
}
use aralez.GetHosts.Paths.{Covers}
use aralez.GetHosts.Search.{Unserved}
use aralez.GetHosts.Longest.{Answer, get_host-Answer, get_host-none_iff}
use aralez.GetHosts.HeaderPaths.{
  IsNearestIn, client_headers_of, server_headers_of, get_header-IsNearest,
}
use aralez.GetHosts.RoundRobin.{picks, picks-perm}

abbrev host : Str
host = bytes "x.io"

abbrev path : Str
path = bytes "/api/v1/users"

get_host_run : get_host lb host path none ≡ some (server "b" 8000, lb_after)
unfolding get_host search_paths host_loop try_path pick_backend find_sticky_backend get insert
    list_beq rfind
get_host_run = refl

get_host_missing : get_host lb (bytes "y.io") path none ≡ none
unfolding get_host get list_beq
get_host_missing = refl

get_host-Answer_example : Answer lb host path none (server "b" 8000) lb_after
get_host-Answer_example = get_host-Answer lb host path none (server "b" 8000) lb_after get_host_run

get_host-none_iff_example : (get_host lb (bytes "y.io") path none ≡ none) ↔ (
    (host_entry : PathMap)
    → get (bytes "y.io") lb.ump_upst ≡ some host_entry
    → ((t : Str) → Covers t path → Unserved host_entry t) × Unserved host_entry root)
get_host-none_iff_example = get_host-none_iff lb (bytes "y.io") path none

picks-perm_example :
    Perm
      (picks lb (server "a" 1 ∷ server "b" 2 ∷ server "c" 3 ∷ []) 3 7)
      (server "a" 1 ∷ server "b" 2 ∷ server "c" 3 ∷ [])
picks-perm_example =
    picks-perm lb (server "a" 1 ∷ server "b" 2 ∷ server "c" 3 ∷ []) 7 (λ e. cc) (omega arith)

-- The headers of "/" serve "/api", whose own list is empty.
get_header_run :
    get_header lb host path
    ≡ some (record { server_headers = none; client_headers = some ((bytes "k", bytes "v") ∷ []) })
unfolding get_header match_headers client_loop server_loop return_headers get list_beq rfind
    headers_at
get_header_run = refl

get_header-IsNearest_example :
    IsNearestIn (get host lb.client_headers) path (client_headers_of (get_header lb host path))
    × IsNearestIn (get host lb.server_headers) path (server_headers_of (get_header lb host path))
get_header-IsNearest_example = get_header-IsNearest lb host path (bytes "api/v1/users", refl)
