-- ===== src/GetHosts/Frame.antt =====
-- What `get_host` leaves alone: the servers of every path, and with no sticky backend the
-- address and port of its answer are those of a server of the path.
use aralez.Prelude.{ℕ, ◌≡◌, refl, Option, none, some, List, ==_iff, arith, In, nat_eq, list_eq}
use mathlib.Core.Option
use aralez.Text.{Str}
use aralez.DashMap.{get, insert}
use aralez.DashMap.Laws.{get-insert, insert-IsMap}
use aralez.Tools.Clone.{IsUpstreams}
use aralez.Tools.Paths.{get_path, get-IsMap, insert-IsUpstreams}
use aralez.Structs.{InnerMap, PathMap, UpstreamsDashMap}
use aralez.Lb.{Lb}
use aralez.GetHosts.{get_host}
use aralez.GetHosts.Pick.{pick_backend-In}
use aralez.GetHosts.Search.{IsBest}
use aralez.GetHosts.Longest.{get_host-Answer}

-- The servers of one path, less the counter.
abbrev pub path_servers : Str → PathMap → Option (List InnerMap)
path_servers path m = Option.map (λ s. s.0) (get path m)

pub servers_at : UpstreamsDashMap → Str → Str → Option (List InnerMap)
servers_at m host path = elim (get host m) [ none ↦ none | some paths ↦ path_servers path paths ]

servers_at-insert :
    (m : UpstreamsDashMap) (peer at : Str) (he : PathMap) (servers : List InnerMap) (i n : ℕ)
    → get peer m ≡ some he
    → get at he ≡ some (servers, i)
    → (host path : Str)
    → servers_at (insert peer (insert at (servers, n) he) m) host path ≡ servers_at m host path
unfolding servers_at
servers_at-insert m peer at he servers i n h k host path = ground (
  arith,
  get-insert peer host (insert at (servers, n) he) m,
  get-insert at path (servers, n) he,
  ==_iff peer host,
  ==_iff at path,
)

-- `get_host` moves counters only: the servers of every host and path stay, and so do the id map,
-- the headers, the configuration and the parameters.
pub get_host-servers_at :
    (lb : Lb) (peer path : Str) (backend_id : Option Str) (b : InnerMap) (lb' : Lb)
    → get_host lb peer path backend_id ≡ some (b, lb')
    → ((h p : Str) → servers_at lb'.ump_upst h p ≡ servers_at lb.ump_upst h p)
      × (lb' ≡ record lb { ump_upst = lb'.ump_upst })
get_host-servers_at lb peer path backend_id b lb' e =
    let a = get_host-Answer lb peer path backend_id b lb' e in
    (
      λ h p. rw a.after (
          servers_at-insert lb.ump_upst peer a.at a.host_entry a.servers a.index a.next a.host
            a.entry h p),
      rw a.after refl,
    )

-- Whatever the cookie, the answer has the address and port of a server that is configured under
-- the best path of the request's host.
pub get_host-In :
    (lb : Lb) (peer path : Str) (backend_id : Option Str) (b : InnerMap) (lb' : Lb)
    → get_host lb peer path backend_id ≡ some (b, lb')
    → (host_entry : PathMap) × (t : Str) × (servers : List InnerMap) × (index : ℕ) × (s : InnerMap)
      × (get peer lb.ump_upst ≡ some host_entry)
      × IsBest host_entry t path
      × (get t host_entry ≡ some (servers, index))
      × In s servers
      × (s.address ≡ b.address)
      × (s.port ≡ b.port)
get_host-In lb peer path backend_id b lb' e =
    let a = get_host-Answer lb peer path backend_id b lb' e in
    let (s, m, address, port) = pick_backend-In lb a.servers a.index backend_id b a.next a.picked in
    (a.host_entry, a.at, a.servers, a.index, s, a.host, a.best, a.entry, m, address, port)

-- `get_host` keeps the upstreams well-formed: no host twice, and no path twice under a host.
pub get_host-IsUpstreams :
    (lb : Lb) (peer path : Str) (backend_id : Option Str) (b : InnerMap) (lb' : Lb)
    → get_host lb peer path backend_id ≡ some (b, lb')
    → IsUpstreams lb.ump_upst
    → IsUpstreams lb'.ump_upst
get_host-IsUpstreams lb peer path backend_id b lb' e h =
    let a = get_host-Answer lb peer path backend_id b lb' e in
    rw a.after (
      insert-IsUpstreams peer (insert a.at (a.servers, a.next) a.host_entry) lb.ump_upst
        (insert-IsMap a.at (a.servers, a.next) a.host_entry (get-IsMap lb.ump_upst peer h a.host))
        h)

pub servers_at-get_path :
    (m : UpstreamsDashMap) (host path : Str)
    → servers_at m host path ≡ Option.map (λ s. s.0) (get_path host path m)
unfolding servers_at
servers_at-get_path m host path = ground arith
