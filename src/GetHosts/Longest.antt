-- ===== src/GetHosts/Longest.antt =====
-- The path whose servers answer a request: the longest that covers it and has a server.
use aralez.Prelude.{
  ℕ, ◌≡◌, refl, ap, ◌∙◌, ◌↔◌, inl, inr, Option, none, some, List, arith, Option-cases, nat_eq,
  list_eq,
}
use aralez.Text.{Str}
use aralez.DashMap.{get, insert}
use aralez.Structs.{InnerMap, PathMap}
use aralez.Lb.{Lb}
use aralez.GetHosts.{root, pick_backend, try_path, search_paths, get_host}
use aralez.GetHosts.Paths.{Covers}
use aralez.GetHosts.Search.{Unserved, IsBest, search_paths-none_iff, search_paths-IsBest}

-- Where `get_host` answers, the host is configured, and the backend is what `pick_backend` takes
-- from the servers of the best path; the counter of that path is all that changes.
pub record Answer (lb : Lb) (peer path : Str) (backend_id : Option Str) (b : InnerMap) (lb' : Lb)
    : Type 0 where
  pub host_entry : PathMap
  pub host : get peer lb.ump_upst ≡ some host_entry
  pub at : Str
  pub best : IsBest host_entry at path
  pub servers : List InnerMap
  pub index : ℕ
  pub next : ℕ
  pub entry : get at host_entry ≡ some (servers, index)
  pub picked : pick_backend lb servers index backend_id ≡ some (b, next)
  pub after :
      lb' ≡ record lb { ump_upst = insert peer (insert at (servers, next) host_entry) lb.ump_upst }

try_path-some :
    (lb : Lb) (host_entry : PathMap) (backend_id : Option Str) (t : Str) (b : InnerMap)
    (host_entry' : PathMap)
    → try_path lb host_entry backend_id t ≡ some (b, host_entry')
    → (servers : List InnerMap) × (index : ℕ) × (next : ℕ) × (get t host_entry
        ≡ some (servers, index))
      × (pick_backend lb servers index backend_id ≡ some (b, next))
      × (host_entry' ≡ insert t (servers, next) host_entry)
unfolding try_path
try_path-some lb host_entry backend_id t b host_entry' h = elim (Option-cases (get t host_entry)) [
  | inl e ↦ absurd (ground arith)
  | inr ((servers, index), e) ↦ elim (Option-cases (pick_backend lb servers index backend_id)) [
    | inl p ↦ absurd (ground arith)
    | inr ((b', next), p) ↦
        let same : b' ≡ b = ground arith in
        (servers, index, next, e, p ∙ ap (λ x. some (x, next)) same, ground arith)
  ]
]

-- An answer of `get_host` comes from the longest configured path that covers the request path and
-- has a server, or from "/" where no such path has one, and moves the counter of that path alone.
pub get_host-Answer :
    (lb : Lb) (peer path : Str) (backend_id : Option Str) (b : InnerMap) (lb' : Lb)
    → get_host lb peer path backend_id ≡ some (b, lb')
    → Answer lb peer path backend_id b lb'
unfolding get_host
get_host-Answer lb peer path backend_id b lb' h = elim (Option-cases (get peer lb.ump_upst)) [
  | inl e ↦ absurd (ground arith)
  | inr (he, e) ↦ elim (Option-cases (search_paths lb he backend_id path)) [
    | inl missed ↦ absurd (ground arith)
    | inr ((b', he'), found) ↦
        let same : b' ≡ b = ground arith in
        let (t, best, tried_t) = search_paths-IsBest lb he backend_id path (b', he') found in
        let (servers, index, next, entry, picked, he'_eq) =
          try_path-some lb he backend_id t b' he' tried_t in
        record {
          host_entry = he;
          host = e;
          at = t;
          best = best;
          servers = servers;
          index = index;
          next = next;
          entry = entry;
          picked = picked ∙ ap (λ x. some (x, next)) same;
          after = ground arith;
        }
  ]
]

-- `get_host` finds no backend exactly when the host is not configured, or neither a path that
-- covers the request path nor "/" has a server.
pub get_host-none_iff :
    (lb : Lb) (peer path : Str) (backend_id : Option Str)
    → (get_host lb peer path backend_id ≡ none) ↔ (
        (host_entry : PathMap)
        → get peer lb.ump_upst ≡ some host_entry
        → ((t : Str) → Covers t path → Unserved host_entry t) × Unserved host_entry root)
unfolding get_host
get_host-none_iff lb peer path backend_id = (
  λ h host_entry e. (search_paths-none_iff lb host_entry backend_id path).0 (ground arith),
  λ h. elim (Option-cases (get peer lb.ump_upst)) [
    | inl e ↦ rw (e, get_host) refl
    | inr (he, e) ↦ rw (e, get_host, (search_paths-none_iff lb he backend_id path).1 (h he e)) refl
  ],
)
