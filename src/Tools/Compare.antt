-- ===== src/Tools/Compare.antt =====
-- What `compare_dashmaps` decides.
use aralez.Prelude.{
  ℕ, ◌≡◌, refl, ◌↔◌, inl, inr, true, ◌&&◌, List, [], ◌∷◌, ◌==◌, arith, length, In, nat_eq, list_eq,
  Option-cases,
}
use aralez.Text.{Str}
use aralez.DashMap.{get}
use aralez.DashMap.Laws.{IsMap}
use aralez.Structs.{InnerMap, Servers, PathMap, UpstreamsDashMap}
use aralez.Structs.Equality.{inner_map_eq}
use aralez.Tools.{same_servers, compare_paths, compare_hosts, compare_dashmaps}
use aralez.Tools.Clone.{IsUpstreams, IsMap-of_IsUpstreams}
use aralez.Tools.Paths.{get-IsMap}
use aralez.Tools.Members.{set_eq-to_set_iff}
use aralez.Tools.Agree.{Agree, Entries, Agree-iff}

-- Both hold as many servers, and the same ones.
abbrev pub SameServers : Servers → Servers → Type 0
SameServers s t = (length s.0 ≡ length t.0) × ((x : InnerMap) → In x s.0 ↔ In x t.0)

abbrev pub SamePaths : PathMap → PathMap → Type 0
SamePaths m n = (path : Str) → Agree SameServers (get path m) (get path n)

-- The same hosts and paths, and under each path the same servers; counters and order are not
-- compared.
abbrev pub SameUpstreams : UpstreamsDashMap → UpstreamsDashMap → Type 0
SameUpstreams m n = (host : Str) → Agree SamePaths (get host m) (get host n)

same_servers_iff :
    (v w : List InnerMap) (i j : ℕ) → (same_servers v w ≡ true) ↔ SameServers (v, i) (w, j)
unfolding same_servers
same_servers_iff v w i j = (
  λ h. (ground arith, (set_eq-to_set_iff v w).0 (ground arith)),
  λ same. let sets = (set_eq-to_set_iff v w).1 same.1 in ground arith,
)

compare_paths_iff : (m n : PathMap) → (compare_paths m n ≡ true) ↔ Entries SameServers m n
unfolding compare_paths
compare_paths_iff [] n = (λ h. tt, λ h. refl)
compare_paths_iff ((path, (vec, i)) ∷ m) n = elim (Option-cases (get path n)) [
  | inl e ↦ rw (e, compare_paths) (λ h. cc, λ h. absurd h.0)
  | inr ((vec', j), e) ↦
      rw (e, compare_paths)
        (
          λ h. (
            (same_servers_iff vec vec' i j).0 (ground arith),
            (compare_paths_iff m n).0 (ground arith),
          ),
          λ h.
              let here = (same_servers_iff vec vec' i j).1 h.0 in
              let later = (compare_paths_iff m n).1 h.1 in rw (here, later) refl,
        )
]

-- The test of one host.
SamePaths-iff :
    (p q : PathMap)
    → IsMap p
    → IsMap q
    → ((length p == length q && compare_paths p q) ≡ true) ↔ SamePaths p q
SamePaths-iff p q h k = (
  λ t. (Agree-iff SameServers p q h k).0 (ground arith, (compare_paths_iff p q).0 (ground arith)),
  λ same.
      let (sizes, entries) = (Agree-iff SameServers p q h k).1 same in
      let tested = (compare_paths_iff p q).1 entries in ground arith,
)

compare_hosts_iff :
    (m n : UpstreamsDashMap)
    → IsUpstreams m
    → IsUpstreams n
    → (compare_hosts m n ≡ true) ↔ Entries SamePaths m n
unfolding compare_hosts
compare_hosts_iff [] n h k = (λ h. tt, λ h. refl)
compare_hosts_iff ((host, ps) ∷ m) n (fresh, is_map, h) k = elim (Option-cases (get host n)) [
  | inl e ↦ rw (e, compare_hosts) (λ h. cc, λ h. absurd h.0)
  | inr (qs, e) ↦
      let is_map' = get-IsMap n host k e in
      rw (e, compare_hosts)
        (
          λ t. (
            (SamePaths-iff ps qs is_map is_map').0 (ground arith),
            (compare_hosts_iff m n h k).0 (ground arith),
          ),
          λ t.
              let here = (SamePaths-iff ps qs is_map is_map').1 t.0 in
              let later = (compare_hosts_iff m n h k).1 t.1 in rw (here, later) refl,
        )
]

-- For two maps in which no host stands twice and no path twice under a host, `compare_dashmaps` is
-- true exactly when both have the same hosts, each with the same paths, each with as many servers
-- and the same set of servers.
pub compare_dashmaps_iff :
    (m n : UpstreamsDashMap)
    → IsUpstreams m
    → IsUpstreams n
    → (compare_dashmaps m n ≡ true) ↔ SameUpstreams m n
unfolding compare_dashmaps
compare_dashmaps_iff m n h k =
    let agree = Agree-iff SamePaths m n (IsMap-of_IsUpstreams m h) (IsMap-of_IsUpstreams n k) in
    (
      λ t. agree.0 (ground arith, (compare_hosts_iff m n h k).0 (ground arith)),
      λ same.
          let (sizes, entries) = agree.1 same in
          let tested = (compare_hosts_iff m n h k).1 entries in ground arith,
    )
