-- ===== src/Service/Probed.antt =====
-- What the health check finds is backed by what is configured.
use aralez.Prelude.{◌≡◌, refl, sym, ap, ◌∙◌, Option, none, some, List, In, nat_eq, list_eq}
use mathlib.Core.Option
use aralez.Text.{Str}
use aralez.Structs.{InnerMap, Servers, UpstreamsDashMap}
use aralez.Tools.Clone.{IsUpstreams, reset}
use aralez.Tools.Paths.{get_path, get_path-reset, reset-IsUpstreams}
use aralez.HealthCheck.{Net, probe_servers, build_upstreams}
use aralez.HealthCheck.Kept.{
  In-probe_servers, build_upstreams-get_path, build_upstreams-IsUpstreams,
}
use aralez.GetHosts.Frame.{servers_at, servers_at-get_path}

-- A server of the list has the address and the port of the backend.
abbrev pub HasEndpoint : InnerMap → List InnerMap → Type 0
HasEndpoint b servers = (s : InnerMap) × In s servers × (s.address ≡ b.address) × (s.port ≡ b.port)

-- What the maps hold for a path that is configured with these servers, or is not configured.
abbrev pub Backs : Option (List InnerMap) → Option (List InnerMap) → Type 0
Backs none current = current ≡ none
Backs (some servers) current =
    (alive : List InnerMap) × (current ≡ some alive)
    × ((b : InnerMap) → In b alive → HasEndpoint b servers)

pub Backs-refl : (o : Option (List InnerMap)) → Backs o o
Backs-refl none = refl
Backs-refl (some servers) = (servers, refl, λ b i. (b, i, refl, refl))

Backs-probe :
    (net : Net) (method path : Str) (o : Option (List InnerMap))
    → Backs o (Option.map (probe_servers net method path) o)
Backs-probe net method path none = refl
Backs-probe net method path (some servers) = (
  probe_servers net method path servers,
  refl,
  λ b i.
      let (s, i', answers, same) = (In-probe_servers net method path servers b).0 i in
      (
        s,
        i',
        ap (λ (x : InnerMap). x.address) (sym same),
        ap (λ (x : InnerMap). x.port) (sym same),
      ),
)

-- Each host and path of the current upstreams has servers of the configured ones.
abbrev pub IsBacked : UpstreamsDashMap → UpstreamsDashMap → Type 0
IsBacked c upst = (host path : Str) → Backs (servers_at c host path) (servers_at upst host path)

map-snd :
    (f : List InnerMap → List InnerMap) (o : Option Servers)
    → Option.map {A = Servers} (λ s. s.0) (Option.map {B = Servers} (λ s. (f s.0, 0)) o)
      ≡ Option.map f (Option.map {A = Servers} (λ s. s.0) o)
map-snd f none = refl
map-snd f (some s) = refl

map-id : (o : Option (List InnerMap)) → Option.map (λ l. l) o ≡ o
map-id none = refl
map-id (some l) = refl

-- Mapping the servers of every path, seen at one.
servers_at-mapped :
    (f : Str → List InnerMap → List InnerMap) (m n : UpstreamsDashMap) (host path : Str)
    → get_path host path n ≡ Option.map {B = Servers} (λ s. (f path s.0, 0)) (get_path host path m)
    → servers_at n host path ≡ Option.map (f path) (servers_at m host path)
servers_at-mapped f m n host path e =
    servers_at-get_path n host path
    ∙ (ap (Option.map {A = Servers} (λ s. s.0)) e
        ∙ (map-snd (f path) (get_path host path m)
            ∙ ap (Option.map (f path)) (sym (servers_at-get_path m host path))))

pub servers_at-reset :
    (m : UpstreamsDashMap) (host path : Str)
    → IsUpstreams m
    → servers_at (reset m) host path ≡ servers_at m host path
servers_at-reset m host path h =
    servers_at-mapped (λ _ l. l) m (reset m) host path (get_path-reset m host path h)
    ∙ map-id (servers_at m host path)

-- What one round of the health check finds is backed by what it probes.
pub round-IsBacked :
    (net : Net) (method : Str) (c : UpstreamsDashMap)
    → IsUpstreams c
    → IsBacked c (reset (build_upstreams net (reset c) method))
round-IsBacked net method c h host path =
    let full = reset c in
    let is_full = reset-IsUpstreams c h in
    let totest = build_upstreams net full method in
    let found =
      servers_at-mapped (probe_servers net method) full totest host path
        ((build_upstreams-get_path net full method is_full).0 host path) in
    rw
      (
        servers_at-reset totest host path (build_upstreams-IsUpstreams net full method is_full),
        found,
        servers_at-reset c host path h,
      )
      (Backs-probe net method path (servers_at c host path))
