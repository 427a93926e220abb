-- ===== src/ProxyHttp/Host.antt =====
-- The host that a request is served under: `return_header_host_from_upstream` of
-- src/web/proxyhttp.rs.
use aralez.Prelude.{
  ◌≡◌, sym, ap, ◌↔◌, ◌⊎◌, inl, inr, none, some, arith, Option-cases, nat_eq, list_eq,
}
use aralez.Text.{Str}
use aralez.DashMap.{get}
use aralez.Structs.{PathMap, UpstreamsDashMap}
use aralez.Session.{Session}
use aralez.ProxyHttp.{host_str, default_host, return_header_host_from_upstream}

abbrev pub IsServed : UpstreamsDashMap → Str → Type 0
IsServed m h = (paths : PathMap) × (get h m ≡ some paths)

-- The name that the request asks for stands for the host `h`: it is `h` and served, or it is not
-- served and `h` is the default host, which is.
abbrev pub StandsFor : UpstreamsDashMap → Str → Str → Type 0
StandsFor m name h =
    (IsServed m name × (h ≡ name))
    ⊎ ((get name m ≡ none) × IsServed m default_host × (h ≡ default_host))

-- A request is served under the host `h` exactly if it has a name that stands for `h`: the name
-- itself where it is configured, and else "DEFAULT" where that is.
pub return_header_host-StandsFor :
    (session : Session) (m : UpstreamsDashMap) (h : Str)
    → (return_header_host_from_upstream session m ≡ some h)
      ↔ ((name : Str) × (host_str session ≡ some name) × StandsFor m name h)
unfolding return_header_host_from_upstream
return_header_host-StandsFor session m h = (
  λ r. elim (Option-cases (host_str session)) [
    | inl e ↦ absurd (ground arith)
    | inr (name, e) ↦ elim (Option-cases (get name m)) [
      | inr (paths, f) ↦ let same : h ≡ name = ground arith in (name, e, inl ((paths, f), same))
      | inl f ↦ elim (Option-cases (get default_host m)) [
        | inl g ↦ absurd (ground arith)
        | inr (paths, g) ↦
            let same : h ≡ default_host = ground arith in (name, e, inr (f, (paths, g), same))
      ]
    ]
  ],
  λ (name, e, s). elim s [
    | inl ((paths, f), same) ↦ rw (e, f, return_header_host_from_upstream) (ap some (sym same))
    | inr (f, (paths, g), same) ↦
        rw (e, f, g, return_header_host_from_upstream) (ap some (sym same))
  ],
)
