-- ===== src/Tools/Paths.antt =====
-- Lookups by host and path, and maps that stay well-formed.
use aralez.Prelude.{
  ◌≡◌, refl, Option, none, some, [], ◌∷◌, ◌==◌, arith, inl, inr, Option-cases, Bool-cases, subst,
  nat_eq, list_eq, ==_iff,
}
use mathlib.Core.Option
use aralez.Text.{Str}
use aralez.DashMap.{DashMap, get, insert}
use aralez.DashMap.Laws.{IsMap, get-insert}
use aralez.DashMap.Rebuild.{map_values, get-map_values}
use aralez.Structs.{Servers, PathMap, UpstreamsDashMap}
use aralez.Tools.Clone.{IsUpstreams, reset, reset_paths}

-- A lookup in a map of maps.
abbrev pub get_path : {V : Type 0} → Str → Str → DashMap Str (DashMap Str V) → Option V
get_path host path m = elim (get host m) [ none ↦ none | some paths ↦ get path paths ]

pub get-IsMap :
    (m : UpstreamsDashMap) (host : Str) {paths : PathMap}
    → IsUpstreams m
    → get host m ≡ some paths
    → IsMap paths
unfolding get
get-IsMap [] host h e = cc
get-IsMap ((j, ps) ∷ m) host (_, is_map, h) e = elim (Bool-cases (j == host)) [
  | inl same ↦ let here : ps ≡ _ = ground arith in subst (λ x. IsMap x) here is_map
  | inr other ↦ get-IsMap m host h (ground arith)
]

-- A map of maps that is rebuilt by two loops, seen at a host and a path.
module _ {W : Type 0} (f : Str → Str → Servers → W) (inner : Str → PathMap → DashMap Str W)
    (inner_lem : (host : Str) (m : PathMap) → IsMap m → inner host m ≡ map_values (f host) m) where
  pub get_path-rebuilt :
      (m : UpstreamsDashMap) (host path : Str)
      → IsUpstreams m
      → get_path host path (map_values inner m) ≡ Option.map (f host path) (get_path host path m)
  get_path-rebuilt m host path h = elim (Option-cases (get host m)) [
    | inl e ↦ ground (arith, get-map_values inner host m)
    | inr (paths, e) ↦ ground (
      arith,
      get-map_values inner host m,
      inner_lem host paths (get-IsMap m host h e),
      get-map_values (f host) path paths,
    )
  ]

pub map_values-IsMap :
    {V W : Type 0} (f : Str → V → W) (m : DashMap Str V) → IsMap m → IsMap (map_values f m)
map_values-IsMap f [] h = tt
map_values-IsMap f ((k, v) ∷ m) (fresh, h) =
    (rw (get-map_values f k m, fresh) refl, map_values-IsMap f m h)

-- A host's paths stay distinct where each host's paths are mapped to distinct ones.
pub map_values-IsUpstreams :
    (f : Str → PathMap → PathMap) (m : UpstreamsDashMap)
    → ((host : Str) (paths : PathMap) → IsMap paths → IsMap (f host paths))
    → IsUpstreams m
    → IsUpstreams (map_values f m)
map_values-IsUpstreams f [] keep h = tt
map_values-IsUpstreams f ((host, paths) ∷ m) keep (fresh, is_map, h) = (
  rw (get-map_values f host m, fresh) refl,
  keep host paths is_map,
  map_values-IsUpstreams f m keep h,
)

pub insert-IsUpstreams :
    (host : Str) (paths : PathMap) (m : UpstreamsDashMap)
    → IsMap paths
    → IsUpstreams m
    → IsUpstreams (insert host paths m)
unfolding get insert
insert-IsUpstreams host paths [] p h = (refl, p, tt)
insert-IsUpstreams host paths ((j, w) ∷ m) p (fresh, q, h) = elim (Bool-cases (j == host)) [
  | inl same ↦ rw same (fresh, p, h)
  | inr other ↦ rw other (
    ground (arith, get-insert host j paths m, ==_iff host j, ==_iff j host),
    q,
    insert-IsUpstreams host paths m p h,
  )
]

pub reset-IsUpstreams : (m : UpstreamsDashMap) → IsUpstreams m → IsUpstreams (reset m)
reset-IsUpstreams m h =
    map_values-IsUpstreams (λ _ paths. reset_paths paths) m
      (λ host paths k. map_values-IsMap (λ _ s. (s.0, 0)) paths k) h

pub get_path-reset :
    (m : UpstreamsDashMap) (host path : Str)
    → IsUpstreams m
    → get_path host path (reset m) ≡ Option.map (λ s. (s.0, 0)) (get_path host path m)
get_path-reset m host path h =
    get_path-rebuilt (λ _ _ s. (s.0, 0)) (λ _ paths. reset_paths paths) (λ _ l k. refl) m host path
      h
