-- ===== src/GetHosts/Search.antt =====
-- The search of `get_host`: the path that it stops at is the longest that covers the request path
-- and has a server.
use aralez.Prelude.{
  ℕ, zero, suc, ◌<◌, ◌≡◌, refl, sym, ap, ◌∙◌, ◌↔◌, ◌⊎◌, inl, inr, Option, none, some, List, [], ◌∷◌,
  arith, length, length-take_of_lt, take, subst, Option-cases, nat_eq, list_eq,
}
use aralez.Text.{Str, rfind}
use aralez.Text.Laws.{rfind-lt-length}
use aralez.DashMap.{get}
use aralez.Structs.{InnerMap, PathMap}
use aralez.Lb.{Lb}
use aralez.GetHosts.{slash, root, try_path, host_loop, search_paths}
use aralez.GetHosts.Pick.{pick_backend-total, pick_backend-nil}
use aralez.GetHosts.Paths.{Covers, Covers-length, Covers-take, Covers-of_take, Covers-of_rfind-none}

-- No server stands under a path: it is not configured, or its list is empty.
abbrev pub Unserved : PathMap → Str → Type 0
Unserved host_entry t =
    (servers : List InnerMap) (index : ℕ) → get t host_entry ≡ some (servers, index) → servers ≡ []

-- The path that answers: the longest one that covers the request's and has a server, or "/" where
-- no path that covers it has one.
abbrev pub IsBest : PathMap → Str → Str → Type 0
IsBest host_entry t path =
    (Covers t path × ((t' : Str) → Covers t' path → length t < length t' → Unserved host_entry t'))
    ⊎ ((t ≡ root) × ((t' : Str) → Covers t' path → Unserved host_entry t'))

module _ (lb : Lb) (host_entry : PathMap) (backend_id : Option Str) where
  pub Unserved-of_try_path-none :
      (t : Str) → try_path lb host_entry backend_id t ≡ none → Unserved host_entry t
  unfolding try_path
  Unserved-of_try_path-none t h [] index e = refl
  Unserved-of_try_path-none t h (s ∷ ss) index e =
      let (r, picked) = pick_backend-total lb (s ∷ ss) index backend_id (λ same. cc) in
      absurd (ground arith)

  pub try_path-none_of_Unserved :
      (t : Str) → Unserved host_entry t → try_path lb host_entry backend_id t ≡ none
  unfolding try_path
  try_path-none_of_Unserved t h = elim (Option-cases (get t host_entry)) [
    | inl e ↦ rw (e, try_path) refl
    | inr ((servers, index), e) ↦
        let empty = h servers index e in ground (arith, pick_backend-nil lb index backend_id)
  ]

  abbrev tried : Str → Option (InnerMap × PathMap)
  tried t = try_path lb host_entry backend_id t

  abbrev looped : ℕ → Str → Option (InnerMap × PathMap)
  looped fuel slice = host_loop fuel lb host_entry backend_id slice

  host_loop_up :
      (fuel : ℕ) (slice : Str) {pos : ℕ}
      → tried slice ≡ none
      → rfind slash slice ≡ some pos
      → looped (suc fuel) slice ≡ looped fuel (take pos slice)
  unfolding host_loop
  host_loop_up fuel slice missed e = rw (missed, e, host_loop) refl

  -- With fuel for each byte the loop tries every path that covers the slice.
  pub host_loop_none :
      (fuel : ℕ) (slice : Str)
      → length slice < fuel
      → looped fuel slice ≡ none
      → (t : Str) → Covers t slice
      → tried t ≡ none
  unfolding host_loop
  host_loop_none zero slice enough h t c = absurd (omega arith)
  host_loop_none (suc fuel) slice enough h t c = elim (Option-cases (tried slice)) [
    | inr (r, e) ↦ absurd (ground arith)
    | inl missed ↦ elim (Option-cases (rfind slash slice)) [
      | inl e ↦ subst (λ s. tried s ≡ none) (Covers-of_rfind-none t slice e c) missed
      | inr (pos, e) ↦ elim (Covers-take t slice e c) [
        | inl same ↦ subst (λ s. tried s ≡ none) same missed
        | inr shorter ↦
            let below = rfind-lt-length slash slice e in
            let len = length-take_of_lt pos slice below in
            host_loop_none fuel (take pos slice) (omega arith)
              (sym (host_loop_up fuel slice missed e) ∙ h) t shorter
      ]
    ]
  ]

  -- What the loop finds stands at a path that covers the slice, and no longer one has a server.
  pub host_loop_some :
      (fuel : ℕ) (slice : Str) (r : InnerMap × PathMap)
      → looped fuel slice ≡ some r
      → (t : Str) × Covers t slice
        × (tried t ≡ some r)
        × ((t' : Str) → Covers t' slice → length t < length t' → tried t' ≡ none)
  unfolding host_loop
  host_loop_some zero slice r h = cc
  host_loop_some (suc fuel) slice r h = elim (Option-cases (tried slice)) [
    | inr (r', e) ↦ (
      slice,
      inl refl,
      ground arith,
      λ t' c longer. absurd (omega (arith, Covers-length t' slice c)),
    )
    | inl missed ↦ elim (Option-cases (rfind slash slice)) [
      | inl e ↦ absurd (ground arith)
      | inr (pos, e) ↦
          let (t, c, found, best) =
            host_loop_some fuel (take pos slice) r (sym (host_loop_up fuel slice missed e) ∙ h) in
          (
            t,
            Covers-of_take t slice e c,
            found,
            λ t' c' longer. elim (Covers-take t' slice e c') [
              | inl same ↦ subst (λ s. tried s ≡ none) same missed
              | inr shorter ↦ best t' shorter longer
            ],
          )
    ]
  ]

module _ (lb : Lb) (host_entry : PathMap) (backend_id : Option Str) where
  search_paths-none :
      (path : Str)
      → search_paths lb host_entry backend_id path ≡ none
      → (looped lb host_entry backend_id (suc (length path)) path ≡ none)
        × (tried lb host_entry backend_id root ≡ none)
  unfolding search_paths
  search_paths-none path h = ground arith

  -- The search fails exactly when neither a path that covers the request's nor "/" has a server.
  pub search_paths-none_iff :
      (path : Str)
      → (search_paths lb host_entry backend_id path ≡ none)
        ↔ (((t : Str) → Covers t path → Unserved host_entry t) × Unserved host_entry root)
  unfolding search_paths
  search_paths-none_iff path = (
    λ h.
        let (missed, last) = search_paths-none path h in
        (
          λ t c. Unserved-of_try_path-none lb host_entry backend_id t (
              host_loop_none lb host_entry backend_id (suc (length path)) path (omega arith) missed
                t c),
          Unserved-of_try_path-none lb host_entry backend_id root last,
        ),
    λ h. elim (Option-cases (looped lb host_entry backend_id (suc (length path)) path)) [
      | inl missed ↦
          rw (missed, search_paths) (try_path-none_of_Unserved lb host_entry backend_id root h.1)
      | inr (r, e) ↦
          let (t, c, found, _) =
            host_loop_some lb host_entry backend_id (suc (length path)) path r e in
          let missed = try_path-none_of_Unserved lb host_entry backend_id t (h.0 t c) in
          absurd (ground arith)
    ],
  )

  pub search_paths-IsBest :
      (path : Str) (r : InnerMap × PathMap)
      → search_paths lb host_entry backend_id path ≡ some r
      → (t : Str) × IsBest host_entry t path × (tried lb host_entry backend_id t ≡ some r)
  unfolding search_paths
  search_paths-IsBest path r h =
      elim (Option-cases (looped lb host_entry backend_id (suc (length path)) path)) [
        | inl missed ↦ (
          root,
          inr (
            refl,
            λ t c. Unserved-of_try_path-none lb host_entry backend_id t (
                host_loop_none lb host_entry backend_id (suc (length path)) path (omega arith)
                  missed t c),
          ),
          ground arith,
        )
        | inr (r', e) ↦
            let same : r' ≡ r = ground arith in
            let (t, c, found, best) =
              host_loop_some lb host_entry backend_id (suc (length path)) path r
                (e ∙ ap some same) in
            (
              t,
              inl (
                c,
                λ t' c' longer.
                    Unserved-of_try_path-none lb host_entry backend_id t' (best t' c' longer),
              ),
              found,
            )
      ]
