-- ===== src/GetHosts/HeaderPaths.antt =====
-- Which entry of a host's headers a request path gets.
use aralez.Prelude.{
  ℕ, zero, suc, ◌<◌, ◌≡◌, refl, sym, ap, ◌∙◌, ◌≢◌, inl, inr, Option, none, some, [], ◌∷◌, arith,
  length, length-append, subst, Option-cases, Bool-cases, nat_eq, list_eq, ◌==◌, ==_iff, ==_refl,
  ==_false_of_ne, ne_of_==_false, In,
}
use aralez.Text.{Str, rfind}
use aralez.Text.Laws.{rfind-none}
use aralez.DashMap.{get}
use aralez.Structs.{PathHeaders, HeaderList}
use aralez.Lb.{Lb}
use aralez.GetHosts.{
  slash, root, headers_at, shorten, client_loop, server_loop, header_fuel, match_headers,
  return_headers, get_header, GetHostsReturHeaders,
}
use aralez.GetHosts.Shorten.{
  IsRooted, HeaderCovers, server_loop-eq-client_loop, shorten-IsRooted, length-shorten,
  HeaderCovers-shorten, HeaderCovers-of_shorten, HeaderCovers-length,
}

module _ (entry : PathHeaders) where
  client_loop_up :
      (fuel : ℕ) (path : Str) (pos : ℕ)
      → headers_at entry path ≡ none
      → path ≢ root
      → rfind slash path ≡ some pos
      → client_loop (suc fuel) entry path ≡ client_loop fuel entry (shorten pos path)
  unfolding client_loop
  client_loop_up fuel path pos missed ne e =
      rw (missed, ==_false_of_ne path root ne, e, client_loop) refl

  client_loop-root :
      (fuel : ℕ) → headers_at entry root ≡ none → client_loop (suc fuel) entry root ≡ none
  unfolding client_loop
  client_loop-root fuel missed = rw (missed, ==_refl root, client_loop) refl

  rooted_rfind : (path : Str) → IsRooted path → (pos : ℕ) × (rfind slash path ≡ some pos)
  rooted_rfind path (rest, r) = elim (Option-cases (rfind slash path)) [
    | inl e ↦ absurd (rfind-none slash path e (subst (In slash) (sym r) (inl refl)))
    | inr found ↦ found
  ]

  HeaderCovers-root : (t : Str) → HeaderCovers t root → root ≡ t
  HeaderCovers-root t (inl e) = sym e
  HeaderCovers-root t (inr (ne, inl e)) = e
  HeaderCovers-root [] (inr (ne, inr c)) = absurd (ne refl)
  HeaderCovers-root (x ∷ xs) (inr (ne, inr (rest, e))) =
      absurd (omega (arith, ap length e, length-append xs (slash ∷ rest)))

  pub client_loop-none :
      (fuel : ℕ) (path : Str)
      → length path < fuel
      → IsRooted path
      → client_loop fuel entry path ≡ none
      → (t : Str) → HeaderCovers t path
      → headers_at entry t ≡ none
  unfolding client_loop
  client_loop-none zero path enough r h t c = absurd (omega arith)
  client_loop-none (suc fuel) path enough r h t c = elim (Option-cases (headers_at entry path)) [
    | inr (v, e) ↦ absurd (ground arith)
    | inl missed ↦ elim (Bool-cases (path == root)) [
      | inl last ↦
          let same = (==_iff path root).0 last in
          subst (λ s. headers_at entry s ≡ none)
            (same ∙ HeaderCovers-root t (subst (HeaderCovers t) same c)) missed
      | inr more ↦
          let (pos, e) = rooted_rfind path r in
          let ne = ne_of_==_false path root more in
          let shorter = length-shorten path pos e r ne in
          elim (HeaderCovers-shorten path pos e t c) [
            | inl same ↦ subst (λ s. headers_at entry s ≡ none) same missed
            | inr below ↦
                client_loop-none fuel (shorten pos path) (omega arith)
                  (shorten-IsRooted path pos e r)
                  (sym (client_loop_up fuel path pos missed ne e) ∙ h) t below
          ]
    ]
  ]

  pub client_loop-some :
      (fuel : ℕ) (path : Str) (v : HeaderList)
      → IsRooted path
      → client_loop fuel entry path ≡ some v
      → (t : Str) × HeaderCovers t path
        × (headers_at entry t ≡ some v)
        × ((t' : Str) → HeaderCovers t' path → length t < length t' → headers_at entry t' ≡ none)
  unfolding client_loop
  client_loop-some zero path v r h = cc
  client_loop-some (suc fuel) path v (rest, r) h = elim (Option-cases (headers_at entry path)) [
    | inr (v', e) ↦ (
      path,
      inr (λ empty. cc, inl refl),
      ground arith,
      λ t' c longer. absurd (omega (arith, HeaderCovers-length t' path (rest, r) c)),
    )
    | inl missed ↦ elim (Bool-cases (path == root)) [
      | inl last ↦ absurd (ground arith)
      | inr more ↦
          let (pos, e) = rooted_rfind path (rest, r) in
          let ne = ne_of_==_false path root more in
          let (t, c, found, best) =
            client_loop-some fuel (shorten pos path) v (shorten-IsRooted path pos e (rest, r))
              (sym (client_loop_up fuel path pos missed ne e) ∙ h) in
          (
            t,
            HeaderCovers-of_shorten path pos e t c,
            found,
            λ t' c' longer. elim (HeaderCovers-shorten path pos e t' c') [
              | inl same ↦ subst (λ s. headers_at entry s ≡ none) same missed
              | inr below ↦ best t' below longer
            ],
          )
    ]
  ]

-- The headers of a path: those of the longest entry that covers it and is not empty.
abbrev pub IsNearest : PathHeaders → Str → Option HeaderList → Type 0
IsNearest entry path none = (t : Str) → HeaderCovers t path → headers_at entry t ≡ none
IsNearest entry path (some v) =
    (t : Str) × HeaderCovers t path
    × (headers_at entry t ≡ some v)
    × ((t' : Str) → HeaderCovers t' path → length t < length t' → headers_at entry t' ≡ none)

client_loop-IsNearest :
    (entry : PathHeaders) (path : Str) (v : Option HeaderList)
    → IsRooted path
    → client_loop (header_fuel path) entry path ≡ v
    → IsNearest entry path v
client_loop-IsNearest entry path none r h =
    client_loop-none entry (header_fuel path) path (omega arith) r h
client_loop-IsNearest entry path (some v) r h = client_loop-some entry (header_fuel path) path v r h

-- Nothing is looked up for a host that is not there.
abbrev pub IsNearestIn : Option PathHeaders → Str → Option HeaderList → Type 0
IsNearestIn none path v = v ≡ none
IsNearestIn (some entry) path v = IsNearest entry path v

abbrev pub client_headers_of : Option GetHostsReturHeaders → Option HeaderList
client_headers_of none = none
client_headers_of (some h) = h.client_headers

abbrev pub server_headers_of : Option GetHostsReturHeaders → Option HeaderList
server_headers_of none = none
server_headers_of (some h) = h.server_headers

match_headers-IsNearestIn :
    (loop : ℕ → PathHeaders → Str → Option HeaderList) (entry : Option PathHeaders) (path : Str)
    → ((m : PathHeaders) → loop (header_fuel path) m path ≡ client_loop (header_fuel path) m path)
    → IsRooted path
    → IsNearestIn entry path (match_headers loop entry path)
unfolding match_headers
match_headers-IsNearestIn loop none path same r = refl
match_headers-IsNearestIn loop (some m) path same r =
    client_loop-IsNearest m path (loop (header_fuel path) m path) r (sym (same m))

return_headers_parts :
    (c s : Option HeaderList)
    → (client_headers_of (return_headers c s) ≡ c) × (server_headers_of (return_headers c s) ≡ s)
unfolding return_headers
return_headers_parts none none = (refl, refl)
return_headers_parts (some c) s = (refl, refl)
return_headers_parts none (some s) = (refl, refl)

-- For a path that begins with a slash `get_header` returns, of the client headers of the host and
-- likewise of its server headers, those of the longest path that covers the request path ("/"
-- covers every path) and whose list is not empty; it returns nothing of a kind for which the host
-- has no entry or no such path.
pub get_header-IsNearest :
    (lb : Lb) (peer path : Str)
    → IsRooted path
    → IsNearestIn (get peer lb.client_headers) path (client_headers_of (get_header lb peer path))
      × IsNearestIn (get peer lb.server_headers) path (server_headers_of (get_header lb peer path))
unfolding get_header
get_header-IsNearest lb peer path r =
    let c = match_headers client_loop (get peer lb.client_headers) path in
    let s = match_headers server_loop (get peer lb.server_headers) path in
    let (is_c, is_s) = return_headers_parts c s in
    (
      subst (IsNearestIn (get peer lb.client_headers) path) (sym is_c)
          (match_headers-IsNearestIn client_loop (get peer lb.client_headers) path (λ m. refl) r),
      subst (IsNearestIn (get peer lb.server_headers) path) (sym is_s) (
          match_headers-IsNearestIn server_loop (get peer lb.server_headers) path
            (λ m. server_loop-eq-client_loop (header_fuel path) m path) r),
    )
