-- ===== src/GetHosts/Pick.antt =====
-- The choice among the servers of one path.
use aralez.Prelude.{
  ℕ, ◌+◌, ◌%◌, ◌≡◌, refl, ◌≢◌, inl, inr, Option, none, some, List, [], ◌∷◌, ==_iff, arith, length,
  any, In, any_elim, get_elem?_of_lt, get_elem?-In, Option-cases, Bool-cases, ◌∙◌, ap, nat_eq,
  list_eq,
}
use aralez.Text.{Str}
use aralez.DashMap.{get}
use aralez.Structs.{InnerMap}
use aralez.Lb.{Lb}
use aralez.GetHosts.{usize_mod, same_endpoint, find_sticky_backend, pick_backend}

module _ (lb : Lb) where
  -- A path with a server always yields a backend: the index is in range.
  pub pick_backend-total :
      (servers : List InnerMap) (index : ℕ) (backend_id : Option Str)
      → servers ≢ []
      → (r : InnerMap × ℕ) × (pick_backend lb servers index backend_id ≡ some r)
  unfolding pick_backend
  pick_backend-total [] index backend_id ne = absurd (ne refl)
  pick_backend-total (s ∷ ss) index backend_id ne =
      elim (Option-cases (find_sticky_backend lb (s ∷ ss) backend_id)) [
        | inl e ↦
            let (a, at) = get_elem?_of_lt (s ∷ ss) (index % length (s ∷ ss)) (omega arith) in
            ((a, (index + 1) % usize_mod), rw (e, at) refl)
        | inr (t, e) ↦ ((t, index), rw e refl)
      ]

  pub pick_backend-nil :
      (index : ℕ) (backend_id : Option Str) → pick_backend lb [] index backend_id ≡ none
  unfolding pick_backend
  pick_backend-nil index backend_id = refl

  pub find_sticky_backend-In :
      (servers : List InnerMap) (backend_id : Option Str) (t : InnerMap)
      → find_sticky_backend lb servers backend_id ≡ some t
      → (s : InnerMap) × In s servers × (s.address ≡ t.address) × (s.port ≡ t.port)
  unfolding find_sticky_backend
  find_sticky_backend-In servers none t h = cc
  find_sticky_backend-In servers (some b) t h = elim (Option-cases (get b lb.ump_byid)) [
    | inl e ↦ absurd (ground arith)
    | inr (u, e) ↦ elim (Bool-cases (any (same_endpoint u) servers)) [
      | inl found ↦
          let (s, m, same) = any_elim (same_endpoint u) servers found in
          let same_target : u ≡ t = ground arith in
          (
            s,
            m,
            ground (arith, ==_iff s.address u.address),
            ground (arith, ==_iff s.address u.address),
          )
      | inr missed ↦ absurd (ground arith)
    ]
  ]

  -- Whatever the cookie, the chosen backend has the address and port of a server of the path.
  pub pick_backend-In :
      (servers : List InnerMap) (index : ℕ) (backend_id : Option Str) (b : InnerMap) (next : ℕ)
      → pick_backend lb servers index backend_id ≡ some (b, next)
      → (s : InnerMap) × In s servers × (s.address ≡ b.address) × (s.port ≡ b.port)
  unfolding pick_backend
  pick_backend-In [] index backend_id b next h = cc
  pick_backend-In (s ∷ ss) index backend_id b next h =
      elim (Option-cases (find_sticky_backend lb (s ∷ ss) backend_id)) [
        | inl e ↦
            let (a, at) = get_elem?_of_lt (s ∷ ss) (index % length (s ∷ ss)) (omega arith) in
            let same : a ≡ b = ground arith in
            (a, get_elem?-In (s ∷ ss) (index % length (s ∷ ss)) a at, ground arith, ground arith)
        | inr (t, e) ↦
            let same : t ≡ b = ground arith in
            find_sticky_backend-In (s ∷ ss) backend_id b (e ∙ ap some same)
      ]
