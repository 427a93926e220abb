-- ===== src/GetHosts/Shorten.antt =====
-- The paths that `get_header` tries: each shortens the one before it.
use aralez.Prelude.{
  ℕ, zero, suc, ◌<◌, ◌≤◌, ◌≡◌, refl, sym, ap, ◌≢◌, ◌⊎◌, inl, inr, some, [], ◌∷◌, ◌++◌, arith,
  length, length-append, length-take_of_lt, take, subst, Option-cases, Bool-cases, nat_eq, list_eq,
  ◌==◌, ==_iff,
}
use aralez.Text.{Str, rfind}
use aralez.Text.Laws.{rfind-lt-length}
use aralez.Structs.{PathHeaders}
use aralez.GetHosts.{slash, root, headers_at, shorten, client_loop, server_loop}
use aralez.GetHosts.Paths.{Covers, Covers-length, Covers-take, Covers-of_take}

-- A request path begins with a slash.
abbrev pub IsRooted : Str → Type 0
IsRooted path = (rest : Str) × (path ≡ slash ∷ rest)

-- "/" covers every path, and so does a part that ends before a slash and is not empty.
abbrev pub HeaderCovers : Str → Str → Type 0
HeaderCovers t path = (t ≡ root) ⊎ ((t ≢ []) × Covers t path)

-- The second question at "/" never changes the answer: both loops are one function.
pub server_loop-eq-client_loop :
    (fuel : ℕ) (entry : PathHeaders) (path : Str)
    → server_loop fuel entry path ≡ client_loop fuel entry path
unfolding server_loop client_loop
server_loop-eq-client_loop zero entry path = refl
server_loop-eq-client_loop (suc fuel) entry path = elim (Option-cases (rfind slash path)) [
  | inl e ↦ ground (arith, ==_iff path root)
  | inr (pos, e) ↦ ground (
    arith,
    ==_iff path root,
    server_loop-eq-client_loop fuel entry (shorten pos path),
    ap (headers_at entry),
  )
]

take-IsRooted : (pos : ℕ) (path : Str) → pos ≢ 0 → IsRooted path → IsRooted (take pos path)
take-IsRooted zero path ne r = absurd (ne refl)
take-IsRooted (suc n) path ne (rest, e) = (take n rest, rw e refl)

module _ (path : Str) (pos : ℕ) (at : rfind slash path ≡ some pos) where
  pub shorten-IsRooted : IsRooted path → IsRooted (shorten pos path)
  shorten-IsRooted r = elim (Bool-cases (pos == 0)) [
    | inl e ↦ rw e ([], refl)
    | inr e ↦ rw e (take-IsRooted pos path (ground arith) r)
  ]

  -- A rooted path other than "/" gets shorter.
  pub length-shorten : IsRooted path → path ≢ root → length (shorten pos path) < length path
  length-shorten (rest, r) ne = elim (Bool-cases (pos == 0)) [
    | inl e ↦ rw e (longer rest r)
    | inr e ↦
        let below = rfind-lt-length slash path at in rw (e, length-take_of_lt pos path below) below
  ]
    where
      longer : (rest : Str) → path ≡ slash ∷ rest → 1 < length path
      longer [] r' = absurd (ne r')
      longer (x ∷ xs) r' = omega (arith, ap length r')

  pub HeaderCovers-shorten :
      (t : Str) → HeaderCovers t path → (path ≡ t) ⊎ HeaderCovers t (shorten pos path)
  HeaderCovers-shorten t (inl e) = inr (inl e)
  HeaderCovers-shorten t (inr (ne, c)) = elim (Covers-take t path at c) [
    | inl same ↦ inl same
    | inr (inl e) ↦ elim (Bool-cases (pos == 0)) [
      | inl z ↦
          let none_left : pos ≡ 0 = ground arith in
          absurd (ne (sym (subst (λ n. take n path ≡ t) none_left e)))
      | inr z ↦ rw z (inr (inr (ne, inl e)))
    ]
    | inr (inr (rest, e)) ↦ elim (Bool-cases (pos == 0)) [
      | inl z ↦
          let none_left : pos ≡ 0 = ground arith in
          let bad : [] ≡ t ++ slash ∷ rest =
            subst (λ n. take n path ≡ t ++ slash ∷ rest) none_left e in
          absurd (omega (arith, ap length bad, length-append t (slash ∷ rest)))
      | inr z ↦ rw z (inr (inr (ne, inr (rest, e))))
    ]
  ]

  pub HeaderCovers-of_shorten : (t : Str) → HeaderCovers t (shorten pos path) → HeaderCovers t path
  HeaderCovers-of_shorten t (inl e) = inl e
  HeaderCovers-of_shorten t (inr (ne, c)) = elim (Bool-cases (pos == 0)) [
    | inl z ↦ inl (only_root t ne (subst (Covers t) (rw z refl) c))
    | inr z ↦ inr (ne, Covers-of_take t path at (subst (Covers t) (rw z refl) c))
  ]
    where
      only_root : (t : Str) → t ≢ [] → Covers t root → t ≡ root
      only_root t ne' (inl e) = sym e
      only_root [] ne' (inr c) = absurd (ne' refl)
      only_root (x ∷ xs) ne' (inr (rest, e)) =
          absurd (omega (arith, ap length e, length-append xs (slash ∷ rest)))

pub HeaderCovers-length :
    (t path : Str) → IsRooted path → HeaderCovers t path → length t ≤ length path
HeaderCovers-length t path (rest, r) (inl e) = omega (arith, ap length e, ap length r)
HeaderCovers-length t path r (inr (ne, c)) = Covers-length t path c
