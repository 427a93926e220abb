-- ===== src/Jwt/Laws.antt =====
-- Which tokens `check_jwt` accepts.
use aralez.Prelude.{
  ℕ, ◌<◌, ◌≤◌, ◌≡◌, refl, sym, ◌⊎◌, inl, inr, true, false, some, ltb, ◌==◌, arith, nat_eq,
  Option-cases, Bool-cases, subst,
}
use aralez.Text.{Str}
use aralez.DashMap.{get, insert}
use aralez.DashMap.Laws.{get-insert}
use aralez.Jwt.{Claims, Decoders, JwtCache, is_expired, verify, check_jwt}

module _ (dec : Decoders) where
  -- Each entry is the expiry of a token that verified.
  abbrev pub IsSound : JwtCache → Type 0
  IsSound cache =
      (key exp : ℕ)
      → get key cache ≡ some exp
      → (token secret : Str) × (claims : Claims) × (dec.hash_token token secret ≡ key)
        × (dec.decode token secret ≡ some claims)
        × (claims.exp ≡ exp)

  IsSound-insert :
      (token secret : Str) (claims : Claims) (cache : JwtCache)
      → dec.decode token secret ≡ some claims
      → IsSound cache
      → IsSound (insert (dec.hash_token token secret) claims.exp cache)
  IsSound-insert token secret claims cache d sound key exp e =
      let k = dec.hash_token token secret in
      elim (Bool-cases (k == key)) [
        | inl same ↦ (
          token,
          secret,
          claims,
          ground arith,
          d,
          ground (arith, get-insert k key claims.exp cache),
        )
        | inr other ↦ sound key exp (ground (arith, get-insert k key claims.exp cache))
      ]

  verify-cases :
      (token secret : Str) (now : ℕ) (cache : JwtCache)
      → (verify dec token secret now cache ≡ (false, cache))
        ⊎ ((claims : Claims) × (dec.decode token secret ≡ some claims)
            × (now < claims.exp)
            × (verify dec token secret now cache
                ≡ (true, insert (dec.hash_token token secret) claims.exp cache)))
  unfolding verify
  verify-cases token secret now cache = elim (Option-cases (dec.decode token secret)) [
    | inl e ↦ inl (rw (e, verify) refl)
    | inr (claims, e) ↦ elim (Bool-cases (ltb now claims.exp)) [
      | inl fresh ↦ inr (claims, e, ground arith, rw (e, fresh, verify) refl)
      | inr old ↦ inl (rw (e, old, verify) refl)
    ]
  ]

  -- A check accepts by an entry of the cache, or by the token itself, or it refuses.
  pub check_jwt-cases :
      (token secret : Str) (now later : ℕ) (cache : JwtCache)
      → let r = check_jwt dec token secret now later cache in
        (r ≡ (false, cache))
        ⊎ ((exp : ℕ) × (get (dec.hash_token token secret) cache ≡ some exp)
            × (now ≤ exp)
            × (r ≡ (true, cache)))
        ⊎ ((claims : Claims) × (dec.decode token secret ≡ some claims)
            × (later < claims.exp)
            × (r ≡ (true, insert (dec.hash_token token secret) claims.exp cache)))
  unfolding check_jwt
  check_jwt-cases token secret now later cache =
      elim (Option-cases (get (dec.hash_token token secret) cache)) [
        | inr (exp, e) ↦ elim (Bool-cases (ltb exp now)) [
          | inl old ↦ inl (rw (e, old, check_jwt) refl)
          | inr good ↦ inr (inl (exp, e, ground arith, rw (e, good, check_jwt) refl))
        ]
        | inl e ↦ elim (Option-cases (is_expired dec token now)) [
          | inl f ↦ inl (rw (e, f, check_jwt) refl)
          | inr (true, f) ↦ inl (rw (e, f, check_jwt) refl)
          | inr (false, f) ↦ elim (verify-cases token secret later cache) [
            | inl refused ↦ inl (rw (e, f, refused, check_jwt) refl)
            | inr (claims, d, fresh, accepted) ↦
                inr (inr (claims, d, fresh, rw (e, f, accepted, check_jwt) refl))
          ]
        ]
      ]

  -- A check keeps the cache sound.
  pub check_jwt-IsSound :
      (token secret : Str) (now later : ℕ) (cache : JwtCache)
      → IsSound cache
      → IsSound (check_jwt dec token secret now later cache).1
  check_jwt-IsSound token secret now later cache sound =
      elim (check_jwt-cases token secret now later cache) [
        | inl r ↦ subst (λ c. IsSound c.1) (sym r) sound
        | inr (inl (exp, e, h, r)) ↦ subst (λ c. IsSound c.1) (sym r) sound
        | inr (inr (claims, d, h, r)) ↦
            subst (λ c. IsSound c.1) (sym r) (IsSound-insert token secret claims cache d sound)
      ]
