-- ===== src/Auth/Laws.antt =====
-- What each authentication checks.
use aralez.Prelude.{
  ◌≡◌, refl, ap, ◌∙◌, ◌↔◌, ◌⊎◌, inl, inr, ◌≢◌, true, some, ==_iff, ==_false_of_ne, list_beq, arith,
  nat_eq, list_eq, Option-cases,
}
use aralez.Text.{Str, bytes, split_once, to_ascii_lowercase}
use aralez.Structs.{InnerAuth}
use aralez.Session.{Session, header_text, write_response}
use aralez.Jwt.{JwtCache}
use aralez.Auth.{
  AuthEnv, AuthRequest, AuthResponse, get_query_param, basic_validate, auth_request,
  redirect_response, forward_verdict, forward_validate, authenticate,
}

module _ (env : AuthEnv) where
  -- The request carries credentials for Basic authentication that decode to `cred`.
  abbrev pub PresentsBasic : Str → Session → Type 0
  PresentsBasic cred session =
      (h name val : Str) × (header_text (bytes "authorization") session ≡ some h)
      × (split_once b' ' h ≡ some (name, val))
      × (env.base64_decode val ≡ some cred)

  -- Basic authentication accepts a request exactly if its authorization header has two parts at
  -- the first space and the second decodes to the configured credentials.
  pub basic_validate_iff :
      (cred : Str) (session : Session)
      → (basic_validate env cred session ≡ true) ↔ PresentsBasic cred session
  unfolding basic_validate
  basic_validate_iff cred session = (
    λ v. elim (Option-cases (header_text (bytes "authorization") session)) [
      | inl e ↦ absurd (ground arith)
      | inr (h, e) ↦ elim (Option-cases (split_once b' ' h)) [
        | inl f ↦ absurd (ground arith)
        | inr ((name, val), f) ↦ elim (Option-cases (env.base64_decode val)) [
          | inl g ↦ absurd (ground arith)
          | inr (decoded, g) ↦
              let same : decoded ≡ cred = (==_iff decoded cred).0 (ground arith) in
              (h, name, val, e, f, g ∙ ap some same)
        ]
      ]
    ],
    λ p.
        let (h, name, val, e, f, g) = p in
        let same = (==_iff cred cred).1 refl in rw (e, basic_validate) (ground arith),
  )

  -- Whatever is not forward authentication leaves the session as it was.
  pub authenticate-session :
      (auth : InnerAuth) (session : Session) (cache : JwtCache)
      → auth.auth_type ≢ bytes "forward"
      → (authenticate env auth session cache).1 ≡ session
  unfolding authenticate
  authenticate-session auth session cache ne =
      let other = ==_false_of_ne auth.auth_type (bytes "forward") ne in ground arith

  -- The token is a query parameter of the request, or its bearer token.
  abbrev pub PresentsToken : Str → Session → Type 0
  PresentsToken token session =
      (get_query_param env session (bytes "araleztoken") ≡ some token)
      ⊎ ((h name : Str) × (header_text (bytes "authorization") session ≡ some h)
          × (split_once b' ' h ≡ some (name, token))
          × (to_ascii_lowercase name ≡ bytes "bearer"))

  -- An authentication server that answers with a redirection lets the request through: the client
  -- is sent a 301, and the verdict is true.
  pub forward_redirect :
      (url : Str) (session : Session) (cache : JwtCache) (request : AuthRequest)
      (answer : AuthResponse)
      → auth_request env url session ≡ some request
      → env.auth_server request ≡ some answer
      → (answer.status ≡ 301) ⊎ (answer.status ≡ 302)
      → authenticate env (record { auth_type = bytes "forward"; auth_cred = url }) session cache
        ≡ (true, write_response (redirect_response answer) session, cache)
  unfolding authenticate list_beq forward_validate forward_verdict
  forward_redirect url session cache request answer e f redirected = ground (arith, redirected)
