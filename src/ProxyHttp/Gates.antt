-- ===== src/ProxyHttp/Gates.antt =====
-- What each gate of `request_filter` in src/web/proxyhttp.rs asks of a request.
use aralez.Prelude.{
  ℕ, ◌≤◌, ◌≡◌, refl, ap, subst, ◌⊎◌, inl, inr, Bool, true, false, ◌||◌, Option, none, some, List,
  ◌∷◌, nat_eq, list_eq, ltb, arith, Bool-cases, Option-cases,
}
use aralez.Prelude.Int.{ℤ, ltb_ℤ}
use aralez.Text.{Str}
use aralez.DashMap.{DashMap, get}
use aralez.Structs.{InnerAuth, InnerMap, Extraparams}
use aralez.Session.{Session}
use aralez.Jwt.{JwtCache}
use aralez.Auth.{
  AuthEnv, AuthResponse, auth_request, forward_verdict, forward_validate, authenticate,
}
use aralez.Tools.Format.{unwrap_or}
use aralez.ProxyHttp.{ProxyEnv, Rq}
use aralez.ProxyHttp.Request.{
  Flow, answered, pass, or, auth_gate, x4xx_gate, rate_gate, redirect_gate, https_gate, wants_https,
}

-- What the gates read of a request, besides its headers.
pub record View : Type 0 where
  pub hostname : Option Str
  pub extraparams : Extraparams
  pub client_ip : Option Str
  pub stream : Option Bool
  pub requests_4xx : DashMap Str ℕ
  pub rate_limiter : List (Option Str)

abbrev pub view : Rq → View
view rq = record {
  hostname = rq.ctx.hostname;
  extraparams = rq.ctx.extraparams;
  client_ip = rq.session.client_ip;
  stream = rq.session.stream;
  requests_4xx = rq.world.requests_4xx;
  rate_limiter = rq.world.rate_limiter;
}

-- Authentication changes nothing of the connection.
abbrev connection : Session → Option Str × Option Bool
connection session = (session.client_ip, session.stream)

forward_verdict-connection :
    (answer : AuthResponse) (session : Session)
    → connection (forward_verdict answer session).1 ≡ connection session
unfolding forward_verdict
forward_verdict-connection answer session = ground arith

forward_validate-connection :
    (env : AuthEnv) (url : Str) (session : Session)
    → connection (forward_validate env url session).1 ≡ connection session
unfolding forward_validate
forward_validate-connection env url session = elim (Option-cases (auth_request env url session)) [
  | inl e ↦ rw (e, forward_validate) refl
  | inr (request, e) ↦ elim (Option-cases (env.auth_server request)) [
    | inl f ↦ rw (e, f, forward_validate) refl
    | inr (answer, f) ↦ rw (e, f, forward_validate) (forward_verdict-connection answer session)
  ]
]

authenticate-connection :
    (env : AuthEnv) (auth : InnerAuth) (session : Session) (cache : JwtCache)
    → connection (authenticate env auth session cache).1 ≡ connection session
unfolding authenticate
authenticate-connection env auth session cache =
    let forwarded = forward_validate-connection env auth.auth_cred session in
    ground (arith, forwarded)

abbrev pub is_answered : Flow → Bool
is_answered (answered rq) = true
is_answered (pass rq) = false

-- What each gate asks.
module _ (env : ProxyEnv) (innermap : InnerMap) where
  -- The authentication that the configuration or the path asks for accepts the request.
  abbrev pub Authentic : Rq → Type 0
  Authentic rq =
      (auth : InnerAuth)
      → or rq.ctx.extraparams.authentication innermap.authorization ≡ some auth
      → (authenticate env.auth auth rq.session rq.world.jwt_cache).0 ≡ true

  -- The client's address has at most as many 4xx answers as the limit, where there is a limit.
  abbrev pub FewErrors : View → Type 0
  FewErrors v =
      (rate : ℕ) (ip : Str)
      → or innermap.x4xx_limit v.extraparams.x4xx_limit ≡ some rate
      → v.client_ip ≡ some ip
      → unwrap_or 0 (get ip v.requests_4xx) ≤ rate

  -- The limiter's estimate for the client's address is within the limit, where there is one.
  abbrev pub WithinRate : View → Type 0
  WithinRate v =
      (rate : ℤ)
      → or innermap.rate_limit v.extraparams.rate_limit ≡ some rate
      → ltb_ℤ rate (env.observe v.rate_limiter v.client_ip) ≡ false

  -- No redirection to HTTPS is due.
  abbrev pub Secure : View → Type 0
  Secure v =
      (unwrap_or false v.extraparams.to_https || innermap.to_https) ≡ true
      → v.stream ≡ some false
      → v.hostname ≡ none

  -- What the gates ask together.
  pub record IsAdmitted (rq : Rq) : Type 0 where
    pub authentic : Authentic rq
    pub few_errors : FewErrors (view rq)
    pub within_rate : WithinRate (view rq)
    pub stays : innermap.redirect_to ≡ none
    pub secure : Secure (view rq)

  -- A gate passes a request on as `Kept` says, where `Asked` holds, and answers it otherwise.
  abbrev pub Decides : (Rq → Type 0) → Type 0 → Flow → Type 0
  Decides Kept Asked f =
      ((m : Rq) × (f ≡ pass m) × Kept m × Asked) ⊎ ((is_answered f ≡ true) × ¬ Asked)

  abbrev pub Sees : View → Rq → Type 0
  Sees v m = view m ≡ v

  pub auth_gate-Decides :
      (rq : Rq) → Decides (Sees (view rq)) (Authentic rq) (auth_gate env innermap rq)
  unfolding auth_gate
  auth_gate-Decides rq =
      elim (Option-cases (or rq.ctx.extraparams.authentication innermap.authorization)) [
        | inl e ↦ inl (rq, rw (e, auth_gate) refl, refl, λ auth f. cc)
        | inr (auth, e) ↦
            let r = authenticate env.auth auth rq.session rq.world.jwt_cache in
            let m : Rq = record rq { session = r.1; world = record rq.world { jwt_cache = r.2 } } in
            elim (Bool-cases r.0) [
              | inl accepted ↦ inl (
                m,
                rw (e, accepted, auth_gate) refl,
                ap (λ c. record (view rq) { client_ip = c.0; stream = c.1 })
                    (authenticate-connection env.auth auth rq.session rq.world.jwt_cache),
                λ auth' f.
                    let same : auth ≡ auth' = cc in
                    subst (λ a. (authenticate env.auth a rq.session rq.world.jwt_cache).0 ≡ true)
                      same accepted,
              )
              | inr refused ↦
                  inr (rw (e, refused, auth_gate) refl, λ asked. cc (asked auth e, refused))
            ]
      ]

  pub x4xx_gate-Decides :
      (rq : Rq) → Decides (Sees (view rq)) (FewErrors (view rq)) (x4xx_gate env innermap rq)
  unfolding x4xx_gate
  x4xx_gate-Decides rq =
      let m : Rq = record rq { ctx = record rq.ctx { x4xx_limit = innermap.x4xx_limit } } in
      elim (Option-cases (or innermap.x4xx_limit rq.ctx.extraparams.x4xx_limit)) [
        | inl e ↦ inl (rq, rw (e, x4xx_gate) refl, refl, λ rate ip f g. cc)
        | inr (rate, e) ↦ elim (Option-cases rq.session.client_ip) [
          | inl f ↦ inl (m, ground arith, refl, λ rate ip g h. cc)
          | inr (ip, f) ↦
              elim (Bool-cases (ltb rate (unwrap_or 0 (get ip rq.world.requests_4xx)))) [
                | inl many ↦ inr (
                  rw (e, f, many, x4xx_gate) refl,
                  λ few. absurd (let k = few rate ip e f in ground arith),
                )
                | inr few ↦ inl (
                  m,
                  ground arith,
                  refl,
                  λ rate' ip' g h.
                      let (same, here) : (rate ≡ rate') × (ip ≡ ip') = (cc, cc) in
                      subst (λ r. unwrap_or 0 (get ip' rq.world.requests_4xx) ≤ r) same
                        (subst (λ k. unwrap_or 0 (get k rq.world.requests_4xx) ≤ rate) here
                          (ground arith)),
                )
              ]
        ]
      ]

  -- The rate gate counts the request among the observed ones.
  abbrev pub observed : View → View
  observed v = record v { rate_limiter = v.client_ip ∷ v.rate_limiter }

  abbrev pub Observes : View → Rq → Type 0
  Observes v m = (view m ≡ v) ⊎ (view m ≡ observed v)

  pub rate_gate-Decides :
      (rq : Rq) → Decides (Observes (view rq)) (WithinRate (view rq)) (rate_gate env innermap rq)
  unfolding rate_gate
  rate_gate-Decides rq =
      let m : Rq = record rq {
        world = record rq.world { rate_limiter = rq.session.client_ip ∷ rq.world.rate_limiter };
      } in
      elim (Option-cases (or innermap.rate_limit rq.ctx.extraparams.rate_limit)) [
        | inl e ↦ inl (rq, rw (e, rate_gate) refl, inl refl, λ rate f. cc)
        | inr (rate, e) ↦
            elim (Bool-cases
              (ltb_ℤ rate (env.observe rq.world.rate_limiter rq.session.client_ip))) [
                | inl many ↦ inr (rw (e, many, rate_gate) refl, λ few. cc (few rate e, many))
                | inr few ↦ inl (
                  m,
                  rw (e, few, rate_gate) refl,
                  inr refl,
                  λ rate' f.
                      let same : rate ≡ rate' = cc in
                      subst
                        (λ r.
                          ltb_ℤ r (env.observe rq.world.rate_limiter rq.session.client_ip) ≡ false)
                        same few,
                )
              ]
      ]

  pub redirect_gate-Decides :
      (rq : Rq)
      → Decides (Sees (view rq)) (innermap.redirect_to ≡ none) (redirect_gate env innermap rq)
  unfolding redirect_gate
  redirect_gate-Decides rq = elim (Option-cases innermap.redirect_to) [
    | inl e ↦ inl (rq, rw (e, redirect_gate) refl, refl, e)
    | inr (location, e) ↦ inr (rw (e, redirect_gate) refl, λ stays. cc)
  ]

  pub https_gate-Decides :
      (rq : Rq) → Decides (Sees (view rq)) (Secure (view rq)) (https_gate env innermap rq)
  unfolding https_gate
  https_gate-Decides rq = elim (Bool-cases (wants_https env innermap rq)) [
    | inr e ↦ inl (rq, rw (e, https_gate) refl, refl, λ wants. cc)
    | inl e ↦ elim (Option-cases rq.session.stream) [
      | inl f ↦ inl (rq, rw (e, f, https_gate) refl, refl, λ wants plain. cc)
      | inr (true, f) ↦ inl (rq, rw (e, f, https_gate) refl, refl, λ wants plain. cc)
      | inr (false, f) ↦ elim (Option-cases rq.ctx.hostname) [
        | inl g ↦ inl (rq, ground arith, refl, λ wants plain. g)
        | inr (host, g) ↦ inr (rw (e, f, g, https_gate) refl, λ secure. let k = secure e f in cc)
      ]
    ]
  ]
