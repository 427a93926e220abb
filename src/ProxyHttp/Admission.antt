-- ===== src/ProxyHttp/Admission.antt =====
-- Which requests `request_filter` of src/web/proxyhttp.rs lets go on to their backend.
use aralez.Prelude.{
  ◌≡◌, refl, ap, ◌∙◌, subst, ◌↔◌, ◌⊎◌, inl, inr, Bool, true, false, none, some, nat_eq, list_eq,
}
use aralez.Text.{Str}
use aralez.Structs.{InnerMap}
use aralez.Lb.{Lb}
use aralez.GetHosts.{get_host}
use aralez.ProxyHttp.{ProxyEnv, Rq, cookie_backend_id, return_header_host_from_upstream}
use aralez.ProxyHttp.Gates.{
  View, view, is_answered, FewErrors, WithinRate, Secure, IsAdmitted, Decides, Sees, Observes,
  auth_gate-Decides, x4xx_gate-Decides, rate_gate-Decides, redirect_gate-Decides,
  https_gate-Decides,
}
use aralez.ProxyHttp.Request.{
  Flow, answered, pass, ◌>>=◌, auth_gate, x4xx_gate, rate_gate, redirect_gate, https_gate, gates,
  with_peer, entered, dispatch, request_filter,
}

module _ (env : ProxyEnv) (innermap : InnerMap) where
  answered_first : (f : Flow) (k : Rq → Flow) → is_answered f ≡ true → is_answered (f >>= k) ≡ true
  answered_first (answered rq) k e = refl
  answered_first (pass rq) k e = cc

  -- One gate after another.
  chain :
      {Kept Kept' : Rq → Type 0} {A B : Type 0} (f : Flow) (k : Rq → Flow)
      → Decides env innermap Kept A f
      → ((m : Rq) → Kept m → Decides env innermap Kept' B (k m))
      → Decides env innermap Kept' (A × B) (f >>= k)
  chain f k d next = elim d [
    | inr (e, refuted) ↦ inr (answered_first f k e, λ ab. refuted ab.0)
    | inl (m, e, kept, a) ↦ elim (next m kept) [
      | inl (m', e', kept', b) ↦ inl (m', ap (λ g. g >>= k) e ∙ e', kept', (a, b))
      | inr (e', refuted) ↦ inr (ap (λ g. is_answered (g >>= k)) e ∙ e', λ ab. refuted ab.1)
    ]
  ]

  -- The same with other words for what is kept and asked.
  restate :
      {Kept Kept' : Rq → Type 0} {A B : Type 0} {f : Flow}
      → Decides env innermap Kept A f
      → ((m : Rq) → Kept m → Kept' m)
      → A ↔ B
      → Decides env innermap Kept' B f
  restate d widen same = elim d [
    | inl (m, e, kept, a) ↦ inl (m, e, widen m kept, same.0 a)
    | inr (e, refuted) ↦ inr (e, λ b. refuted (same.1 b))
  ]

  last_gates :
      (v : View) (m : Rq)
      → Observes env innermap v m
      → Decides env innermap
          (Observes env innermap v)
          ((innermap.redirect_to ≡ none) × Secure env innermap v)
          (redirect_gate env innermap m >>= https_gate env innermap)
  last_gates v m o =
      chain (redirect_gate env innermap m) (https_gate env innermap)
        (elim o [
          | inl p ↦
              restate (redirect_gate-Decides env innermap m) (λ m' q. inl (q ∙ p)) (λ a. a, λ a. a)
          | inr p ↦
              restate (redirect_gate-Decides env innermap m) (λ m' q. inr (q ∙ p)) (λ a. a, λ a. a)
        ])
        (λ m' o'. elim o' [
          | inl p ↦
              subst
                (λ w.
                  Decides env innermap (Observes env innermap v) (Secure env innermap w)
                    (https_gate env innermap m'))
                p
                (restate (https_gate-Decides env innermap m') (λ m'' q. inl (q ∙ p))
                  (λ a. a, λ a. a))
          | inr p ↦
              subst
                (λ w.
                  Decides env innermap (Observes env innermap v) (Secure env innermap w)
                    (https_gate env innermap m'))
                p
                (restate (https_gate-Decides env innermap m') (λ m'' q. inr (q ∙ p))
                  (λ a. a, λ a. a))
        ])

  limit_gates :
      (v : View) (m : Rq)
      → Sees env innermap v m
      → Decides env innermap
          (Observes env innermap v)
          (FewErrors env innermap v
            × (WithinRate env innermap v × ((innermap.redirect_to ≡ none) × Secure env innermap v)))
          (x4xx_gate env innermap m >>= (λ r.
            rate_gate env innermap r
            >>= (λ r'. redirect_gate env innermap r' >>= https_gate env innermap)))
  limit_gates v m p =
      chain (x4xx_gate env innermap m) _
        (subst
          (λ w.
            Decides env innermap (Sees env innermap w) (FewErrors env innermap w)
              (x4xx_gate env innermap m))
          p (x4xx_gate-Decides env innermap m))
        (λ m' q.
          chain (rate_gate env innermap m') _
            (subst
              (λ w.
                Decides env innermap (Observes env innermap w) (WithinRate env innermap w)
                  (rate_gate env innermap m'))
              q (rate_gate-Decides env innermap m'))
            (λ m'' o. last_gates v m'' o))

  pub gates-Decides :
      (rq : Rq)
      → Decides env innermap
          (Observes env innermap (view rq))
          (IsAdmitted env innermap rq)
          (gates env innermap rq)
  unfolding gates
  gates-Decides rq =
      restate
        (chain (auth_gate env innermap rq) _ (auth_gate-Decides env innermap rq)
          (λ m p. limit_gates (view rq) m p))
        (λ m o. o)
        (
          λ t. record {
            authentic = t.0;
            few_errors = t.1.0;
            within_rate = t.1.1.0;
            stays = t.1.1.1.0;
            secure = t.1.1.1.1;
          },
          λ a. (a.authentic, (a.few_errors, (a.within_rate, (a.stays, a.secure)))),
        )

answered-true :
    (env : ProxyEnv) (innermap : InnerMap) (f : Flow)
    → is_answered f ≡ true
    → (with_peer env innermap f).0 ≡ true
answered-true env innermap (answered rq) e = refl
answered-true env innermap (pass rq) e = cc

-- The request when its backend is known.
abbrev located : Lb → Rq → Rq
located lb rq = record (entered rq) { world = record (entered rq).world { lb = lb } }

request_filter-gates :
    (env : ProxyEnv) (rq : Rq) (host : Str) (innermap : InnerMap) (lb : Lb)
    → return_header_host_from_upstream rq.session rq.world.lb.ump_upst ≡ some host
    → get_host rq.world.lb host rq.session.path (cookie_backend_id rq.ctx.extraparams rq.session)
      ≡ some (innermap, lb)
    → request_filter env rq ≡ with_peer env innermap (gates env innermap (located lb rq))
unfolding request_filter dispatch entered
request_filter-gates env rq host innermap lb e f =
    let rq' = entered rq in
    ap
      (λ o. elim o as (λ _. Bool × Rq) [
        | none ↦ (false, rq')
        | some host' ↦ dispatch env host' rq'
      ])
      e
    ∙ ap
        (λ o. elim o as (λ _. Bool × Rq) [
          | none ↦ (false, rq')
          | some (innermap', lb') ↦ with_peer env innermap' (gates env innermap' (located lb' rq))
        ])
        f

keeps_hostname :
    (env : ProxyEnv) (innermap : InnerMap) (r m : Rq)
    → Observes env innermap (view r) m
    → m.ctx.hostname ≡ r.ctx.hostname
keeps_hostname env innermap r m o = elim o [
  | inl p ↦ ap (λ v. v.hostname) p
  | inr p ↦ ap (λ v. v.hostname) p
]

-- Once the host and its backend are known, `request_filter` lets the request go on exactly if the
-- backend admits it: the authentication that applies accepts it, its client has few enough 4xx
-- answers and requests, and neither a redirection nor HTTPS is due. The backend is then the
-- request's upstream; in the other case the request was answered here.
pub request_filter-IsAdmitted :
    (env : ProxyEnv) (rq : Rq) (host : Str) (innermap : InnerMap) (lb : Lb)
    → return_header_host_from_upstream rq.session rq.world.lb.ump_upst ≡ some host
    → get_host rq.world.lb host rq.session.path (cookie_backend_id rq.ctx.extraparams rq.session)
      ≡ some (innermap, lb)
    → (((request_filter env rq).0 ≡ false)
        × ((request_filter env rq).1.ctx.upstream_peer ≡ some innermap)
        × ((request_filter env rq).1.ctx.hostname ≡ some host)
        × IsAdmitted env innermap (entered rq))
      ⊎ (((request_filter env rq).0 ≡ true) × ¬ IsAdmitted env innermap (entered rq))
unfolding request_filter dispatch entered
request_filter-IsAdmitted env rq host innermap lb e f =
    let r : Rq = located lb rq in
    let found = request_filter-gates env rq host innermap lb e f in
    elim (gates-Decides env innermap r) [
      | inl (m, passed, kept, admitted) ↦
          let all = found ∙ ap (with_peer env innermap) passed in
          inl (
            ap (λ t. t.0) all,
            ap (λ t. t.1.ctx.upstream_peer) all,
            ap (λ t. t.1.ctx.hostname) all ∙ keeps_hostname env innermap r m kept ∙ e,
            record {
              authentic = admitted.authentic;
              few_errors = admitted.few_errors;
              within_rate = admitted.within_rate;
              stays = admitted.stays;
              secure = admitted.secure;
            },
          )
      | inr (here, refuted) ↦ inr (
        ap (λ t. t.0) found ∙ answered-true env innermap (gates env innermap r) here,
        λ admitted. refuted (record {
          authentic = admitted.authentic;
          few_errors = admitted.few_errors;
          within_rate = admitted.within_rate;
          stays = admitted.stays;
          secure = admitted.secure;
        }),
      )
    ]
