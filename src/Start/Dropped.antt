-- ===== src/Start/Dropped.antt =====
-- When the process drops its privileges, and what it has done by the time it waits for a signal.
use aralez.Prelude.{
  ℕ, Bool, zero, suc, ◌≡◌, refl, ◌∙◌, inl, inr, true, false, not, Option, none, some, List, [], ◌∷◌,
  ◌++◌, nat_eq, arith, Bool-cases, Option-cases, if◌then◌else◌, subst, sym, ◌≤◌, ◌⊎◌,
}
use mathlib.Core.List.{append_assoc}
use aralez.Text.{Str, bytes}
use aralez.Structs.{AppConfig}
use aralez.Tools.Format.{unwrap_or}
use aralez.Start.{
  Machine, Ended, panic, waiting, exit, done, ◌>>=◌, Event, tls_listener, http_listener, serving,
  ready, dropped, pid_file, tcp_options, first_such, check_priv, wait_served, wait_both, drop_priv,
  tls_settings, tls_listeners, drop_events, finish, run,
}

bind-done :
    {A B : Type 0} (e : Ended A) (k : A → Ended B) (b : B)
    → (e >>= k) ≡ done b
    → (a : A) × (e ≡ done a) × (k a ≡ done b)
bind-done panic k b h = absurd (ground arith)
bind-done waiting k b h = absurd (ground arith)
bind-done (exit code) k b h = absurd (ground arith)
bind-done (done a) k b h = (a, refl, h)

first_such-found :
    (fuel : ℕ) (ends : ℕ → Bool) (n k : ℕ) → first_such fuel ends n ≡ some k → ends k ≡ true
unfolding first_such
first_such-found zero ends n k h = absurd (ground arith)
first_such-found (suc fuel) ends n k h = elim (Bool-cases (ends n)) [
  | inl now ↦ ground arith
  | inr later ↦ first_such-found fuel ends (suc n) k (ground arith)
]

module _ {SslContext TlsSettings : Type 0} (m : Machine SslContext TlsSettings) where
  -- The process may listen on the address: its port is not privileged, or it runs as root.
  abbrev pub IsAllowed : Str → Type 0
  IsAllowed addr = (port : ℕ) × (m.port_of addr ≡ some port) × ((1024 ≤ port) ⊎ (m.uid ≡ 0))

  check_priv-IsAllowed : (addr : Str) → check_priv m addr ≡ done tt → IsAllowed addr
  unfolding check_priv
  check_priv-IsAllowed addr h = elim (Option-cases (m.port_of addr)) [
    | inl e ↦ absurd (ground arith)
    | inr (port, e) ↦ (port, e, ground arith)
  ]

  wait_served-found :
      (fuel : ℕ) (addr : Str)
      → wait_served m fuel addr ≡ done tt
      → (n : ℕ) × (m.binds addr n ≡ false)
  unfolding wait_served
  wait_served-found fuel addr h =
      elim (Option-cases (first_such fuel (λ n. not (m.binds addr n)) 0)) [
        | inl e ↦ absurd (ground arith)
        | inr (n, e) ↦
            let found = first_such-found fuel (λ n. not (m.binds addr n)) 0 n e in (n, ground arith)
      ]

  drop_priv-done :
      (fuel : ℕ) (user group http_addr : Str) (tls_addr : Option Str)
      → drop_priv m fuel user group http_addr tls_addr ≡ done tt
      → (wait_both m fuel http_addr tls_addr ≡ done tt) × (m.applies user group ≡ true)
  unfolding drop_priv
  drop_priv-done fuel user group http_addr tls_addr h =
      let (u, waited, applied) =
        bind-done (wait_both m fuel http_addr tls_addr)
          (λ _. if m.applies user group then done tt else exit 1) tt h in
      (waited, ground arith)

  wait_both-found :
      (fuel : ℕ) (http_addr : Str) (tls_addr : Option Str) (addr : Str)
      → (http_addr ≡ addr) ⊎ (tls_addr ≡ some addr)
      → wait_both m fuel http_addr tls_addr ≡ done tt
      → (n : ℕ) × (m.binds addr n ≡ false)
  unfolding wait_both
  wait_both-found fuel http_addr none addr (inl same) h =
      subst (λ a. (n : ℕ) × (m.binds a n ≡ false)) same (wait_served-found fuel http_addr h)
  wait_both-found fuel http_addr none addr (inr e) h = absurd (ground arith)
  wait_both-found fuel http_addr (some tls_addr) addr on h =
      let (u, http, tls) =
        bind-done (wait_served m fuel http_addr) (λ _. wait_served m fuel tls_addr) tt h in
      elim on [
        | inl same ↦
            subst (λ a. (n : ℕ) × (m.binds a n ≡ false)) same
              (wait_served-found fuel http_addr http)
        | inr e ↦
            let same : tls_addr ≡ addr = ground arith in
            subst (λ a. (n : ℕ) × (m.binds a n ≡ false)) same (wait_served-found fuel tls_addr tls)
      ]

  tls_listeners-IsAllowed :
      (cfg : AppConfig) (tls_addr : Option Str) (addr : Str) (l : List (Event TlsSettings))
      → tls_addr ≡ some addr
      → tls_listeners m cfg tls_addr ≡ done l
      → IsAllowed addr
  unfolding tls_listeners
  tls_listeners-IsAllowed cfg none addr l e h = absurd (ground arith)
  tls_listeners-IsAllowed cfg (some tls_addr) addr l e h =
      let (u, checked, _) =
        bind-done (check_priv m tls_addr)
          (λ _. tls_settings m cfg >>= λ t. done (tls_listener tls_addr (tcp_options cfg) t ∷ [])) l
          h in
      let same : tls_addr ≡ addr = ground arith in
      subst IsAllowed same (check_priv-IsAllowed tls_addr checked)

  abbrev last_events : AppConfig → Str → Str → List (Event TlsSettings)
  last_events cfg user group =
      serving
      ∷ dropped user group
      ∷ ready
      ∷ pid_file (unwrap_or (bytes "/tmp/aralez.pid") cfg.pid_file)
      ∷ []

  finish-last :
      (cfg : AppConfig) (tls events : List (Event TlsSettings)) (user group : Str)
      → finish m cfg tls (dropped user group ∷ []) ≡ done events
      → (listeners : List (Event TlsSettings)) × (events ≡ listeners ++ last_events cfg user group)
  unfolding finish
  finish-last cfg tls events user group h =
      let http = http_listener cfg.proxy_address_http (tcp_options cfg) in
      let same : tls ++ (http ∷ last_events cfg user group) ≡ events = ground arith in
      (
        tls ++ (http ∷ []),
        sym same ∙ sym (append_assoc tls (http ∷ []) (last_events cfg user group)),
      )

  -- The parts of a run that comes to wait for signals.
  run-parts :
      (fuel : ℕ) (cfg : AppConfig) (events : List (Event TlsSettings))
      → run m fuel cfg ≡ done events
      → (check_priv m cfg.proxy_address_http ≡ done tt)
        × ((tls drops : List (Event TlsSettings)) × (tls_listeners m cfg cfg.proxy_address_tls
              ≡ done tls)
            × (drop_events m fuel cfg cfg.rungroup cfg.runuser ≡ done drops)
            × (finish m cfg tls drops ≡ done events))
  unfolding run
  run-parts fuel cfg events h =
      let drop = drop_events m fuel cfg cfg.rungroup cfg.runuser in
      let (u, checked, h1) =
        bind-done (check_priv m cfg.proxy_address_http)
          (λ _. tls_listeners m cfg cfg.proxy_address_tls >>= λ tls.
            drop >>= λ drops. finish m cfg tls drops)
          events h in
      let (tls, listened, h2) =
        bind-done (tls_listeners m cfg cfg.proxy_address_tls)
          (λ tls. drop >>= λ drops. finish m cfg tls drops) events h1 in
      let (drops, dropping, h3) = bind-done drop (λ drops. finish m cfg tls drops) events h2 in
      (checked, (tls, drops, listened, dropping, h3))

  drop_events-done :
      (fuel : ℕ) (cfg : AppConfig) (user group : Str) (drops : List (Event TlsSettings))
      → drop_events m fuel cfg (some user) (some group) ≡ done drops
      → (drop_priv m fuel user group cfg.proxy_address_http cfg.proxy_address_tls ≡ done tt)
        × (drops ≡ dropped user group ∷ [])
  unfolding drop_events
  drop_events-done fuel cfg user group drops h =
      let (u, e, same) =
        bind-done (drop_priv m fuel user group cfg.proxy_address_http cfg.proxy_address_tls)
          (λ _. done (dropped user group ∷ [])) drops h in
      (e, ground arith)

-- A process that has a user and a group to run as and comes to wait for signals was allowed to
-- listen on its HTTP address and on its TLS address if it has one (the port is not below 1024, or
-- it ran as root), and an attempt to bind each address failed, so that it was served. It started to
-- serve before it dropped its privileges, and was ready only after that. What it changed to is the
-- configured group as the user and the configured user as the group.
pub run-dropped :
    {SslContext TlsSettings : Type 0} (m : Machine SslContext TlsSettings) (fuel : ℕ)
    (cfg : AppConfig) (runuser rungroup addr : Str) (events : List (Event TlsSettings))
    → cfg.runuser ≡ some runuser
    → cfg.rungroup ≡ some rungroup
    → (cfg.proxy_address_http ≡ addr) ⊎ (cfg.proxy_address_tls ≡ some addr)
    → run m fuel cfg ≡ done events
    → IsAllowed m addr
      × ((n : ℕ) × (m.binds addr n ≡ false))
      × (m.applies rungroup runuser ≡ true)
      × ((listeners : List (Event TlsSettings)) × (events
            ≡ listeners
              ++ (serving
                  ∷ dropped rungroup runuser
                  ∷ ready
                  ∷ pid_file (unwrap_or (bytes "/tmp/aralez.pid") cfg.pid_file)
                  ∷ [])))
run-dropped m fuel cfg runuser rungroup addr events u g on h =
    let (checked, (tls, drops, listened, dropping, finished)) = run-parts m fuel cfg events h in
    let (e, same) = drop_events-done m fuel cfg rungroup runuser drops (
      subst (λ o. drop_events m fuel cfg o (some runuser) ≡ done drops) g
        (subst (λ o. drop_events m fuel cfg cfg.rungroup o ≡ done drops) u dropping)) in
    let http = cfg.proxy_address_http in
    let (waited, applied) = drop_priv-done m fuel rungroup runuser http cfg.proxy_address_tls e in
    (
      elim on [
        | inl is_http ↦ subst (IsAllowed m) is_http (check_priv-IsAllowed m http checked)
        | inr is_tls ↦ tls_listeners-IsAllowed m cfg cfg.proxy_address_tls addr tls is_tls listened
      ],
      wait_both-found m fuel http cfg.proxy_address_tls addr on waited,
      applied,
      finish-last m cfg tls events rungroup runuser
          (subst (λ d. finish m cfg tls d ≡ done events) same finished),
    )
