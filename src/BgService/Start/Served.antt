-- ===== src/BgService/Start/Served.antt =====
-- What the background service has received, and which provider it starts.
use aralez.Prelude.{
  ◌≡◌, refl, subst, ◌⊎◌, ◌∙◌, inl, inr, Option, none, some, List, [], ◌∷◌, Option-cases, arith,
  nat_eq, list_beq, list_eq, ◌≢◌,
}
use aralez.Outcome.{returned}
use aralez.Text.{Str, bytes}
use aralez.Structs.{AppConfig, Configuration}
use aralez.Lb.{Lb}
use aralez.Tools.{clone_dashmap_into, clone_idmap_into}
use aralez.HealthCheck.{Net}
use aralez.ParceYaml.{Globals}
use aralez.ParceYaml.Load.{Yaml, Disk, load_configuration}
use aralez.ParceYaml.Load.Laws.{IsStartable, load_configuration-IsStartable}
use aralez.BgService.{receive}
use aralez.BgService.Start.{
  file, kubernetes, consul, Started, provider_of, start_tasks, start, Turn, shutdown, received,
  serve,
}

-- The last configuration that comes in before the shutdown.
unfoldable pub last_received : List Turn → Option Configuration
last_received [] = none
last_received (shutdown ∷ turns) = none
last_received (received none ∷ turns) = last_received turns
last_received (received (some ss) ∷ turns) = elim (last_received turns) [
  | none ↦ some ss
  | some later ↦ some later
]

-- A configuration takes the place of the one before it.
pub receive-receive :
    (sha_hex : Str → Str) (a b : Configuration) (lb : Lb)
    → receive sha_hex b (receive sha_hex a lb) ≡ receive sha_hex b lb
unfolding receive clone_dashmap_into clone_idmap_into
receive-receive sha_hex a b lb = refl

abbrev pub received_by : (Str → Str) → Option Configuration → Lb → Lb
received_by sha_hex none lb = lb
received_by sha_hex (some ss) lb = receive sha_hex ss lb

-- Whatever comes in, in any number and order, the service ends with what the last configuration
-- before the shutdown makes of the state at the start; with none, it keeps that state.
pub serve-last :
    (sha_hex : Str → Str) (turns : List Turn) (lb : Lb)
    → serve sha_hex turns lb ≡ received_by sha_hex (last_received turns) lb
unfolding serve last_received
serve-last sha_hex [] lb = refl
serve-last sha_hex (shutdown ∷ turns) lb = refl
serve-last sha_hex (received none ∷ turns) lb = serve-last sha_hex turns lb
serve-last sha_hex (received (some ss) ∷ turns) lb =
    serve-last sha_hex turns (receive sha_hex ss lb) ∙ elim (Option-cases (last_received turns)) [
      | inl e ↦ rw e refl
      | inr (later, e) ↦ rw e (receive-receive sha_hex ss later lb)
    ]

-- The provider of a started service, on the configuration that it loaded.
abbrev pub IsProvided : AppConfig → Configuration → Started → Type 0
IsProvided app c s =
    ((s.provider ≡ some (file app.upstreams_conf)) × (s.sent ≡ some c))
    ⊎ ((s.provider ≡ some (consul c)) × (s.sent ≡ none) × (c.consul ≢ none))
    ⊎ ((s.provider ≡ some (kubernetes c)) × (s.sent ≡ none) × (c.kubernetes ≢ none))

start_tasks-IsProvided :
    (app : AppConfig) (c : Configuration) → IsStartable c → IsProvided app c (start_tasks app c)
unfolding start_tasks provider_of list_beq
start_tasks-IsProvided app c (inl e) = rw e (inl (refl, refl))
start_tasks-IsProvided app c (inr (inl (e, there))) = rw e (inr (inl (refl, refl, there)))
start_tasks-IsProvided app c (inr (inr (e, there))) = rw e (inr (inr (refl, refl, there)))

-- A service that starts has loaded a configuration and has a provider for it, so that the branch
-- for an unknown type of discovery is never taken: the file's, and then the configuration is sent
-- at once, or Consul's or Kubernetes', and then it has that provider's section and is not sent.
pub start-IsProvided :
    (net : Net) (yaml : Yaml) (disk : Disk) (app : AppConfig) (g : Globals) (s : Started)
    → start net yaml disk app g ≡ returned s
    → (c : Configuration) × ((load_configuration net yaml disk app.upstreams_conf
          (bytes "filepath")
          g).0
        ≡ some c)
      × IsProvided app c s
unfolding start
start-IsProvided net yaml disk app g s h =
    elim (Option-cases
      (load_configuration net yaml disk app.upstreams_conf (bytes "filepath") g).0) [
        | inl e ↦ absurd (ground arith)
        | inr (c, e) ↦
            let same : start_tasks app c ≡ s = ground arith in
            (
              c,
              e,
              subst (IsProvided app c) same (
                  start_tasks-IsProvided app c (
                    load_configuration-IsStartable net yaml disk app.upstreams_conf
                      (bytes "filepath") g c e)),
            )
      ]
