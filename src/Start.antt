-- ===== src/Start.antt =====
-- `run` of src/web/start.rs with `check_priv`, `drop_priv` and `write_pid_file` of
-- src/utils/tools.rs: how the process starts. The system and the server of the crate `pingora` are
-- the parameter `Machine`.
pub mod Waiting
pub mod Dropped
mod Tests
use aralez.Prelude.{
  ℕ, zero, suc, ◌+◌, Bool, true, false, ◌&&◌, ◌||◌, not, Option, none, some, List, [], ◌∷◌, ◌++◌,
  ◌==◌, nat_eq, if◌then◌else◌, ltb,
}
use aralez.Outcome.{Outcome, panicked, returned}
use aralez.Text.{Str, bytes}
use aralez.Structs.{AppConfig}
use aralez.Tools.Format.{unwrap_or}
use aralez.Certificates.{CertificateConfig, CertificateInfo, Certificates}
use aralez.Certificates.Updates.{first_set}
use aralez.Certificates.Grades.{SslVersion, set_tsl_grade, grade_of}

pub record Machine (SslContext TlsSettings : Type 0) : Type 0 where
  -- The port of an address that `SocketAddr::from_str` reads.
  pub port_of : Str → Option ℕ
  -- The owner of /proc/self.
  pub uid : ℕ
  -- Whether the n-th `TcpListener::bind` on an address succeeds, counted from 0.
  pub binds : Str → ℕ → Bool
  -- Whether `PrivDrop` can change to a user and a group.
  pub applies : Str → Str → Bool
  -- Whether the directory is there, or can be made.
  pub has_folder : Str → Bool
  -- The first list of certificates that the watcher of the directory sends, unless it fails.
  pub listed : Str → Option (List CertificateConfig)
  -- The certificates, as they are read first and as they are read again.
  pub load : CertificateConfig → Option (CertificateInfo SslContext)
  pub load_again : CertificateConfig → Option (CertificateInfo SslContext)
  pub intermediate : Str → Str → Option TlsSettings
  pub set_min_proto_version : SslVersion → TlsSettings → TlsSettings
  pub set_cipher_list : Str → TlsSettings → TlsSettings
  pub writes : Str → Bool

-- What a part of the start comes to; `waiting` where the fuel of a loop runs out.
pub data Ended (A : Type 0) : Type 0 where
  panic waiting : Ended A
  exit : ℕ → Ended A
  done : A → Ended A

infixl 5 ◌>>=◌
abbrev pub ◌>>=◌ : {A B : Type 0} → Ended A → (A → Ended B) → Ended B
panic >>= k = panic
waiting >>= k = waiting
exit code >>= k = exit code
done a >>= k = k a

pub record TcpKeepalive : Type 0 where
  pub idle : ℕ
  pub interval : ℕ
  pub count : ℕ

-- What the process has done once it waits for a signal.
pub data Event (TlsSettings : Type 0) : Type 0 where
  tls_listener : Str → Option TcpKeepalive → TlsSettings → Event TlsSettings
  http_listener : Str → Option TcpKeepalive → Event TlsSettings
  serving ready : Event TlsSettings
  dropped : (user group : Str) → Event TlsSettings
  pid_file : Str → Event TlsSettings

unfoldable pub tcp_options : AppConfig → Option TcpKeepalive
tcp_options cfg = elim cfg.tcp_keepalive_idle [
  | none ↦ none
  | some idle ↦ some (record {
    idle = idle;
    interval = unwrap_or 10 cfg.tcp_keepalive_interval;
    count = unwrap_or 5 cfg.tcp_keepalive_count;
  })
]

-- The loops that bind an address again and again, from the n-th attempt on: the attempt that ends
-- them.
unfoldable pub first_such : ℕ → (ℕ → Bool) → ℕ → Option ℕ
first_such zero ends n = none
first_such (suc fuel) ends n = elim (ends n) [
  | true ↦ some n
  | false ↦ first_such fuel ends (suc n)
]

module _ {SslContext TlsSettings : Type 0} (m : Machine SslContext TlsSettings) where
  unfoldable pub check_priv : Str → Ended Unit
  check_priv addr = elim (m.port_of addr) [
    | none ↦ panic
    | some port ↦ if ltb port 1024 && not (m.uid == 0) then exit 1 else done tt
  ]

  -- It takes an address for served once it cannot be bound any more.
  unfoldable pub wait_served : ℕ → Str → Ended Unit
  wait_served fuel addr = elim (first_such fuel (λ n. not (m.binds addr n)) 0) [
    | none ↦ waiting
    | some n ↦ done tt
  ]

  unfoldable pub wait_both : ℕ → Str → Option Str → Ended Unit
  wait_both fuel http_addr none = wait_served fuel http_addr
  wait_both fuel http_addr (some tls_addr) =
      wait_served fuel http_addr >>= λ _. wait_served fuel tls_addr

  unfoldable pub drop_priv : ℕ → Str → Str → Str → Option Str → Ended Unit
  drop_priv fuel user group http_addr tls_addr =
      wait_both fuel http_addr tls_addr >>= λ _. if m.applies user group then done tt else exit 1

  -- The certificates are on the disk, and the settings are made from the first of them.
  unfoldable pub tls_settings : AppConfig → Ended TlsSettings
  tls_settings cfg = elim cfg.proxy_configs [
    | none ↦ panic
    | some dir ↦
        let certs_path = dir ++ bytes "/certificates" in
        if not (m.has_folder certs_path) then panic else elim (m.listed certs_path) [
          | none ↦ panic
          | some configs ↦ elim (first_set m.load m.load_again configs) [
            | panicked ↦ panic
            | returned certs ↦
                elim (m.intermediate certs.default_cert_path certs.default_key_path) [
                  | none ↦ panic
                  | some settings ↦ done (
                      set_tsl_grade m.set_min_proto_version m.set_cipher_list (grade_of cfg)
                        settings)
                ]
          ]
        ]
  ]

  unfoldable pub tls_listeners : AppConfig → Option Str → Ended (List (Event TlsSettings))
  tls_listeners cfg none = done []
  tls_listeners cfg (some addr) = check_priv addr >>= λ _.
      tls_settings cfg >>= λ t. done (tls_listener addr (tcp_options cfg) t ∷ [])

  -- `drop_priv(user, group, …)`, where `user` is bound to the group and `group` to the user.
  unfoldable pub drop_events :
      ℕ → AppConfig → Option Str → Option Str → Ended (List (Event TlsSettings))
  drop_events fuel cfg (some user) (some group) =
      drop_priv fuel user group cfg.proxy_address_http cfg.proxy_address_tls >>= λ _.
      done (dropped user group ∷ [])
  drop_events fuel cfg _ _ = done []

  -- From the HTTP listener on; the server runs in a thread, which serves while privileges drop.
  unfoldable pub finish :
      AppConfig
      → List (Event TlsSettings)
      → List (Event TlsSettings)
      → Ended (List (Event TlsSettings))
  finish cfg tls drops =
      let pf = unwrap_or (bytes "/tmp/aralez.pid") cfg.pid_file in
      if m.writes pf
      then done (
          tls
          ++ (http_listener cfg.proxy_address_http (tcp_options cfg)
              ∷ (serving ∷ (drops ++ (ready ∷ pid_file pf ∷ [])))))
      else panic

  unfoldable pub run : ℕ → AppConfig → Ended (List (Event TlsSettings))
  run fuel cfg = check_priv cfg.proxy_address_http >>= λ _.
      tls_listeners cfg cfg.proxy_address_tls >>= λ tls.
      drop_events fuel cfg cfg.rungroup cfg.runuser >>= λ drops. finish cfg tls drops
