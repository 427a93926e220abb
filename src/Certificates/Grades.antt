-- ===== src/Certificates/Grades.antt =====
-- src/tls/grades.rs: the TLS versions and ciphers of a grade. The settings of the crate `pingora`
-- with their two setters, whose errors the code ignores, are parameters, and so is
-- `select_next_proto`.
pub mod Detected
use aralez.Prelude.{Option, none, some, ◌==◌, nat_eq, list_eq, if◌then◌else◌, List}
use aralez.Text.{Str, bytes, to_ascii_lowercase}
use aralez.Tools.Format.{unwrap_or}
use aralez.ParceYaml.{parce_tls_grades}
use aralez.Structs.{AppConfig}

pub record CipherSuite : Type 0 where
  pub high : Str
  pub medium : Str
  pub legacy : Str

abbrev pub ciphers : CipherSuite
ciphers = record {
  high =
      bytes
        "TLS_AES_256_GCM_SHA384:TLS_CHACHA20_POLY1305_SHA256:TLS_AES_128_GCM_SHA256:ECDHE-ECDSA-AES256-GCM-SHA384:ECDHE-RSA-AES256-GCM-SHA384:ECDHE-ECDSA-CHACHA20-POLY1305:ECDHE-RSA-CHACHA20-POLY1305";
  medium = bytes "ECDHE-RSA-AES128-SHA:ECDHE-ECDSA-AES128-SHA:AES128-GCM-SHA256";
  legacy = bytes "ALL:!ADH:!LOW:!EXP:!MD5:@STRENGTH";
}

pub data TlsGrade : Type 0 where
  high medium legacy : TlsGrade

unfoldable pub from_str : Str → Option TlsGrade
from_str s =
    let l = to_ascii_lowercase s in
    if l == bytes "high"
    then some high
    else if l == bytes "medium"
    then some medium
    else if l == bytes "unsafe"
    then some legacy
    else none

pub data SslVersion : Type 0 where
  tls1_2 tls1 ssl3 : SslVersion

module _ {TlsSettings : Type 0} (set_min_proto_version : SslVersion → TlsSettings → TlsSettings)
    (set_cipher_list : Str → TlsSettings → TlsSettings) where
  -- The ciphers are set twice.
  abbrev pub set_both : SslVersion → Str → TlsSettings → TlsSettings
  set_both version list tls_settings =
      set_cipher_list list (set_cipher_list list (set_min_proto_version version tls_settings))

  unfoldable pub set_tsl_grade : Str → TlsSettings → TlsSettings
  set_tsl_grade grade tls_settings = elim (from_str grade) [
    | none ↦ set_both tls1 ciphers.medium tls_settings
    | some config_grade ↦ elim config_grade [
      | high ↦ set_both tls1_2 ciphers.high tls_settings
      | medium ↦ set_both tls1 ciphers.medium tls_settings
      | legacy ↦ set_both ssl3 ciphers.legacy tls_settings
    ]
  ]

-- `none` is `AlpnError::NOACK`.
abbrev pub prefer_h2 : (Str → Str → Option Str) → Str → Option Str
prefer_h2 select_next_proto alpn_in = select_next_proto (bytes "\u{2}h2\u{8}http/1.1") alpn_in

-- The grade in `run` of src/web/start.rs, where `parce_main_config` has left it.
abbrev pub grade_of : AppConfig → Str
grade_of cfg = unwrap_or (bytes "medium") cfg.proxy_tls_grade
