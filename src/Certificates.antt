-- ===== src/Certificates.antt =====
-- src/tls/load.rs: the certificates by name, and which one a server name selects. Reading a
-- certificate from its files is the parameter `load_cert_info` here, which the
-- child module `Files` defines; an SSL context is of any type.
pub mod Grades
pub mod Indexed
pub mod Selected
pub mod Files
pub mod Updates
mod Tests
use aralez.Prelude.{
  Bool, true, false, ◌&&◌, Option, none, some, List, [], ◌∷◌, ◌++◌, any, drop, if◌then◌else◌,
  nat_eq, list_eq,
}
use mathlib.Core.Option
use aralez.Outcome.{Outcome, panicked, returned}
use aralez.Text.{Str, bytes, starts_with, ends_with}
use aralez.DashMap.{DashMap, get, insert}

pub record CertificateConfig : Type 0 where
  pub cert_path : Str
  pub key_path : Str

-- The paths, which are only for logging, are left out.
pub record CertificateInfo (SslContext : Type 0) : Type 0 where
  pub common_names : List Str
  pub alt_names : List Str
  pub ssl_context : SslContext

pub record Certificates (SslContext : Type 0) : Type 0 where
  pub configs : List (CertificateInfo SslContext)
  pub name_map : DashMap Str SslContext
  pub default_cert_path : Str
  pub default_key_path : Str

-- A wildcard such as "*.x.io" covers every name that ends in ".x.io".
abbrev pub is_covered : Str → Str → Bool
is_covered server_name name = starts_with (bytes "*.") name && ends_with (drop 1 name) server_name

module _ {SslContext : Type 0} where
  unfoldable pub insert_names :
      SslContext → List Str → DashMap Str SslContext → DashMap Str SslContext
  insert_names ctx [] name_map = name_map
  insert_names ctx (name ∷ names) name_map = insert_names ctx names (insert name ctx name_map)

  unfoldable pub load_all :
      (CertificateConfig → Option (CertificateInfo SslContext))
      → List CertificateConfig
      → List (CertificateInfo SslContext)
      → DashMap Str SslContext
      → Option (List (CertificateInfo SslContext) × DashMap Str SslContext)
  load_all load_cert_info [] cert_infos name_map = some (cert_infos, name_map)
  load_all load_cert_info (config ∷ configs) cert_infos name_map = elim (load_cert_info config) [
    | none ↦ none
    | some cert ↦ load_all load_cert_info configs (cert_infos ++ cert ∷ []) (
        insert_names cert.ssl_context cert.alt_names
          (insert_names cert.ssl_context cert.common_names name_map))
  ]

  -- `Certificates::new`
  unfoldable pub certificates_new :
      (CertificateConfig → Option (CertificateInfo SslContext))
      → List CertificateConfig
      → Outcome (Option (Certificates SslContext))
  certificates_new load_cert_info [] = panicked
  certificates_new load_cert_info (config ∷ configs) = returned (
      Option.map
        (λ r. record {
          configs = r.0;
          name_map = r.1;
          default_cert_path = config.cert_path;
          default_key_path = config.key_path;
        })
        (load_all load_cert_info (config ∷ configs) [] []))

  -- The loop over the configurations, for a name that is not in the map.
  unfoldable pub find_wildcard : List (CertificateInfo SslContext) → Str → Option SslContext
  find_wildcard [] server_name = none
  find_wildcard (config ∷ configs) server_name =
      if any (is_covered server_name) config.common_names
      then some config.ssl_context
      else if any (is_covered server_name) config.alt_names
      then some config.ssl_context
      else find_wildcard configs server_name

  unfoldable pub find_ssl_context : Certificates SslContext → Str → Option SslContext
  find_ssl_context certs server_name = elim (get server_name certs.name_map) [
    | some ctx ↦ some ctx
    | none ↦ find_wildcard certs.configs server_name
  ]
