-- ===== src/Certificates/Updates.antt =====
-- The certificates in src/web/start.rs: loaded at the start, and replaced as the folder changes.
pub mod Latest
use aralez.Prelude.{Bool, true, false, Option, none, some, List, [], ◌∷◌}
use aralez.Outcome.{Outcome, panicked, returned, ◌>>=◌}
use aralez.Certificates.{CertificateConfig, CertificateInfo, Certificates, certificates_new}

-- The list that the folder's watcher sends, and what the files hold when it is taken.
pub record Listing (SslContext : Type 0) : Type 0 where
  pub load_cert_info : CertificateConfig → Option (CertificateInfo SslContext)
  pub configs : List CertificateConfig

-- `unwrap` of what `Certificates::new` returns.
abbrev unwrap : {A : Type 0} → Outcome (Option A) → Outcome A
unwrap panicked = panicked
unwrap (returned none) = panicked
unwrap (returned (some a)) = returned a

module _ {SslContext : Type 0} where
  unfoldable pub load_listing : Listing SslContext → Outcome (Option (Certificates SslContext))
  load_listing listing = certificates_new listing.load_cert_info listing.configs

  -- The first list is loaded to start with and a second time to be stored; the files may have
  -- changed in between.
  unfoldable pub first_set :
      (CertificateConfig → Option (CertificateInfo SslContext))
      → (CertificateConfig → Option (CertificateInfo SslContext))
      → List CertificateConfig
      → Outcome (Certificates SslContext)
  unfolding load_listing
  first_set load load_again certificate_configs =
      unwrap (certificates_new load certificate_configs) >>= λ _.
      unwrap (certificates_new load_again certificate_configs)

  -- The thread that stores new certificates: what is stored, and whether the thread still runs.
  unfoldable pub update :
      Certificates SslContext → List (Listing SslContext) → Certificates SslContext × Bool
  update current [] = (current, true)
  update current (listing ∷ listings) = elim (load_listing listing) [
    | panicked ↦ (current, false)
    | returned new_certs ↦ elim new_certs [
      | none ↦ update current listings
      | some certs ↦ update certs listings
    ]
  ]
