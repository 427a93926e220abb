-- ===== src/Certificates/Tests.antt =====
-- The theorem on src/tls/load.rs at one certificate with a wildcard.
use aralez.Prelude.{
  ℕ, ◌+◌, ◌≢◌, ◌⊎◌, inl, true, All, ◌≡◌, refl, some, none, [], ◌∷◌, In, list_beq, nat_eq, list_eq,
}
use aralez.Samples.{app_config}
use aralez.Text.{Str}
use aralez.ParceYaml.Load.{parce_main_config}
use aralez.Certificates.Grades.{from_str, grade_of, SslVersion, tls1, set_both, set_tsl_grade}
use aralez.Certificates.Grades.Detected.{
  named, lowest_version, allowed_ciphers, set_tsl_grade-named,
}
use aralez.Outcome.{returned}
use aralez.Text.{bytes, starts_with, ends_with}
use aralez.DashMap.{get, insert}
use aralez.Certificates.{
  CertificateConfig, CertificateInfo, Certificates, insert_names, load_all, certificates_new,
  find_wildcard, find_ssl_context,
}
use aralez.Certificates.Files.{X509, certificate, Crypto, create_ssl_context, load_cert_info}
use aralez.Certificates.Files.Named.{IsRead, load_cert_info-IsRead}
use aralez.Certificates.Updates.{Listing, load_listing, update}
use aralez.Certificates.Updates.Latest.{IsFilled, update-latest}
use aralez.Certificates.Indexed.{IsFor}
use aralez.Certificates.Selected.{find_ssl_context-IsFor}

-- A number stands for an SSL context.
abbrev info : CertificateInfo ℕ
info = record { common_names = bytes "x.io" ∷ []; alt_names = bytes "*.x.io" ∷ []; ssl_context = 7 }

abbrev config : CertificateConfig
config = record { cert_path = bytes "x.crt"; key_path = bytes "x.key" }

abbrev certs : Certificates ℕ
certs = record {
  configs = info ∷ [];
  name_map = (bytes "x.io", 7) ∷ (bytes "*.x.io", 7) ∷ [];
  default_cert_path = bytes "x.crt";
  default_key_path = bytes "x.key";
}

certificates_new_run : certificates_new (λ c. some info) (config ∷ []) ≡ returned (some certs)
unfolding certificates_new load_all insert_names insert list_beq
certificates_new_run = refl

wildcard_run : find_ssl_context certs (bytes "www.x.io") ≡ some 7
unfolding find_ssl_context find_wildcard get list_beq starts_with ends_with
wildcard_run = refl

find_ssl_context-IsFor_example :
    ((c : ℕ)
      → find_ssl_context certs (bytes "www.x.io") ≡ some c
      → (cert : CertificateInfo ℕ) × In cert certs.configs
        × IsFor cert (bytes "www.x.io")
        × (cert.ssl_context ≡ c))
    × (find_ssl_context certs (bytes "www.x.io") ≡ none
        → (cert : CertificateInfo ℕ) → In cert certs.configs
        → ¬ (IsFor cert (bytes "www.x.io")))
find_ssl_context-IsFor_example =
    find_ssl_context-IsFor (λ c. some info) (config ∷ []) certs (bytes "www.x.io")
      certificates_new_run

-- One listing that loads, one that does not, and one of an empty folder.
abbrev loads : Listing ℕ
loads = record { load_cert_info = λ c. some info; configs = config ∷ [] }

abbrev fails : Listing ℕ
fails = record { load_cert_info = λ c. none; configs = config ∷ [] }

abbrev empty : Listing ℕ
empty = record { load_cert_info = λ c. some info; configs = [] }

abbrev old : Certificates ℕ
old = record { configs = []; name_map = []; default_cert_path = []; default_key_path = [] }

filled : All IsFilled (fails ∷ [])
filled = (λ e. cc, tt)

update-latest_example : update old (fails ∷ loads ∷ fails ∷ []) ≡ (certs, true)
unfolding load_listing certificates_new load_all insert_names insert list_beq
update-latest_example =
    update-latest old certs (fails ∷ []) loads (fails ∷ []) filled refl
      ((config, inl refl, refl), tt)

abbrev crypto : Crypto ℕ
crypto = record {
  read_leaf = λ path. certificate (record {
    common_names = some (bytes "x.io") ∷ [];
    alternative_names = some (some (bytes "x.io") ∷ some (bytes "*.x.io") ∷ none ∷ []);
  });
  builder = some 0;
  set_certificate_chain_file = λ path ctx. some (ctx + 1);
  set_private_key_file = λ path ctx. some (ctx + 2);
  set_alpn = λ ctx. ctx + 4;
}

load_cert_info-IsRead_example :
    ((x509 : X509) × (info : CertificateInfo ℕ) × (crypto.read_leaf config.cert_path
        ≡ certificate x509)
      × (load_cert_info crypto config ≡ some info)
      × IsRead crypto config x509 info)
    ⊎ ((load_cert_info crypto config ≡ none)
        × (((x509 : X509) → crypto.read_leaf config.cert_path ≢ certificate x509)
            ⊎ (create_ssl_context crypto config.cert_path config.key_path ≡ none)))
load_cert_info-IsRead_example = load_cert_info-IsRead crypto config

abbrev set_version : SslVersion → SslVersion × Str → SslVersion × Str
set_version version t = (version, t.1)

abbrev set_list : Str → SslVersion × Str → SslVersion × Str
set_list list t = (t.0, list)

set_tsl_grade-named_example :
    (let cfg =
        parce_main_config none (record app_config { proxy_tls_grade = some (bytes "UnSafe") }) in
      (from_str (grade_of cfg) ≡ some (named (some (bytes "UnSafe"))))
      × (set_tsl_grade set_version set_list (grade_of cfg) (tls1, [])
          ≡ set_both set_version set_list
              (lowest_version (named (some (bytes "UnSafe"))))
              (allowed_ciphers (named (some (bytes "UnSafe"))))
              (tls1, [])))
set_tsl_grade-named_example =
    set_tsl_grade-named set_version set_list none
      (record app_config { proxy_tls_grade = some (bytes "UnSafe") }) (tls1, [])
