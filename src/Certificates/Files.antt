-- ===== src/Certificates/Files.antt =====
-- `load_cert_info`, `create_ssl_context` and `server_name_callback` of src/tls/load.rs. Reading PEM
-- and X.509 and building SSL contexts are crates' and stand in `Crypto`.
pub mod Named
use aralez.Prelude.{
  Bool, true, false, not, Option, none, some, List, [], ◌∷◌, filter_map, nat_eq, list_eq,
  if◌then◌else◌,
}
use mathlib.Core.Option
use aralez.Text.{Str}
use aralez.Tools.{contains, to_set}
use aralez.Certificates.{CertificateConfig, CertificateInfo, Certificates, find_ssl_context}

-- The names in a certificate: each common name, if it is a text, and the general names of the
-- alternative names, of which only the DNS names are kept.
pub record X509 : Type 0 where
  pub common_names : List (Option Str)
  -- There are none where the extension is missing or invalid.
  pub alternative_names : Option (List (Option Str))

-- What `File::open`, `read_one` and `X509Certificate::from_der` find in a certificate file.
pub data Leaf : Type 0 where
  not_opened not_decoded not_parsed not_certificate : Leaf
  certificate : X509 → Leaf

pub record Crypto (SslContext : Type 0) : Type 0 where
  pub read_leaf : Str → Leaf
  pub builder : Option SslContext
  pub set_certificate_chain_file : Str → SslContext → Option SslContext
  pub set_private_key_file : Str → SslContext → Option SslContext
  -- `set_alpn_select_callback(prefer_h2)`
  pub set_alpn : SslContext → SslContext

-- The members of a list that are texts.
abbrev pub texts : List (Option Str) → List Str
texts names = filter_map (λ n. n) names

unfoldable pub without : List Str → List Str → List Str
without common_names [] = []
without common_names (dns ∷ names) =
    let rest = without common_names names in
    if not (contains common_names dns) then dns ∷ rest else rest

unfoldable pub common_names_of : X509 → List Str
common_names_of x509 = to_set (texts x509.common_names)

unfoldable pub alternatives : List Str → Option (List (Option Str)) → List Str
alternatives common_names none = []
alternatives common_names (some general_names) = to_set (without common_names (texts general_names))

abbrev pub alt_names_of : X509 → List Str
alt_names_of x509 = alternatives (common_names_of x509) x509.alternative_names

module _ {SslContext : Type 0} (crypto : Crypto SslContext) where
  unfoldable pub create_ssl_context : Str → Str → Option SslContext
  create_ssl_context cert_path key_path = elim crypto.builder [
    | none ↦ none
    | some ctx ↦ elim (crypto.set_certificate_chain_file cert_path ctx) [
      | none ↦ none
      | some ctx ↦ Option.map crypto.set_alpn (crypto.set_private_key_file key_path ctx)
    ]
  ]

  -- Once the certificate is read.
  unfoldable pub cert_info : CertificateConfig → X509 → Option (CertificateInfo SslContext)
  cert_info config x509 =
      Option.map
        (λ ssl_context. record {
          common_names = common_names_of x509;
          alt_names = alt_names_of x509;
          ssl_context = ssl_context;
        })
        (create_ssl_context config.cert_path config.key_path)

  unfoldable pub load_cert_info : CertificateConfig → Option (CertificateInfo SslContext)
  load_cert_info config = elim (crypto.read_leaf config.cert_path) [
    | certificate x509 ↦ cert_info config x509
    | _ ↦ none
  ]

-- Whether the handshake goes on, and its context; `accepts` tells whether `set_ssl_context`
-- succeeds, and `current` is the context before the call.
unfoldable pub server_name_callback :
    {SslContext : Type 0}
    → Certificates SslContext
    → (SslContext → Bool)
    → Option Str
    → SslContext
    → Bool × SslContext
server_name_callback certs accepts server_name current = elim server_name [
  | none ↦ (true, current)
  | some name ↦ elim (find_ssl_context certs name) [
    | none ↦ (true, current)
    | some ctx ↦ if accepts ctx then (true, ctx) else (false, current)
  ]
]
