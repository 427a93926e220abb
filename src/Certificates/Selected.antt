-- ===== src/Certificates/Selected.antt =====
-- Which certificate a server name selects.
use aralez.Prelude.{
  ◌≡◌, refl, ◌∙◌, inl, inr, true, Option, none, some, List, [], ◌∷◌, arith, any, any_elim,
  any_of_In, In, Bool-cases, Option-cases, nat_eq, list_eq, subst,
}
use aralez.Outcome.{returned}
use aralez.Text.{Str}
use aralez.DashMap.{get}
use aralez.Certificates.{
  CertificateConfig, CertificateInfo, Certificates, is_covered, certificates_new, find_wildcard,
  find_ssl_context,
}
use aralez.Certificates.Indexed.{HasName, IsFor, certificates_new-IsIndex}

module _ {SslContext : Type 0} where
  find_wildcard-IsFor :
      (certs : List (CertificateInfo SslContext)) (server_name : Str) (c : SslContext)
      → find_wildcard certs server_name ≡ some c
      → (cert : CertificateInfo SslContext) × In cert certs
        × IsFor cert server_name
        × (cert.ssl_context ≡ c)
  unfolding find_wildcard
  find_wildcard-IsFor [] server_name c e = cc
  find_wildcard-IsFor (cert ∷ certs) server_name c e =
      let covered = is_covered server_name in
      elim (Bool-cases (any covered cert.common_names)) [
        | inl a ↦
            let (name, i, p) = any_elim covered cert.common_names a in
            (cert, inl refl, inr (name, inl i, p), ground arith)
        | inr a ↦ elim (Bool-cases (any covered cert.alt_names)) [
          | inl b ↦
              let (name, i, p) = any_elim covered cert.alt_names b in
              (cert, inl refl, inr (name, inr i, p), ground arith)
          | inr b ↦
              let (x, i, for_name, same) = find_wildcard-IsFor certs server_name c (ground arith) in
              (x, inr i, for_name, same)
        ]
      ]

  find_wildcard-none :
      (certs : List (CertificateInfo SslContext)) (server_name : Str)
      (cert : CertificateInfo SslContext) (name : Str)
      → find_wildcard certs server_name ≡ none
      → In cert certs
      → HasName cert name
      → ¬ (is_covered server_name name ≡ true)
  unfolding find_wildcard
  find_wildcard-none [] server_name cert name e i has covers = absurd i
  find_wildcard-none (c ∷ certs) server_name cert name e i has covers =
      let covered = is_covered server_name in
      elim (Bool-cases (any covered c.common_names)) [
        | inl a ↦ absurd (ground arith)
        | inr a ↦ elim (Bool-cases (any covered c.alt_names)) [
          | inl b ↦ absurd (ground arith)
          | inr b ↦ elim i [
            | inr j ↦ find_wildcard-none certs server_name cert name (ground arith) j has covers
            | inl same ↦ elim (subst (λ x. HasName x name) same has) [
              | inl j ↦ let k = any_of_In covered c.common_names name j covers in cc (k, a)
              | inr j ↦ let k = any_of_In covered c.alt_names name j covers in cc (k, b)
            ]
          ]
        ]
      ]

  -- Once the certificates are loaded, a server name selects the context of one that is for it: for
  -- the name itself or for a wildcard that covers it. It selects none exactly if there is no such
  -- certificate.
  pub find_ssl_context-IsFor :
      (load_cert_info : CertificateConfig → Option (CertificateInfo SslContext))
      (configs : List CertificateConfig) (certs : Certificates SslContext) (server_name : Str)
      → certificates_new load_cert_info configs ≡ returned (some certs)
      → ((c : SslContext)
          → find_ssl_context certs server_name ≡ some c
          → (cert : CertificateInfo SslContext) × In cert certs.configs
            × IsFor cert server_name
            × (cert.ssl_context ≡ c))
        × (find_ssl_context certs server_name ≡ none
            → (cert : CertificateInfo SslContext) → In cert certs.configs
            → ¬ (IsFor cert server_name))
  unfolding find_ssl_context
  find_ssl_context-IsFor load_cert_info configs certs server_name loaded =
      let index = certificates_new-IsIndex load_cert_info configs certs loaded in
      elim (Option-cases (get server_name certs.name_map)) [
        | inr (ctx, e) ↦ (
          λ c f.
              let same : ctx ≡ c = ground arith in
              let (cert, i, has, here) = index.sound server_name ctx e in
              (cert, i, inl has, here ∙ same),
          λ f. absurd (ground arith),
        )
        | inl e ↦ (
          λ c f. find_wildcard-IsFor certs.configs server_name c (ground arith),
          λ f cert i for_name. elim for_name [
            | inl has ↦ let (c, g) = index.complete cert server_name i has in cc (g, e)
            | inr (name, has, covers) ↦
                find_wildcard-none certs.configs server_name cert name (ground arith) i has covers
          ],
        )
      ]
