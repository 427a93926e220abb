-- ===== src/Certificates/Files/Named.antt =====
-- Which names a certificate file gives.
use aralez.Prelude.{
  ◌≡◌, refl, sym, ap, ◌⊎◌, ◌↔◌, inl, inr, ◌≢◌, Option, none, some, List, [], ◌∷◌, In, Bool-cases,
  Option-cases, arith, subst, nat_eq, list_eq,
}
use aralez.Text.{Str}
use aralez.Tools.{contains}
use aralez.Tools.Members.{Distinct, contains_iff, In-to_set, to_set-Distinct}
use aralez.Certificates.{CertificateConfig, CertificateInfo}
use aralez.Certificates.Files.{
  X509, Leaf, certificate, not_opened, not_decoded, not_parsed, not_certificate, Crypto, texts,
  without, alternatives, common_names_of, alt_names_of, create_ssl_context, cert_info,
  load_cert_info,
}

In-texts : (name : Str) (names : List (Option Str)) → In name (texts names) ↔ In (some name) names
In-texts name [] = (λ i. i, λ i. i)
In-texts name (none ∷ names) = (
  λ i. inr ((In-texts name names).0 i),
  λ i. elim i [ inl e ↦ absurd (ground arith) | inr j ↦ (In-texts name names).1 j ],
)
In-texts name (some n ∷ names) = (
  λ i. elim i [ inl e ↦ inl (ap some e) | inr j ↦ inr ((In-texts name names).0 j) ],
  λ i. elim i [ inl e ↦ inl (ground arith) | inr j ↦ inr ((In-texts name names).1 j) ],
)

In-without :
    (common_names : List Str) (name : Str) (names : List Str)
    → In name (without common_names names) ↔ (In name names × (¬ (In name common_names)))
unfolding without
In-without common_names name [] = (λ i. absurd i, λ h. absurd h.0)
In-without common_names name (n ∷ names) = elim (Bool-cases (contains common_names n)) [
  | inl old ↦
      rw (old, without)
        (
          λ i. let (j, ne) = (In-without common_names name names).0 i in (inr j, ne),
          λ h. elim h.0 [
            | inl e ↦
                absurd (
                  h.1
                    (subst (λ x. In x common_names) (sym e) ((contains_iff n common_names).0 old)))
            | inr j ↦ (In-without common_names name names).1 (j, h.1)
          ],
        )
  | inr new ↦
      rw (new, without)
        (
          λ i. elim i [
            | inl e ↦ (
              inl e,
              λ m.
                  let m' = subst (λ x. In x common_names) e m in
                  cc (new, (contains_iff n common_names).1 m'),
            )
            | inr j ↦ let (k, ne) = (In-without common_names name names).0 j in (inr k, ne)
          ],
          λ h. elim h.0 [
            | inl e ↦ inl e
            | inr j ↦ inr ((In-without common_names name names).1 (j, h.1))
          ],
        )
]

Leaf-cases :
    {A : Type 0} (leaf : Leaf)
    → ((x509 : X509) × (leaf ≡ certificate x509))
      ⊎ (((x509 : X509) → leaf ≢ certificate x509)
          × ((f : X509 → Option A)
              → elim leaf as (λ _. Option A) [ certificate x509 ↦ f x509 | _ ↦ none ] ≡ none))
Leaf-cases (certificate x509) = inl (x509, refl)
Leaf-cases not_opened = inr (λ x509 e. cc, λ f. refl)
Leaf-cases not_decoded = inr (λ x509 e. cc, λ f. refl)
Leaf-cases not_parsed = inr (λ x509 e. cc, λ f. refl)
Leaf-cases not_certificate = inr (λ x509 e. cc, λ f. refl)

-- A DNS name among the alternative names.
abbrev pub IsAlternative : X509 → Str → Type 0
IsAlternative x509 name =
    (general_names : List (Option Str)) × (x509.alternative_names ≡ some general_names)
    × In (some name) general_names

In-common_names_of :
    (x509 : X509) (name : Str) → In name (common_names_of x509) ↔ In (some name) x509.common_names
unfolding common_names_of
In-common_names_of x509 name =
    let a = In-to_set name (texts x509.common_names) in
    let b = In-texts name x509.common_names in (λ i. b.0 (a.0 i), λ i. a.1 (b.1 i))

In-alternatives :
    (common_names : List Str) (alternative : Option (List (Option Str))) (name : Str)
    → In name (alternatives common_names alternative) ↔ (
        ((general_names : List (Option Str)) × (alternative ≡ some general_names)
          × In (some name) general_names)
        × (¬ (In name common_names)))
unfolding alternatives
In-alternatives common_names none name = (λ i. absurd i, λ h. cc (h.0.1))
In-alternatives common_names (some general_names) name =
    let names = texts general_names in
    let set = In-to_set name (without common_names names) in
    let new = In-without common_names name names in
    let dns = In-texts name general_names in
    (
      λ i. let (j, ne) = new.0 (set.0 i) in ((general_names, refl, dns.0 j), ne),
      λ h.
          let (g, e, j) = h.0 in
          let same : g ≡ general_names = ground arith in
          set.1 (new.1 (dns.1 (subst (In (some name)) same j), h.1)),
    )

alternatives-Distinct :
    (common_names : List Str) (alternative : Option (List (Option Str)))
    → Distinct (alternatives common_names alternative)
unfolding alternatives
alternatives-Distinct common_names none = tt
alternatives-Distinct common_names (some general_names) =
    to_set-Distinct (without common_names (texts general_names))

module _ {SslContext : Type 0} (crypto : Crypto SslContext) where
  -- The names and the context of a certificate that was read from these files.
  pub record IsRead (config : CertificateConfig) (x509 : X509) (info : CertificateInfo SslContext)
      : Type 0 where
    pub context : create_ssl_context crypto config.cert_path config.key_path ≡ some info.ssl_context
    -- The common names, each once.
    pub common : (name : Str) → In name info.common_names ↔ In (some name) x509.common_names
    pub common_once : Distinct info.common_names
    -- The alternative DNS names that are no common names, each once.
    pub alternative :
        (name : Str)
        → In name info.alt_names ↔ (IsAlternative x509 name × (¬ (In name info.common_names)))
    pub alternative_once : Distinct info.alt_names

  cert_info-IsRead :
      (config : CertificateConfig) (x509 : X509) (ctx : SslContext)
      → create_ssl_context crypto config.cert_path config.key_path ≡ some ctx
      → (info : CertificateInfo SslContext) × (cert_info crypto config x509 ≡ some info)
        × IsRead config x509 info
  unfolding cert_info common_names_of
  cert_info-IsRead config x509 ctx e = (
    record {
      common_names = common_names_of x509;
      alt_names = alt_names_of x509;
      ssl_context = ctx;
    },
    rw (e, cert_info) refl,
    record {
      context = e;
      common = λ name. In-common_names_of x509 name;
      common_once = to_set-Distinct (texts x509.common_names);
      alternative = λ name. In-alternatives (common_names_of x509) x509.alternative_names name;
      alternative_once = alternatives-Distinct (common_names_of x509) x509.alternative_names;
    },
  )

  -- Loading a certificate fails exactly if its file does not begin with a certificate that parses,
  -- or no SSL context can be built from it and its key; otherwise it gives the names in the
  -- certificate, each once and none as both a common and an alternative name, and that context.
  pub load_cert_info-IsRead :
      (config : CertificateConfig)
      → ((x509 : X509) × (info : CertificateInfo SslContext) × (crypto.read_leaf config.cert_path
            ≡ certificate x509)
          × (load_cert_info crypto config ≡ some info)
          × IsRead config x509 info)
        ⊎ ((load_cert_info crypto config ≡ none)
            × (((x509 : X509) → crypto.read_leaf config.cert_path ≢ certificate x509)
                ⊎ (create_ssl_context crypto config.cert_path config.key_path ≡ none)))
  unfolding load_cert_info cert_info
  load_cert_info-IsRead config =
      elim (Leaf-cases {A = CertificateInfo SslContext} (crypto.read_leaf config.cert_path)) [
        | inl (x509, e) ↦
            elim (Option-cases (create_ssl_context crypto config.cert_path config.key_path)) [
              | inl f ↦ inr (rw (e, f, load_cert_info, cert_info) refl, inr f)
              | inr (ctx, f) ↦
                  let (info, g, h) = cert_info-IsRead config x509 ctx f in
                  inl (x509, info, e, rw (e, load_cert_info) g, h)
            ]
        | inr (ne, f) ↦ inr (f (cert_info crypto config), inl ne)
      ]
