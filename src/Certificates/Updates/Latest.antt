-- ===== src/Certificates/Updates/Latest.antt =====
-- Which certificates are in use after the folder has changed.
use aralez.Prelude.{
  ◌≡◌, refl, ap, ◌∙◌, inl, inr, true, Option, none, some, List, [], ◌∷◌, ◌++◌, In, All,
  Option-cases, ◌≢◌,
}
use aralez.Text.{Str}
use aralez.DashMap.{DashMap}
use aralez.Outcome.{returned}
use aralez.Certificates.{
  CertificateConfig, CertificateInfo, Certificates, insert_names, load_all, certificates_new,
}
use aralez.Certificates.Updates.{Listing, load_listing, update}

module _ {SslContext : Type 0} where
  -- The folder held certificates when it was listed.
  abbrev pub IsFilled : Listing SslContext → Type 0
  IsFilled listing = listing.configs ≢ []

  -- One of the certificates of a list cannot be loaded.
  abbrev pub IsBroken : Listing SslContext → Type 0
  IsBroken listing =
      (config : CertificateConfig) × In config listing.configs
      × (listing.load_cert_info config ≡ none)

  load_all-broken :
      (load : CertificateConfig → Option (CertificateInfo SslContext))
      (configs : List CertificateConfig) (infos : List (CertificateInfo SslContext))
      (m : DashMap Str SslContext) (config : CertificateConfig)
      → In config configs
      → load config ≡ none
      → load_all load configs infos m ≡ none
  unfolding load_all
  load_all-broken load [] infos m config i e = absurd i
  load_all-broken load (c ∷ configs) infos m config i e = elim (Option-cases (load c)) [
    | inl f ↦ rw (f, load_all) refl
    | inr (info, f) ↦ elim i [
      | inl same ↦ cc (ap load same)
      | inr j ↦
          rw (f, load_all)
            (load_all-broken load configs (infos ++ info ∷ [])
              (insert_names info.ssl_context info.alt_names
                (insert_names info.ssl_context info.common_names m))
              config j e)
    ]
  ]

  new-broken :
      (load : CertificateConfig → Option (CertificateInfo SslContext))
      (configs : List CertificateConfig) (config : CertificateConfig)
      → In config configs
      → load config ≡ none
      → certificates_new load configs ≡ returned none
  unfolding certificates_new
  new-broken load [] config i e = absurd i
  new-broken load (c ∷ configs) config i e =
      rw (load_all-broken load (c ∷ configs) [] [] config i e) refl

  load_listing-broken :
      (listing : Listing SslContext) → IsBroken listing → load_listing listing ≡ returned none
  unfolding load_listing
  load_listing-broken listing (config, i, e) =
      new-broken listing.load_cert_info listing.configs config i e

  new-filled :
      (load : CertificateConfig → Option (CertificateInfo SslContext))
      (configs : List CertificateConfig)
      → configs ≢ []
      → (o : Option (Certificates SslContext)) × (certificates_new load configs ≡ returned o)
  unfolding certificates_new
  new-filled load [] ne = absurd (ne refl)
  new-filled load (c ∷ configs) ne = (_, refl)

  update-filled :
      (current : Certificates SslContext) (before listings : List (Listing SslContext))
      → All IsFilled before
      → update current (before ++ listings) ≡ update (update current before).0 listings
  unfolding update load_listing
  update-filled current [] listings h = refl
  update-filled current (listing ∷ before) listings (filled, h) =
      let (o, e) = new-filled listing.load_cert_info listing.configs filled in
      elim (Option-cases o) [
        | inl f ↦ rw (e, f, update, load_listing) (update-filled current before listings h)
        | inr (certs, f) ↦ rw (e, f, update, load_listing) (update-filled certs before listings h)
      ]

  update-broken :
      (current : Certificates SslContext) (listings : List (Listing SslContext))
      → All IsBroken listings
      → update current listings ≡ (current, true)
  unfolding update
  update-broken current [] h = refl
  update-broken current (listing ∷ listings) (b, h) =
      rw (load_listing-broken listing b, update) (update-broken current listings h)

  -- As long as the folder held certificates at every listing, those in use are the ones of the last
  -- listing that loads: it replaces what was there, and later listings with a certificate that does
  -- not load change nothing.
  pub update-latest :
      (current certs : Certificates SslContext) (before : List (Listing SslContext))
      (listing : Listing SslContext) (after : List (Listing SslContext))
      → All IsFilled before
      → load_listing listing ≡ returned (some certs)
      → All IsBroken after
      → update current (before ++ listing ∷ after) ≡ (certs, true)
  unfolding update
  update-latest current certs before listing after h e broken =
      update-filled current before (listing ∷ after) h
      ∙ rw (e, update) (update-broken certs after broken)
