-- ===== src/Certificates/Indexed.antt =====
-- The map of names that `Certificates::new` builds.
use aralez.Prelude.{
  ◌≡◌, refl, sym, ◌∙◌, ◌⊎◌, inl, inr, true, Option, some, List, [], ◌∷◌, ◌++◌, ◌==◌, ==_iff, arith,
  In, In-append_left, In-append_right, Bool-cases, Option-cases, nat_eq, list_eq, subst,
}
use aralez.Outcome.{returned}
use aralez.Text.{Str}
use aralez.DashMap.{DashMap, get, insert}
use aralez.DashMap.Laws.{get-insert, get-insert_self}
use aralez.Certificates.{
  CertificateConfig, CertificateInfo, Certificates, is_covered, insert_names, load_all,
  certificates_new,
}

module _ {SslContext : Type 0} where
  -- The certificate is for this name, as a common name or an alternative one.
  abbrev pub HasName : CertificateInfo SslContext → Str → Type 0
  HasName cert name = In name cert.common_names ⊎ In name cert.alt_names

  -- The certificate is for the name itself or for a wildcard that covers it.
  abbrev pub IsFor : CertificateInfo SslContext → Str → Type 0
  IsFor cert server_name =
      HasName cert server_name
      ⊎ ((name : Str) × HasName cert name × (is_covered server_name name ≡ true))

  get-insert_names :
      (ctx : SslContext) (names : List Str) (m : DashMap Str SslContext) (k : Str) (c : SslContext)
      → get k (insert_names ctx names m) ≡ some c
      → (In k names × (ctx ≡ c)) ⊎ (get k m ≡ some c)
  unfolding insert_names
  get-insert_names ctx [] m k c e = inr e
  get-insert_names ctx (name ∷ names) m k c e =
      elim (get-insert_names ctx names (insert name ctx m) k c e) [
        | inl (i, same) ↦ inl (inr i, same)
        | inr f ↦ elim (Bool-cases (name == k)) [
          | inr other ↦ inr (sym (get-insert name k ctx m ∙ rw other refl) ∙ f)
          | inl same ↦
              inl (inl (sym ((==_iff name k).0 same)), ground (arith, get-insert name k ctx m))
        ]
      ]

  abbrev pub Has : Str → DashMap Str SslContext → Type 0
  Has k m = (c : SslContext) × (get k m ≡ some c)

  insert_names-keeps_Has :
      (ctx : SslContext) (names : List Str) (m : DashMap Str SslContext) (k : Str)
      → Has k m
      → Has k (insert_names ctx names m)
  unfolding insert_names
  insert_names-keeps_Has ctx [] m k h = h
  insert_names-keeps_Has ctx (name ∷ names) m k (c, e) =
      insert_names-keeps_Has ctx names (insert name ctx m) k (elim (Bool-cases (name == k)) [
        | inl same ↦ (ctx, get-insert name k ctx m ∙ rw same refl)
        | inr other ↦ (c, get-insert name k ctx m ∙ rw other e)
      ])

  insert_names-Has :
      (ctx : SslContext) (names : List Str) (m : DashMap Str SslContext) (k : Str)
      → In k names
      → Has k (insert_names ctx names m)
  unfolding insert_names
  insert_names-Has ctx [] m k i = absurd i
  insert_names-Has ctx (name ∷ names) m k (inl e) =
      insert_names-keeps_Has ctx names (insert name ctx m) k
        (subst (λ x. Has x (insert name ctx m)) (sym e) (ctx, get-insert_self name ctx m))
  insert_names-Has ctx (name ∷ names) m k (inr i) =
      insert_names-Has ctx names (insert name ctx m) k i

  -- The map has the names of the certificates, each with the context of one that is for it.
  pub record IsIndex (certs : List (CertificateInfo SslContext)) (m : DashMap Str SslContext)
      : Type 0 where
    pub sound :
        (k : Str) (c : SslContext)
        → get k m ≡ some c
        → (cert : CertificateInfo SslContext) × In cert certs
          × HasName cert k
          × (cert.ssl_context ≡ c)
    pub complete :
        (cert : CertificateInfo SslContext) (k : Str) → In cert certs → HasName cert k → Has k m

  abbrev with_names : CertificateInfo SslContext → DashMap Str SslContext → DashMap Str SslContext
  with_names cert m =
      insert_names cert.ssl_context cert.alt_names
        (insert_names cert.ssl_context cert.common_names m)

  In-last :
      (certs : List (CertificateInfo SslContext)) (cert x : CertificateInfo SslContext)
      → In x (certs ++ cert ∷ [])
      → In x certs ⊎ (x ≡ cert)
  In-last [] cert x (inl e) = inr e
  In-last [] cert x (inr i) = absurd i
  In-last (c ∷ certs) cert x (inl e) = inl (inl e)
  In-last (c ∷ certs) cert x (inr i) = elim (In-last certs cert x i) [
    | inl j ↦ inl (inr j)
    | inr e ↦ inr e
  ]

  with_names-IsIndex :
      (certs : List (CertificateInfo SslContext)) (cert : CertificateInfo SslContext)
      (m : DashMap Str SslContext)
      → IsIndex certs m
      → IsIndex (certs ++ cert ∷ []) (with_names cert m)
  with_names-IsIndex certs cert m index =
      let ctx = cert.ssl_context in
      let common = insert_names ctx cert.common_names m in
      let here = In-append_right cert certs (cert ∷ []) (inl refl) in
      record {
        sound = λ k c e. elim (get-insert_names ctx cert.alt_names common k c e) [
          | inl (i, same) ↦ (cert, here, inr i, same)
          | inr f ↦ elim (get-insert_names ctx cert.common_names m k c f) [
            | inl (i, same) ↦ (cert, here, inl i, same)
            | inr g ↦
                let (x, i, has, same) = index.sound k c g in
                (x, In-append_left x certs (cert ∷ []) i, has, same)
          ]
        ];
        complete = λ x k i has. elim (In-last certs cert x i) [
          | inl j ↦
              insert_names-keeps_Has ctx cert.alt_names common k
                (insert_names-keeps_Has ctx cert.common_names m k (index.complete x k j has))
          | inr e ↦ elim (subst (λ y. HasName y k) e has) [
            | inl j ↦
                insert_names-keeps_Has ctx cert.alt_names common k
                  (insert_names-Has ctx cert.common_names m k j)
            | inr j ↦ insert_names-Has ctx cert.alt_names common k j
          ]
        ];
      }

  module _ (load_cert_info : CertificateConfig → Option (CertificateInfo SslContext)) where
    load_all-IsIndex :
        (configs : List CertificateConfig) (certs : List (CertificateInfo SslContext))
        (m : DashMap Str SslContext)
        (r : List (CertificateInfo SslContext) × DashMap Str SslContext)
        → IsIndex certs m
        → load_all load_cert_info configs certs m ≡ some r
        → IsIndex r.0 r.1
    unfolding load_all
    load_all-IsIndex [] certs m r index e =
        let same : (certs, m) ≡ r = cc in subst (λ t. IsIndex t.0 t.1) same index
    load_all-IsIndex (config ∷ configs) certs m r index e =
        elim (Option-cases (load_cert_info config)) [
          | inl f ↦ absurd (ground arith)
          | inr (cert, f) ↦
              load_all-IsIndex configs (certs ++ cert ∷ []) (with_names cert m) r
                (with_names-IsIndex certs cert m index) (rw (f, load_all) at e)
        ]

    pub certificates_new-IsIndex :
        (configs : List CertificateConfig) (certs : Certificates SslContext)
        → certificates_new load_cert_info configs ≡ returned (some certs)
        → IsIndex certs.configs certs.name_map
    unfolding certificates_new get
    certificates_new-IsIndex [] certs e = cc
    certificates_new-IsIndex (config ∷ configs) certs e =
        elim (Option-cases (load_all load_cert_info (config ∷ configs) [] [])) [
          | inl f ↦ absurd (ground arith)
          | inr (r, f) ↦
              let index =
                load_all-IsIndex (config ∷ configs) [] [] r
                  (record { sound = λ k c g. cc; complete = λ cert k i has. absurd i }) f in
              let same : r ≡ (certs.configs, certs.name_map) = ground arith in
              subst (λ t. IsIndex t.0 t.1) same index
        ]
