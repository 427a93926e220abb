-- ===== src/ParceYaml/Load/Laws.antt =====
-- Which configurations a load returns, and what a failed one leaves alone.
use aralez.Prelude.{
  ◌≡◌, refl, sym, ap, ◌∙◌, ◌⊎◌, inl, inr, ◌≢◌, true, Option, none, some, List, ◌==◌, ==_iff, arith,
  nat_eq, list_eq, Bool-cases, subst,
}
use aralez.Text.{Str, bytes}
use aralez.Structs.{Config, Configuration, configuration_default}
use aralez.HealthCheck.{Net}
use aralez.ParceYaml.{Globals, populate_headers_and_auth, populate_file_upstreams}
use aralez.ParceYaml.Load.{
  Result, ok, err, Yaml, Disk, read_source, Source, content, failed, with_conf_files, if_some,
  by_provider, build_configuration, load_configuration,
}

-- A configuration that the background service can start: its provider's section is there.
abbrev pub IsStartable : Configuration → Type 0
IsStartable c =
    (c.typecfg ≡ bytes "file")
    ⊎ ((c.typecfg ≡ bytes "consul") × (c.consul ≢ none))
    ⊎ ((c.typecfg ≡ bytes "kubernetes") × (c.kubernetes ≢ none))

populate-typecfg :
    (net : Net) (config : Configuration) (parsed : Config) (g : Globals)
    → (populate_file_upstreams net config parsed g).0.typecfg ≡ config.typecfg
unfolding populate_file_upstreams
populate-typecfg net config parsed g = ground arith

pub Source-cases :
    (s : Source)
    → ((message : Str) × (s ≡ failed message))
      ⊎ ((text : Str) × (files : List Str) × (g : Globals) × (s ≡ content text files g))
Source-cases (failed message) = inl (message, refl)
Source-cases (content text files g) = inr (text, files, g, refl)

pub Result-cases :
    {A : Type 0} (r : Result A) → ((message : Str) × (r ≡ err message)) ⊎ ((a : A) × (r ≡ ok a))
Result-cases (err message) = inl (message, refl)
Result-cases (ok a) = inr (a, refl)

-- What `then_some` returns.
pub if_some-eq :
    {A : Type 0} (o : Option A) (w c : Configuration) → if_some o w ≡ some c → (o ≢ none) × (w ≡ c)
if_some-eq none w c h = cc
if_some-eq (some a) w c h = (λ e. cc, ground arith)

module _ (net : Net) (parsed : Config) (w : Configuration) (named : w.typecfg ≡ parsed.provider)
    (g : Globals) (c : Configuration) where
  file-IsStartable :
      (parsed.provider == bytes "file") ≡ true
      → (by_provider net parsed w g).0 ≡ some c
      → c.typecfg ≡ bytes "file"
  unfolding by_provider
  file-IsStartable file h =
      let same : (populate_file_upstreams net w parsed g).0 ≡ c = ground arith in
      ap (λ (x : Configuration). x.typecfg) (sym same)
      ∙ (populate-typecfg net w parsed g ∙ (named ∙ (==_iff parsed.provider (bytes "file")).0 file))

  by_provider-IsStartable : (by_provider net parsed w g).0 ≡ some c → IsStartable c
  unfolding by_provider
  by_provider-IsStartable h = elim (Bool-cases (parsed.provider == bytes "file")) [
    | inl file ↦ inl (file-IsStartable file h)
    | inr not_file ↦ elim (Bool-cases (parsed.provider == bytes "consul")) [
      | inl consul ↦
          let provider = (==_iff parsed.provider (bytes "consul")).0 consul in
          let (there, same) =
            if_some-eq parsed.consul (record w { consul = parsed.consul }) c (ground arith) in
          inr (
            inl (
              ap (λ (x : Configuration). x.typecfg) (sym same) ∙ (named ∙ provider),
              subst (λ o. o ≢ none) (ap (λ (x : Configuration). x.consul) same) there,
            ))
      | inr not_consul ↦ elim (Bool-cases (parsed.provider == bytes "kubernetes")) [
        | inl kubernetes ↦
            let provider = (==_iff parsed.provider (bytes "kubernetes")).0 kubernetes in
            let (there, same) =
              if_some-eq parsed.kubernetes (record w { kubernetes = parsed.kubernetes }) c
                (ground arith) in
            inr (
              inr (
                ap (λ (x : Configuration). x.typecfg) (sym same) ∙ (named ∙ provider),
                subst (λ o. o ≢ none) (ap (λ (x : Configuration). x.kubernetes) same) there,
              ))
        | inr not_kubernetes ↦ absurd (ground arith)
      ]
    ]
  ]

-- A configuration that a load returns can be started: its provider is `file`, or it is `consul` or
-- `kubernetes` and the configuration has that provider's section.
pub load_configuration-IsStartable :
    (net : Net) (y : Yaml) (disk : Disk) (d kind : Str) (g : Globals) (c : Configuration)
    → (load_configuration net y disk d kind g).0 ≡ some c
    → IsStartable c
unfolding load_configuration
load_configuration-IsStartable net y disk d kind g c h =
    elim (Source-cases (read_source disk d kind g)) [
      | inl (message, e) ↦ absurd (ground arith)
      | inr (text, files, g', e) ↦ elim (Result-cases (y.config text)) [
        | inl (message, f) ↦ absurd (ground arith)
        | inr (parsed, f) ↦ elim (Result-cases (with_conf_files y parsed files)) [
          | inl (message, k) ↦ absurd (ground arith)
          | inr (full, k) ↦
              by_provider-IsStartable net full
                (record (populate_headers_and_auth configuration_default full) {
                  typecfg = full.provider;
                })
                refl g' c (unfold build_configuration in ground arith)
        ]
      ]
    ]
