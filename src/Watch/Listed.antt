-- ===== src/Watch/Listed.antt =====
-- Which certificates `listdir` finds in a folder.
use mathlib.Core.List
use aralez.Prelude.{
  ◌≡◌, refl, sym, ap, ◌∙◌, ◌↔◌, inl, inr, true, false, some, List, [], ◌∷◌, ◌++◌, In, All, map,
  Bool-cases, length, if◌then◌else◌, subst, arith,
}
use aralez.Outcome.{Outcome, panicked, returned, ◌>>=◌}
use aralez.Text.{Str, bytes, ends_with, find_str, replace}
use aralez.Text.Laws.{ends_with-append, ends_with-split, replace-suffix}
use aralez.Certificates.{CertificateConfig}
use aralez.Watch.{listdir}

abbrev pub crt : Str
crt = bytes ".crt"

-- A path has ".crt" nowhere but at its end.
abbrev pub IsPlain : Str → Type 0
IsPlain path = (stem : Str) → path ≡ stem ++ crt → find_str crt path ≡ some (length stem)

-- The certificate and the key that a path without ".crt" names.
abbrev pub pair_of : Str → CertificateConfig
pair_of stem = record { cert_path = stem ++ crt; key_path = stem ++ bytes ".key" }

-- What is to be found among these paths.
abbrev pub IsListed : List Str → CertificateConfig → Type 0
IsListed paths config = (stem : Str) × In (stem ++ crt) paths × (config ≡ pair_of stem)

abbrev Lists : List Str → Outcome (List CertificateConfig) → Type 0
Lists paths panicked = ⊥
Lists paths (returned configs) =
    (config : CertificateConfig) → In config configs ↔ IsListed paths config

-- One more path that is a certificate's.
Lists-cons :
    (paths : List Str) (configs : List CertificateConfig) (path stem : Str)
    → path ≡ stem ++ crt
    → Lists paths (returned configs)
    → Lists (path ∷ paths) (returned (pair_of stem ∷ configs))
Lists-cons paths configs path stem split h config = (
  λ i. elim i [
    | inl e ↦ (stem, inl (sym split), e)
    | inr j ↦ let (s, k, e) = (h config).0 j in (s, inr k, e)
  ],
  λ l.
      let (s, i, e) = l in
      elim i [
        | inl same ↦ inl (e ∙ ap pair_of (List.append_cancel_right s stem crt (same ∙ split)))
        | inr k ↦ inr ((h config).1 (s, k, e))
      ],
)

-- One more path that is not.
Lists-skip :
    (paths : List Str) (configs : List CertificateConfig) (path : Str)
    → ends_with crt path ≡ false
    → Lists paths (returned configs)
    → Lists (path ∷ paths) (returned configs)
Lists-skip paths configs path other h config = (
  λ i. let (s, k, e) = (h config).0 i in (s, inr k, e),
  λ l.
      let (s, i, e) = l in
      elim i [
        | inl same ↦
            let ends : ends_with crt path ≡ true =
              subst (λ p. ends_with crt p ≡ true) same (ends_with-append crt s) in
            absurd (ground arith)
        | inr k ↦ (h config).1 (s, k, e)
      ],
)

Lists-step :
    (path : Str) (paths : List Str) (listed : Outcome (List CertificateConfig))
    → IsPlain path
    → Lists paths listed
    → Lists (path ∷ paths) (
        listed >>= λ configs.
        returned (if ends_with crt path then pair_of (replace crt [] path) ∷ configs else configs))
Lists-step path paths panicked plain h = elim h [ ]
Lists-step path paths (returned configs) plain h = elim (Bool-cases (ends_with crt path)) [
  | inr other ↦ rw other (Lists-skip paths configs path other h)
  | inl e ↦
      let (stem, split) = ends_with-split crt path e in
      let only : find_str crt (stem ++ crt) ≡ some (length stem) =
        subst (λ p. find_str crt p ≡ some (length stem)) split (plain stem split) in
      let name : replace crt [] path ≡ stem =
        ap (replace crt []) split ∙ replace-suffix b'.' (bytes "crt") stem only in
      rw (e, name) (Lists-cons paths configs path stem split h)
]

listdir-Lists : (paths : List Str) → All IsPlain paths → Lists paths (listdir (map some paths))
unfolding listdir
listdir-Lists [] plain = λ config. (λ i. elim i [ ], λ l. elim l.1 [ ])
listdir-Lists (path ∷ paths) (here, plain) =
    Lists-step path paths (listdir (map some paths)) here (listdir-Lists paths plain)

returned_as :
    (paths : List Str) (listed : Outcome (List CertificateConfig))
    → Lists paths listed
    → (configs : List CertificateConfig) × (listed ≡ returned configs)
      × ((config : CertificateConfig) → In config configs ↔ IsListed paths config)
returned_as paths panicked h = elim h [ ]
returned_as paths (returned configs) h = (configs, refl, h)

-- Where no path of a folder has ".crt" anywhere but at its end, `listdir` does not panic and lists
-- one pair of a certificate and a key for each path that ends in ".crt", and no other: that path,
-- and the one with ".key" in its place.
pub listdir-IsListed :
    (paths : List Str)
    → All IsPlain paths
    → (configs : List CertificateConfig) × (listdir (map some paths) ≡ returned configs)
      × ((config : CertificateConfig) → In config configs ↔ IsListed paths config)
listdir-IsListed paths plain =
    returned_as paths (listdir (map some paths)) (listdir-Lists paths plain)
