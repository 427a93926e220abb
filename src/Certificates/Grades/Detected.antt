-- ===== src/Certificates/Grades/Detected.antt =====
-- Which grade a configuration comes to.
use aralez.Prelude.{
  ◌≡◌, refl, Option, none, some, ◌==◌, ==_iff, nat_eq, list_eq, list_beq, if◌then◌else◌, Bool-cases,
  inl, inr, false,
}
use aralez.Text.{Str, bytes, to_ascii_lowercase}
use aralez.Structs.{AppConfig}
use aralez.ParceYaml.{parce_tls_grades}
use aralez.ParceYaml.Load.{parce_main_config}
use aralez.Certificates.Grades.{
  TlsGrade, high, medium, legacy, from_str, grade_of, SslVersion, tls1_2, tls1, ssl3, ciphers,
  set_both, set_tsl_grade,
}

-- The grade that a text stands for, whatever its case; any other text means medium.
abbrev pub named : Option Str → TlsGrade
named none = medium
named (some g) =
    let l = to_ascii_lowercase g in
    if l == bytes "high" then high else if l == bytes "unsafe" then legacy else medium

distinct : (bytes "unsafe" == bytes "medium") ≡ false
unfolding list_beq
distinct = refl

clash : (l : Str) → l ≡ bytes "unsafe" → (l == bytes "medium") ≡ false
clash l e = rw e distinct

grades :
    (from_str (bytes "high") ≡ some high)
    × (from_str (bytes "medium") ≡ some medium)
    × (from_str (bytes "unsafe") ≡ some legacy)
unfolding from_str to_ascii_lowercase list_beq
grades = (refl, refl, refl)

abbrev Detected : Option Str → Type 0
Detected o = (text : Str) × (parce_tls_grades o ≡ some text) × (from_str text ≡ some (named o))

parce_tls_grades-Detected : (o : Option Str) → Detected o
unfolding parce_tls_grades
parce_tls_grades-Detected none = (bytes "medium", refl, grades.1)
parce_tls_grades-Detected (some g) =
    let l = to_ascii_lowercase g in
    elim (Bool-cases (l == bytes "high")) [
      | inl h ↦ (bytes "high", rw h refl, rw h (grades.0))
      | inr not_h ↦ elim (Bool-cases (l == bytes "unsafe")) [
        | inl u ↦ elim (Bool-cases (l == bytes "medium")) [
          | inl m ↦ absurd (cc (clash l ((==_iff l (bytes "unsafe")).0 u), m))
          | inr not_m ↦ (bytes "unsafe", rw (not_h, not_m, u) refl, rw (not_h, u) (grades.2))
        ]
        | inr not_u ↦ (
          bytes "medium",
          elim (Bool-cases (l == bytes "medium")) [
            | inl m ↦ rw (not_h, m) refl
            | inr not_m ↦ rw (not_h, not_m, not_u) refl
          ],
          rw (not_h, not_u) (grades.1),
        )
      ]
    ]

abbrev pub lowest_version : TlsGrade → SslVersion
lowest_version high = tls1_2
lowest_version medium = tls1
lowest_version legacy = ssl3

abbrev pub allowed_ciphers : TlsGrade → Str
allowed_ciphers high = ciphers.high
allowed_ciphers medium = ciphers.medium
allowed_ciphers legacy = ciphers.legacy

module _ {TlsSettings : Type 0} (set_min_proto_version : SslVersion → TlsSettings → TlsSettings)
    (set_cipher_list : Str → TlsSettings → TlsSettings) where
  set_tsl_grade-from_str :
      (text : Str) (grade : TlsGrade) (t : TlsSettings)
      → from_str text ≡ some grade
      → set_tsl_grade set_min_proto_version set_cipher_list text t
        ≡ set_both set_min_proto_version set_cipher_list
            (lowest_version grade)
            (allowed_ciphers grade)
            t
  unfolding set_tsl_grade
  set_tsl_grade-from_str text high t e = rw (e, set_tsl_grade) refl
  set_tsl_grade-from_str text medium t e = rw (e, set_tsl_grade) refl
  set_tsl_grade-from_str text legacy t e = rw (e, set_tsl_grade) refl

-- However the configured TLS grade is spelled, `parce_main_config` leaves one that is detected, so
-- that the fallback for an unknown grade is never taken. TLS 1.2 is then the lowest version where
-- the text is "high" in any case of letters, SSL 3 where it is "unsafe", and TLS 1 everywhere else,
-- each with the ciphers of its grade.
pub set_tsl_grade-named :
    {TlsSettings : Type 0} (set_min_proto_version : SslVersion → TlsSettings → TlsSettings)
    (set_cipher_list : Str → TlsSettings → TlsSettings) (jwt_key : Option Str) (cfo : AppConfig)
    (t : TlsSettings)
    → (let cfg = parce_main_config jwt_key cfo in
        let grade = named cfo.proxy_tls_grade in
        (from_str (grade_of cfg) ≡ some grade)
        × (set_tsl_grade set_min_proto_version set_cipher_list (grade_of cfg) t
            ≡ set_both set_min_proto_version set_cipher_list
                (lowest_version grade)
                (allowed_ciphers grade)
                t))
unfolding parce_main_config
set_tsl_grade-named set_min set_ciphers jwt_key cfo t =
    let (text, parsed, found) = parce_tls_grades-Detected cfo.proxy_tls_grade in
    rw parsed
      (found, set_tsl_grade-from_str set_min set_ciphers text (named cfo.proxy_tls_grade) t found)
