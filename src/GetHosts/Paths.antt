-- ===== src/GetHosts/Paths.antt =====
-- Which configured paths cover a request path, told without the loop: the path itself, and each
-- part of it that ends before a slash.
use aralez.Prelude.{
  ℕ, suc, ◌≤◌, ◌≡◌, refl, sym, ap, ◌∙◌, ◌⊎◌, inl, inr, none, some, [], ◌∷◌, ◌++◌, arith, length,
  length-append, subst, take, drop, In, In-append_right, Option-cases,
}
use mathlib.Core.List.{append_assoc}
use aralez.Text.{Str, rfind}
use aralez.Text.Laws.{rfind-none, rfind-split}
use aralez.GetHosts.{slash}

abbrev pub Covers : Str → Str → Type 0
Covers t path = (path ≡ t) ⊎ ((rest : Str) × (path ≡ t ++ slash ∷ rest))

Covers-cons : (x : ℕ) (t path : Str) → Covers t path → Covers (x ∷ t) (x ∷ path)
Covers-cons x t path (inl e) = inl (ap (◌∷◌ x) e)
Covers-cons x t path (inr (rest, e)) = inr (rest, ap (◌∷◌ x) e)

pub Covers-length : (t path : Str) → Covers t path → length t ≤ length path
Covers-length t path (inl e) = omega (arith, ap length e)
Covers-length t path (inr (rest, e)) = omega (arith, ap length e, length-append t (slash ∷ rest))

-- What covers a path and is not the path covers its part before the last slash.
Covers-take_append :
    (t rest : Str) {p : ℕ}
    → rfind slash (t ++ slash ∷ rest) ≡ some p
    → Covers t (take p (t ++ slash ∷ rest))
unfolding rfind
Covers-take_append [] rest {p} h = elim (Option-cases (rfind slash rest)) [
  | inl e ↦ let here : p ≡ 0 = ground arith in rw here (inl refl)
  | inr (i, e) ↦ let there : p ≡ suc i = ground arith in rw there (inr (take i rest, refl))
]
Covers-take_append (x ∷ t) rest {p} h = elim (Option-cases (rfind slash (t ++ slash ∷ rest))) [
  | inl e ↦
      absurd
        (rfind-none slash (t ++ slash ∷ rest) e (In-append_right slash t (slash ∷ rest) (inl refl)))
  | inr (i, e) ↦
      let there : p ≡ suc i = ground arith in
      rw there (Covers-cons x t _ (Covers-take_append t rest e))
]

pub Covers-take :
    (t path : Str) {p : ℕ}
    → rfind slash path ≡ some p
    → Covers t path
    → (path ≡ t) ⊎ Covers t (take p path)
Covers-take t path h (inl e) = inl e
Covers-take t path {p} h (inr (rest, e)) = inr (
    subst (λ s. rfind slash s ≡ some p → Covers t (take p s)) (sym e) (Covers-take_append t rest) h)

-- A text with no slash is covered by itself alone.
pub Covers-of_rfind-none : (t path : Str) → rfind slash path ≡ none → Covers t path → path ≡ t
Covers-of_rfind-none t path h (inl e) = e
Covers-of_rfind-none t path h (inr (rest, e)) = absurd (
    rfind-none slash path h
      (subst (λ s. In slash s) (sym e) (In-append_right slash t (slash ∷ rest) (inl refl))))

-- What covers a part before the last slash covers the path.
pub Covers-of_take :
    (t path : Str) {p : ℕ} → rfind slash path ≡ some p → Covers t (take p path) → Covers t path
Covers-of_take t path {p} h (inl e) =
    inr (drop (suc p) path, rfind-split slash path h ∙ ap (λ s. s ++ slash ∷ drop (suc p) path) e)
Covers-of_take t path {p} h (inr (rest, e)) = inr (
  rest ++ slash ∷ drop (suc p) path,
  rfind-split slash path h
      ∙ (ap (λ s. s ++ slash ∷ drop (suc p) path) e
          ∙ append_assoc t (slash ∷ rest) (slash ∷ drop (suc p) path)),
)
