-- ===== src/Text/Laws.antt =====
-- What the searches of `Text` find.
use aralez.Prelude.{
  ℕ, suc, ◌-◌, ◌<◌, ◌≡◌, refl, sym, ap, true, ==_iff, ==_refl, list_beq, list_eq, inl, inr, none,
  some, List, [], ◌∷◌, ◌++◌, nat_eq, length, take, drop, arith, In, Bool-cases, ◌≤◌, ◌==◌,
  Option-cases, subst,
}
use aralez.Text.{
  Str, rfind, rsplit_once, split, starts_with, ends_with, find_str, replace, replace_from,
  parse_digits, parse_unsigned, parse_u16, u16_max,
}

pub rfind-lt-length : (c : ℕ) (s : Str) {p : ℕ} → rfind c s ≡ some p → p < length s
unfolding rfind
rfind-lt-length c [] h = cc
rfind-lt-length c (x ∷ s) h = elim (Option-cases (rfind c s)) [
  | inl e ↦ ground arith
  | inr (i, e) ↦ let lt = rfind-lt-length c s e in ground arith
]

-- The position found splits the text at the byte.
pub rfind-split :
    (c : ℕ) (s : Str) {p : ℕ} → rfind c s ≡ some p → s ≡ take p s ++ c ∷ drop (suc p) s
unfolding rfind
rfind-split c [] h = cc
rfind-split c (x ∷ s) {p} h = elim (Option-cases (rfind c s)) [
  | inl e ↦ let here : (p ≡ 0) × (x ≡ c) = ground arith in rw (here.0, here.1) refl
  | inr (i, e) ↦ let there : p ≡ suc i = ground arith in rw there (ap (◌∷◌ x) (rfind-split c s e))
]

pub rfind-none : (c : ℕ) (s : Str) → rfind c s ≡ none → ¬ (In c s)
unfolding rfind
rfind-none c [] h m = m
rfind-none c (x ∷ s) h (inl e) = ground arith
rfind-none c (x ∷ s) h (inr m) = rfind-none c s (ground arith) m

-- It is the last one.
pub rfind_last : (c : ℕ) (s : Str) {p : ℕ} → rfind c s ≡ some p → ¬ (In c (drop (suc p) s))
unfolding rfind
rfind_last c [] h m = cc
rfind_last c (x ∷ s) {p} h m = elim (Option-cases (rfind c s)) [
  | inl e ↦
      let here : p ≡ 0 = ground arith in rfind-none c s e (subst (λ k. In c (drop k s)) here m)
  | inr (i, e) ↦
      let there : p ≡ suc i = ground arith in
      rfind_last c s e (subst (λ k. In c (drop k s)) there m)
]

pub rsplit_once-none : (c : ℕ) (s : Str) → rsplit_once c s ≡ none → ¬ (In c s)
unfolding rsplit_once
rsplit_once-none c [] h m = m
rsplit_once-none c (x ∷ s) h (inl e) = ground arith
rsplit_once-none c (x ∷ s) h (inr m) = rsplit_once-none c s (ground arith) m

-- The parts before and behind the last occurrence of the byte.
pub rsplit_once-some :
    (c : ℕ) (s : Str) {a b : Str} → rsplit_once c s ≡ some (a, b) → (s ≡ a ++ c ∷ b) × (¬ (In c b))
unfolding rsplit_once
rsplit_once-some c [] h = cc
rsplit_once-some c (x ∷ s) {a} {b} h = elim (Option-cases (rsplit_once c s)) [
  | inl e ↦
      let here : (a ≡ []) × (x ≡ c) × (b ≡ s) = ground arith in
      (rw (here.0, here.1, here.2) refl, λ m. rsplit_once-none c s e (subst (In c) here.2 m))
  | inr ((a', b'), e) ↦
      let there : (a ≡ x ∷ a') × (b ≡ b') = ground arith in
      let (split, last) = rsplit_once-some c s e in
      (rw (there.0, there.1) (ap (◌∷◌ x) split), λ m. last (subst (In c) there.1 m))
]

parse_unsigned-le : (s : Str) {n : ℕ} → parse_unsigned s ≡ some n → n ≤ u16_max
unfolding parse_unsigned
parse_unsigned-le [] h = cc
parse_unsigned-le (x ∷ s) h = elim (Option-cases (parse_digits 0 (x ∷ s))) [
  | inl e ↦ absurd (ground arith)
  | inr (v, e) ↦ ground arith
]

pub parse_u16-le : (s : Str) {n : ℕ} → parse_u16 s ≡ some n → n ≤ u16_max
unfolding parse_u16
parse_u16-le [] h = cc
parse_u16-le (x ∷ s) h = elim (Bool-cases (x == b'+')) [
  | inl plus ↦ parse_unsigned-le s (ground arith)
  | inr other ↦ parse_unsigned-le (x ∷ s) (ground arith)
]

pub split-cons : (c : ℕ) (s : Str) → (part : Str) × (parts : List Str) × (split c s ≡ part ∷ parts)
unfolding split
split-cons c [] = ([], [], refl)
split-cons c (x ∷ s) =
    let (part, parts, e) = split-cons c s in
    elim (Bool-cases (x == c)) [
      | inl here ↦ ([], part ∷ parts, rw (e, here, split) refl)
      | inr other ↦ (x ∷ part, parts, rw (e, other, split) refl)
    ]

pub ends_with-append : (p s : Str) → ends_with p (s ++ p) ≡ true
unfolding ends_with list_beq
ends_with-append [] [] = refl
ends_with-append (c ∷ p) [] = rw (==_refl (c ∷ p)) refl
ends_with-append p (x ∷ s) = ground (arith, ends_with-append p s)

pub ends_with-split : (p s : Str) → ends_with p s ≡ true → (stem : Str) × (s ≡ stem ++ p)
unfolding ends_with
ends_with-split p [] h = ([], sym ((==_iff p []).0 h))
ends_with-split p (x ∷ s) h = elim (Bool-cases (p == x ∷ s)) [
  | inl same ↦ ([], sym ((==_iff p (x ∷ s)).0 same))
  | inr other ↦ let (stem, e) = ends_with-split p s (ground arith) in (x ∷ stem, ap (◌∷◌ x) e)
]

replace_from-skip : (p r s : Str) → replace_from p r (length s) s ≡ []
unfolding replace_from
replace_from-skip p r [] = refl
replace_from-skip p r (x ∷ s) = replace_from-skip p r s

-- A text that is only at the end is cut off by replacing it by nothing.
pub replace-suffix :
    (c : ℕ) (p stem : Str)
    → find_str (c ∷ p) (stem ++ c ∷ p) ≡ some (length stem)
    → replace (c ∷ p) [] (stem ++ c ∷ p) ≡ stem
unfolding replace find_str
replace-suffix c p [] h = elim (Bool-cases (starts_with (c ∷ p) (c ∷ p))) [
  | inl e ↦
      let all : length (c ∷ p) - 1 ≡ length p = omega arith in
      rw (e, replace_from, all) (replace_from-skip (c ∷ p) [] p)
  | inr e ↦ absurd (ground arith)
]
replace-suffix c p (x ∷ stem) h = elim (Bool-cases (starts_with (c ∷ p) (x ∷ stem ++ c ∷ p))) [
  | inl e ↦ absurd (ground arith)
  | inr e ↦ rw (e, replace_from) (ap (◌∷◌ x) (replace-suffix c p stem (ground arith)))
]
