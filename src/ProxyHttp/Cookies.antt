-- ===== src/ProxyHttp/Cookies.antt =====
-- Reading the value of a cookie back from the text of the header (src/web/proxyhttp.rs).
use aralez.Prelude.{
  ℕ, ◌≡◌, refl, sym, ap, ◌⊎◌, inl, inr, true, Option, none, some, [], ◌∷◌, ◌++◌, nat_eq, list_eq,
  In, length, take, subst, ==_refl, ==_false_of_ne,
}
use aralez.Text.{Str, find, find_str, starts_with}
use aralez.ProxyHttp.{cookie_key, cookie_value}

starts_with-append : (p s : Str) → starts_with p (p ++ s) ≡ true
unfolding starts_with
starts_with-append [] s = refl
starts_with-append (c ∷ p) s = rw (==_refl c, starts_with-append p s) refl

find-append : (c : ℕ) (t s : Str) → ¬ (In c t) → find c (t ++ c ∷ s) ≡ some (length t)
unfolding find
find-append c [] s free = rw (==_refl c, find) refl
find-append c (x ∷ t) s free =
    let other = ==_false_of_ne x c (λ e. free (inl (sym e))) in
    rw (other, find-append c t s (λ i. free (inr i)), find) refl

find-none : (c : ℕ) (t : Str) → ¬ (In c t) → find c t ≡ none
unfolding find
find-none c [] free = refl
find-none c (x ∷ t) free =
    let other = ==_false_of_ne x c (λ e. free (inl (sym e))) in
    rw (other, find-none c t (λ i. free (inr i)), find) refl

take-append : (t s : Str) → take (length t) (t ++ s) ≡ t
take-append [] s = refl
take-append (c ∷ t) s = ap (λ r. c ∷ r) (take-append t s)

append-nil : (t : Str) → t ++ [] ≡ t
append-nil [] = refl
append-nil (c ∷ t) = ap (λ r. c ∷ r) (append-nil t)

abbrev until_semicolon : Str → Option Str
until_semicolon value = elim (find b';' value) [
  | none ↦ some value
  | some end ↦ some (take end value)
]

-- What may follow the value: nothing, or a semicolon.
abbrev pub IsRest : Str → Type 0
IsRest s = (s ≡ []) ⊎ ((r : Str) × (s ≡ b';' ∷ r))

-- The value of the cookie is read back up to the semicolon.
pub cookie_value-append :
    (tt rest : Str)
    → ¬ (In b';' tt)
    → IsRest rest
    → cookie_value (cookie_key ++ (tt ++ rest)) ≡ some tt
unfolding cookie_value find_str
cookie_value-append tt rest free (inl e) =
    subst (λ r. until_semicolon (tt ++ r) ≡ some tt) (sym e)
      (rw (append-nil tt) (rw (find-none b';' tt free, until_semicolon) refl))
cookie_value-append tt rest free (inr (r, e)) =
    subst (λ s. until_semicolon (tt ++ s) ≡ some tt) (sym e)
      (rw (find-append b';' tt r free, until_semicolon) (ap some (take-append tt (b';' ∷ r))))
