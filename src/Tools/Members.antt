-- ===== src/Tools/Members.antt =====
-- Lists seen as sets: what `HashSet::eq` tells of the lists that the sets were filled from.
use aralez.Prelude.{
  suc, ◌≤◌, ◌≡◌, refl, sym, ◌∙◌, ◌≢◌, ◌↔◌, inl, inr, true, List, [], ◌∷◌, ◌==◌, ==_iff, ==_refl,
  ==_false_of_ne, PartialEq, arith, length, In, any_of_In, any_elim, all, Bool-cases, subst,
  if◌then◌else◌, nat_eq,
}
use aralez.Tools.{contains, to_set, set_eq}

module _ {A : Type 0} ⦃e : PartialEq A⦄ where
  pub contains_iff : (x : A) (set : List A) → (contains set x ≡ true) ↔ In x set
  unfolding contains
  contains_iff x set = (
    λ h.
        let (y, m, same) = any_elim (λ y. x == y) set h in
        subst (λ z. In z set) (sym ((==_iff x y).0 same)) m,
    λ m. any_of_In (λ y. x == y) set x m (==_refl x),
  )

  abbrev pub Distinct : List A → Type 0
  Distinct [] = Unit
  Distinct (x ∷ xs) = (¬ (In x xs)) × Distinct xs

  abbrev pub Subset : List A → List A → Type 0
  Subset xs ys = (x : A) → In x xs → In x ys

  remove : A → List A → List A
  remove x [] = []
  remove x (y ∷ ys) = if x == y then ys else y ∷ remove x ys

  length-remove : (x : A) (ys : List A) → In x ys → suc (length (remove x ys)) ≡ length ys
  unfolding remove
  length-remove x [] m = elim m [ ]
  length-remove x (y ∷ ys) (inl same) = ground (arith, ==_iff x y)
  length-remove x (y ∷ ys) (inr m) = ground (arith, ==_iff x y, length-remove x ys m)

  In-remove : (x z : A) (ys : List A) → In z ys → z ≢ x → In z (remove x ys)
  unfolding remove
  In-remove x z [] m ne = m
  In-remove x z (y ∷ ys) (inl e') ne =
      let other = ==_false_of_ne x y (λ same. ne (e' ∙ sym same)) in rw (other, remove) (inl e')
  In-remove x z (y ∷ ys) (inr m) ne = elim (Bool-cases (x == y)) [
    | inl same ↦ rw (same, remove) m
    | inr other ↦ rw (other, remove) (inr (In-remove x z ys m ne))
  ]

  pub length-le_of_subset : (xs ys : List A) → Distinct xs → Subset xs ys → length xs ≤ length ys
  length-le_of_subset [] ys d sub = omega arith
  length-le_of_subset (x ∷ xs) ys (fresh, d) sub =
      let ih =
        length-le_of_subset xs (remove x ys) d
          λ z m. In-remove x z ys (sub z (inr m)) (λ same. fresh (subst (λ w. In w xs) same m)) in
      omega (arith, length-remove x ys (sub x (inl refl)))

  -- A set that is no larger than a part of it is that part.
  pub subset_of_length_le :
      (xs ys : List A) → Distinct xs → Subset xs ys → length ys ≤ length xs → Subset ys xs
  subset_of_length_le xs ys d sub le y m = elim (Bool-cases (contains xs y)) [
    | inl h ↦ (contains_iff y xs).0 h
    | inr absent ↦
        let fresh : ¬ (In y xs) = λ m'. cc (absent, (contains_iff y xs).1 m') in
        let more =
          length-le_of_subset (y ∷ xs) ys (fresh, d)
            (λ z i. elim i [ inl e' ↦ subst (λ w. In w ys) (sym e') m | inr i' ↦ sub z i' ]) in
        absurd (omega arith)
  ]

  pub In-to_set : (x : A) (xs : List A) → In x (to_set xs) ↔ In x xs
  unfolding to_set
  In-to_set x [] = (λ m. m, λ m. m)
  In-to_set x (y ∷ ys) = elim (Bool-cases (contains (to_set ys) y)) [
    | inl old ↦
        rw (old, to_set)
          (
            λ m. inr ((In-to_set x ys).0 m),
            λ m. elim m [
              | inl same ↦
                  subst (λ w. In w (to_set ys)) (sym same) ((contains_iff y (to_set ys)).0 old)
              | inr m' ↦ (In-to_set x ys).1 m'
            ],
          )
    | inr new ↦
        rw (new, to_set)
          (
            λ m. elim m [ inl same ↦ inl same | inr m' ↦ inr ((In-to_set x ys).0 m') ],
            λ m. elim m [ inl same ↦ inl same | inr m' ↦ inr ((In-to_set x ys).1 m') ],
          )
  ]

  pub to_set-Distinct : (xs : List A) → Distinct (to_set xs)
  unfolding to_set
  to_set-Distinct [] = tt
  to_set-Distinct (y ∷ ys) = elim (Bool-cases (contains (to_set ys) y)) [
    | inl old ↦ rw (old, to_set) (to_set-Distinct ys)
    | inr new ↦
        rw (new, to_set) (λ m. cc (new, (contains_iff y (to_set ys)).1 m), to_set-Distinct ys)
  ]

  all_iff : (xs ys : List A) → (all (contains ys) xs ≡ true) ↔ Subset xs ys
  all_iff [] ys = (λ h x m. elim m [ ], λ h. refl)
  all_iff (x ∷ xs) ys = (
    λ h z m. elim m [
      | inl same ↦ subst (λ w. In w ys) (sym same) ((contains_iff x ys).0 (ground arith))
      | inr m' ↦ (all_iff xs ys).0 (ground arith) z m'
    ],
    λ sub.
        let here = (contains_iff x ys).1 (sub x (inl refl)) in
        let later = (all_iff xs ys).1 (λ z m. sub z (inr m)) in rw (here, later) refl,
  )

  -- `HashSet::eq` of two lists' sets is true exactly when the lists have the same members.
  pub set_eq-to_set_iff :
      (xs ys : List A) → (set_eq (to_set xs) (to_set ys) ≡ true) ↔ ((x : A) → In x xs ↔ In x ys)
  unfolding set_eq
  set_eq-to_set_iff xs ys = (
    λ h x.
        let sizes : length (to_set xs) ≡ length (to_set ys) = ground arith in
        let sub = (all_iff (to_set xs) (to_set ys)).0 (ground arith) in
        let back =
          subset_of_length_le (to_set xs) (to_set ys) (to_set-Distinct xs) sub (omega arith) in
        (
          λ m. (In-to_set x ys).0 (sub x ((In-to_set x xs).1 m)),
          λ m. (In-to_set x xs).0 (back x ((In-to_set x ys).1 m)),
        ),
    λ same.
        let sub : Subset (to_set xs) (to_set ys) =
          λ x m. (In-to_set x ys).1 ((same x).0 ((In-to_set x xs).0 m)) in
        let back : Subset (to_set ys) (to_set xs) =
          λ x m. (In-to_set x xs).1 ((same x).1 ((In-to_set x ys).0 m)) in
        let le = length-le_of_subset (to_set xs) (to_set ys) (to_set-Distinct xs) sub in
        let ge = length-le_of_subset (to_set ys) (to_set xs) (to_set-Distinct ys) back in
        let sizes : length (to_set xs) ≡ length (to_set ys) = omega arith in
        ground (arith, (all_iff (to_set xs) (to_set ys)).1 sub),
  )
