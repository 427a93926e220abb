-- ===== src/Tools/Agree.antt =====
-- Two maps agree at every key exactly when their sizes and entries do: the reason why the tests of
-- `compare_dashmaps` are enough.
use aralez.Prelude.{
  suc, ◌≤◌, ◌≡◌, refl, sym, ap, ◌↔◌, inl, inr, Option, none, some, [], ◌∷◌, ◌==◌, ==_iff, arith,
  length, In, nat_eq, list_eq, Bool-cases, Option-cases, subst,
}
use aralez.Text.{Str}
use aralez.DashMap.{DashMap, keys, get}
use aralez.DashMap.Laws.{IsMap, get_of_In}
use aralez.Structs.Equality.{inner_map_eq}
use aralez.Tools.Members.{Distinct, Subset, length-le_of_subset, subset_of_length_le}

-- Two lookups agree: both find nothing, or what they find is related.
abbrev pub Agree : {A : Type 0} → (A → A → Type 0) → Option A → Option A → Type 0
Agree R none none = Unit
Agree R (some a) (some b) = R a b
Agree R _ _ = ⊥

module _ {V : Type 0} where
  In-keys : (k : Str) (v : V) (m : DashMap Str V) → get k m ≡ some v → In k (keys m)
  unfolding get
  In-keys k v [] h = cc
  In-keys k v ((j, w) ∷ m) h = elim (Bool-cases (j == k)) [
    | inl same ↦ inl (sym ((==_iff j k).0 same))
    | inr other ↦ inr (In-keys k v m (ground arith))
  ]

  pub get_of_In-keys : (k : Str) (m : DashMap Str V) → In k (keys m) → (v : V) × (get k m ≡ some v)
  unfolding get
  get_of_In-keys k [] i = elim i [ ]
  get_of_In-keys k ((j, w) ∷ m) i = elim (Bool-cases (j == k)) [
    | inl same ↦ (w, rw (same, get) refl)
    | inr other ↦ elim i [
      | inl same ↦ absurd (ground (arith, ==_iff j k))
      | inr i' ↦ let (v, e) = get_of_In-keys k m i' in (v, rw (other, get) e)
    ]
  ]

  keys-Distinct : (m : DashMap Str V) → IsMap m → Distinct (keys m)
  keys-Distinct [] h = tt
  keys-Distinct ((k, v) ∷ m) (fresh, h) =
      (λ i. let (w, e) = get_of_In-keys k m i in cc (fresh, e), keys-Distinct m h)

  length-keys : (m : DashMap Str V) → length (keys m) ≡ length m
  length-keys [] = refl
  length-keys ((k, v) ∷ m) = ap suc (length-keys m)

  module _ (R : V → V → Type 0) where
    abbrev pub Found : V → Option V → Type 0
    Found v none = ⊥
    Found v (some w) = R v w

    -- Every entry of the first map has a related one in the second.
    abbrev pub Entries : DashMap Str V → DashMap Str V → Type 0
    Entries [] n = Unit
    Entries ((k, v) ∷ m) n = Found v (get k n) × Entries m n

    Found-some : (v : V) (o : Option V) → Found v o → (w : V) × (o ≡ some w) × R v w
    Found-some v none f = elim f [ ]
    Found-some v (some w) f = (w, refl, f)

    Entries-get :
        (m n : DashMap Str V) (k : Str) (v : V) → Entries m n → get k m ≡ some v → Found v (get k n)
    unfolding get
    Entries-get [] n k v all h = cc
    Entries-get ((j, w) ∷ m) n k v (here, all) h = elim (Bool-cases (j == k)) [
      | inl same ↦
          let same_value : w ≡ v = ground arith in
          subst (λ x. Found x (get k n)) same_value
            (subst (λ x. Found w (get x n)) ((==_iff j k).0 same) here)
      | inr other ↦ Entries-get m n k v all (ground arith)
    ]

    Entries-subset : (m n : DashMap Str V) → Entries m n → Subset (keys m) (keys n)
    Entries-subset m n all k i =
        let (v, e) = get_of_In-keys k m i in
        let (w, f, _) = Found-some v (get k n) (Entries-get m n k v all e) in In-keys k w n f

    Agree-of_Found : (o o' : Option V) (v : V) → o ≡ some v → Found v o' → Agree R o o'
    Agree-of_Found none o' v e f = cc
    Agree-of_Found (some u) none v e f = f
    Agree-of_Found (some u) (some w) v e f =
        let same : u ≡ v = ground arith in subst (λ x. R x w) (sym same) f

    Found-of_Agree : (o o' : Option V) (v : V) → o ≡ some v → Agree R o o' → Found v o'
    Found-of_Agree none o' v e a = cc
    Found-of_Agree (some u) none v e a = a
    Found-of_Agree (some u) (some w) v e a =
        let same : u ≡ v = ground arith in subst (λ x. R x w) same a

    Agree-of_none : (o o' : Option V) → o ≡ none → o' ≡ none → Agree R o o'
    Agree-of_none none none e f = tt
    Agree-of_none (some u) o' e f = cc
    Agree-of_none none (some w) e f = cc

    Agree-none : (o o' : Option V) → Agree R o o' → o' ≡ none → o ≡ none
    Agree-none none o' a e = refl
    Agree-none (some u) none a e = elim a [ ]
    Agree-none (some u) (some w) a e = cc

    -- Equal sizes and related entries make two maps agree at every key.
    Agree-of_Entries :
        (m n : DashMap Str V)
        → IsMap m
        → length m ≡ length n
        → Entries m n
        → (k : Str) → Agree R (get k m) (get k n)
    Agree-of_Entries m n is_map sizes all k = elim (Option-cases (get k m)) [
      | inr (v, e) ↦ Agree-of_Found (get k m) (get k n) v e (Entries-get m n k v all e)
      | inl missing ↦ elim (Option-cases (get k n)) [
        | inl missing' ↦ Agree-of_none (get k m) (get k n) missing missing'
        | inr (w, f) ↦
            let back =
              subset_of_length_le (keys m) (keys n) (keys-Distinct m is_map)
                (Entries-subset m n all) (omega (arith, length-keys m, length-keys n)) in
            let (v, e) = get_of_In-keys k m (back k (In-keys k w n f)) in cc (missing, e)
      ]
    ]

    Entries-of_In :
        (m n : DashMap Str V) → ((k : Str) (v : V) → In (k, v) m → Found v (get k n)) → Entries m n
    Entries-of_In [] n f = tt
    Entries-of_In ((k, v) ∷ m) n f = (f k v (inl refl), Entries-of_In m n (λ j w i. f j w (inr i)))

    Entries-of_Agree :
        (m n : DashMap Str V) → IsMap m → ((k : Str) → Agree R (get k m) (get k n)) → Entries m n
    Entries-of_Agree m n h agree =
        Entries-of_In m n
          (λ k v i. Found-of_Agree (get k m) (get k n) v (get_of_In m k v h i) (agree k))

    Agree-sym : (o o' : Option V) → Agree R o o' → Agree (λ v w. R w v) o' o
    Agree-sym none none a = tt
    Agree-sym (some u) (some w) a = a
    Agree-sym none (some w) a = a
    Agree-sym (some u) none a = a

  Agree-length_le :
      (R : V → V → Type 0) (m n : DashMap Str V)
      → IsMap m
      → ((k : Str) → Agree R (get k m) (get k n))
      → length m ≤ length n
  Agree-length_le R m n h agree =
      let le =
        length-le_of_subset (keys m) (keys n) (keys-Distinct m h)
          (Entries-subset R m n (Entries-of_Agree R m n h agree)) in
      omega (arith, length-keys m, length-keys n)

  -- The two tests of the source, sizes and entries, decide agreement at every key.
  pub Agree-iff :
      (R : V → V → Type 0) (m n : DashMap Str V)
      → IsMap m
      → IsMap n
      → ((length m ≡ length n) × Entries R m n) ↔ ((k : Str) → Agree R (get k m) (get k n))
  Agree-iff R m n h k = (
    λ t. Agree-of_Entries R m n h t.0 t.1,
    λ agree.
        let le = Agree-length_le R m n h agree in
        let ge =
          Agree-length_le (λ v w. R w v) n m k (λ j. Agree-sym R (get j m) (get j n) (agree j)) in
        (omega arith, Entries-of_Agree R m n h agree),
  )
