-- ===== src/DashMap/Laws.antt =====
-- Laws of the maps: what a lookup sees after an insertion, and the keys, which stay distinct.
use aralez.Prelude.{
  none, some, [], ◌∷◌, ◌≡◌, refl, ◌==◌, ==_iff, ==_refl, PartialEq, if◌then◌else◌, arith, In, inl,
  inr, Bool-cases,
}
use aralez.DashMap.{DashMap, get, insert, extend}

module _ {K V : Type 0} ⦃e : PartialEq K⦄ where
  pub get-insert :
      (k j : K) (v : V) (m : DashMap K V)
      → get j (insert k v m) ≡ (if k == j then some v else get j m)
  unfolding get insert
  get-insert k j v [] = refl
  get-insert k j v ((i, w) ∷ m) =
      ground (arith, ==_iff k j, ==_iff i k, ==_iff i j, get-insert k j v m)

  pub get-insert_self : (k : K) (v : V) (m : DashMap K V) → get k (insert k v m) ≡ some v
  get-insert_self k v m = simp (get-insert, ==_refl)

  -- No key stands twice; a `DashMap` never holds a key twice.
  abbrev pub IsMap : DashMap K V → Type 0
  IsMap [] = Unit
  IsMap ((k, v) ∷ m) = (get k m ≡ none) × IsMap m

  pub insert-IsMap : (k : K) (v : V) (m : DashMap K V) → IsMap m → IsMap (insert k v m)
  unfolding get insert
  insert-IsMap k v [] h = (refl, tt)
  insert-IsMap k v ((j, w) ∷ m) (fresh, h) = elim (Bool-cases (j == k)) [
    | inl same ↦ rw same (fresh, h)
    | inr other ↦
        rw other (ground (arith, get-insert k j v m, ==_iff k j, ==_iff j k), insert-IsMap k v m h)
  ]

  pub extend-IsMap : (m n : DashMap K V) → IsMap m → IsMap (extend m n)
  unfolding extend
  extend-IsMap m [] h = h
  extend-IsMap m ((k, v) ∷ n) h = extend-IsMap (insert k v m) n (insert-IsMap k v m h)

  -- An entry of a map is what a lookup of its key finds.
  pub get_of_In : (m : DashMap K V) (k : K) (v : V) → IsMap m → In (k, v) m → get k m ≡ some v
  unfolding get
  get_of_In [] k v h i = elim i [ ]
  get_of_In ((j, w) ∷ m) k v (fresh, h) (inl same) = ground (arith, ==_iff j k)
  get_of_In ((j, w) ∷ m) k v (fresh, h) (inr i) =
      let found = get_of_In m k v h i in ground (arith, ==_iff j k)

  pub get-In : (m : DashMap K V) (k : K) (v : V) → get k m ≡ some v → In (k, v) m
  unfolding get
  get-In [] k v h = cc
  get-In ((j, w) ∷ m) k v h = elim (Bool-cases (j == k)) [
    | inl same ↦ inl (ground (arith, ==_iff j k))
    | inr other ↦ inr (get-In m k v (ground arith))
  ]
