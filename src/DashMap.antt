-- ===== src/DashMap.antt =====
-- `DashMap` and `HashMap`: an association list, whose order is the order of iteration, which the
-- source leaves open. `insert` keeps the place of a key that is there.
pub mod Laws
pub mod Rebuild
use aralez.Prelude.{
  ℕ, Bool, true, false, Option, none, some, List, [], ◌∷◌, ◌≡◌, ◌==◌, PartialEq, if◌then◌else◌,
  length, is_empty,
}

abbrev pub DashMap {ℓ κ} : Type ℓ → Type κ → Type (ℓ ⊔ κ)
DashMap K V = List (K × V)

abbrev pub keys {ℓ κ} : {K : Type ℓ} {V : Type κ} → DashMap K V → List K
keys [] = []
keys ((k, v) ∷ m) = k ∷ keys m

module _ {ℓ κ} {K : Type ℓ} {V : Type κ} ⦃e : PartialEq K⦄ where
  unfoldable pub get : K → DashMap K V → Option V
  get k [] = none
  get k ((j, v) ∷ m) = if j == k then some v else get k m

  unfoldable pub insert : K → V → DashMap K V → DashMap K V
  insert k v [] = (k, v) ∷ []
  insert k v ((j, w) ∷ m) = if j == k then (j, v) ∷ m else (j, w) ∷ insert k v m

  abbrev pub contains_key : K → DashMap K V → Bool
  contains_key k m = elim (get k m) [ none ↦ false | some v ↦ true ]

  -- `extend`: every entry of the second map is inserted into the first.
  unfoldable pub extend : DashMap K V → DashMap K V → DashMap K V
  extend m [] = m
  extend m ((k, v) ∷ new) = extend (insert k v m) new
