-- ===== src/DashMap/Rebuild.antt =====
-- A loop that inserts a value for each entry of one map into another map.
use aralez.Prelude.{◌≡◌, refl, sym, ap, ◌∙◌, none, [], ◌∷◌, ◌++◌, ==_iff, arith, nat_eq, list_eq}
use mathlib.Core.List.{append_assoc, append-nil}
use mathlib.Core.Option
use aralez.Text.{Str}
use aralez.DashMap.{DashMap, get, insert}
use aralez.DashMap.Laws.{IsMap, get-insert}

insert_fresh :
    {V : Type 0} (k : Str) (v : V) (m : DashMap Str V)
    → get k m ≡ none
    → insert k v m ≡ m ++ (k, v) ∷ []
unfolding get insert
insert_fresh k v [] h = refl
insert_fresh k v ((j, w) ∷ m) h = ground (arith, insert_fresh k v m)

module _ {V W : Type 0} where
  -- No key of the second map is one of the first.
  abbrev Apart : DashMap Str W → DashMap Str V → Type 0
  Apart acc [] = Unit
  Apart acc ((k, v) ∷ m) = (get k acc ≡ none) × Apart acc m

  Apart-insert :
      (acc : DashMap Str W) (k : Str) (v : W) (m : DashMap Str V)
      → get k m ≡ none
      → Apart acc m
      → Apart (insert k v acc) m
  unfolding get
  Apart-insert acc k v [] h a = tt
  Apart-insert acc k v ((j, w) ∷ m) h (fresh, a) = (
    ground (arith, get-insert k j v acc, ==_iff k j, ==_iff j k),
    Apart-insert acc k v m (ground arith) a,
  )

  Apart-unfilled : (acc : DashMap Str W) (m : DashMap Str V) → acc ≡ [] → Apart acc m
  unfolding get
  Apart-unfilled acc [] e = tt
  Apart-unfilled acc ((k, v) ∷ m) e = (rw e refl, Apart-unfilled acc m e)

  abbrev pub map_values : (Str → V → W) → DashMap Str V → DashMap Str W
  map_values f [] = []
  map_values f ((k, v) ∷ m) = (k, f k v) ∷ map_values f m

  pub get-map_values :
      (f : Str → V → W) (k : Str) (m : DashMap Str V)
      → get k (map_values f m) ≡ Option.map (f k) (get k m)
  unfolding get
  get-map_values f k [] = refl
  get-map_values f k ((j, v) ∷ m) = ground (arith, ==_iff j k, get-map_values f k m)

  module _ (f : Str → V → W) (loop : DashMap Str W → DashMap Str V → DashMap Str W)
      (loop-nil : (acc : DashMap Str W) → loop acc [] ≡ acc)
      (loop-cons : (acc : DashMap Str W) (k : Str) (v : V) (m : DashMap Str V)
        → loop acc ((k, v) ∷ m) ≡ loop (insert k (f k v) acc) m) where
    rebuild_from :
        (acc : DashMap Str W) (m : DashMap Str V)
        → IsMap m
        → Apart acc m
        → loop acc m ≡ acc ++ map_values f m
    rebuild_from acc [] h a = loop-nil acc ∙ sym (append-nil acc)
    rebuild_from acc ((k, v) ∷ m) (fresh, h) (apart, a) =
        loop-cons acc k v m
        ∙ (rebuild_from (insert k (f k v) acc) m h (Apart-insert acc k (f k v) m fresh a)
            ∙ (ap (λ l. l ++ map_values f m) (insert_fresh k (f k v) acc apart)
                ∙ append_assoc acc ((k, f k v) ∷ []) (map_values f m)))

    -- Over distinct keys such a loop from the empty map keeps the keys and maps the values.
    pub rebuild : (m : DashMap Str V) → IsMap m → loop [] m ≡ map_values f m
    rebuild m h = rebuild_from [] m h (Apart-unfilled [] m refl)
