-- ===== src/ProxyHttp/Sticky.antt =====
-- The cookie of a sticky session: what `response_filter` of src/web/proxyhttp.rs issues, and what
-- the next request finds with it.
use aralez.Prelude.{
  ℕ, zero, suc, ◌≤◌, ◌≡◌, refl, sym, ◌∙◌, ◌≢◌, ◌⊎◌, inl, inr, some, [], ◌∷◌, ◌++◌, ◌==◌, arith,
  Option-cases, Bool-cases, nat_eq, list_eq, In, take, if◌then◌else◌, subst, ==_iff,
}
use aralez.Text.{Str}
use aralez.DashMap.{DashMap, get, insert}
use aralez.DashMap.Laws.{get-insert}
use aralez.Structs.{InnerMap}
use aralez.Lb.{Lb}
use aralez.Tools.{short_hash}
use aralez.Tools.Format.{id_string}
use aralez.Session.{Session}
use aralez.ProxyHttp.Upstream.{cookie_id}

abbrev pub IsHexDigit : ℕ → Type 0
IsHexDigit c = ((b'0' ≤ c) × (c ≤ b'9')) ⊎ ((b'a' ≤ c) × (c ≤ b'f'))

In-take : (c n : ℕ) (s : Str) → In c (take n s) → In c s
In-take c zero s i = absurd i
In-take c (suc n) [] i = absurd i
In-take c (suc n) (x ∷ s) (inl e) = inl e
In-take c (suc n) (x ∷ s) (inr i) = inr (In-take c n s i)

In-middle : (x : ℕ) (s t : Str) → In x (s ++ x ∷ t)
In-middle x [] t = inl refl
In-middle x (y ∷ s) t = inr (In-middle x s t)

module _ (sha_hex : Str → Str) (hex : (s : Str) (c : ℕ) → In c (sha_hex s) → IsHexDigit c) where
  short_hash-hex : (s : Str) (c : ℕ) → In c (short_hash sha_hex s) → IsHexDigit c
  short_hash-hex s c i = hex s c (In-take c 50 (sha_hex s) i)

  -- No text that has a colon is a hash.
  id_ne_hash : (host s : Str) (x : InnerMap) → id_string host x ≢ short_hash sha_hex s
  unfolding id_string
  id_ne_hash host s x e =
      let colon = In-middle b':' host _ in
      let digit = short_hash-hex s b':' (subst (λ t. In b':' t) e colon) in ground arith

  -- The store holds what was issued: each id with its hash, and each hash with its id.
  abbrev pub IsStore : DashMap Str Str → Type 0
  IsStore store =
      (k v : Str) → get k store ≡ some v → (v ≡ short_hash sha_hex k) ⊎ (k ≡ short_hash sha_hex v)

  insert-IsStore :
      (k v : Str) (store : DashMap Str Str)
      → (v ≡ short_hash sha_hex k) ⊎ (k ≡ short_hash sha_hex v)
      → IsStore store
      → IsStore (insert k v store)
  insert-IsStore k v store pair issued k' v' e = elim (Bool-cases (k == k')) [
    | inr other ↦ issued k' v' (sym (get-insert k k' v store ∙ rw other refl) ∙ e)
    | inl same ↦
        let key : k ≡ k' = (==_iff k k').0 same in
        let value : v ≡ v' =
          (let q : some v ≡ some v' =
              sym (
                subst (λ b. get k' (insert k v store) ≡ (if b then some v else get k' store)) same
                  (get-insert k k' v store))
              ∙ e in
            cc) in
        subst (λ a. (v' ≡ short_hash sha_hex a) ⊎ (a ≡ short_hash sha_hex v')) key
          (subst (λ b. (b ≡ short_hash sha_hex k) ⊎ (k ≡ short_hash sha_hex b)) value pair)
  ]

  -- The cookie of a backend is the hash of its id, whether it was issued before or not, and the
  -- store goes on holding what was issued.
  pub cookie_id-short_hash :
      (host : Str) (x : InnerMap) (store : DashMap Str Str)
      → IsStore store
      → ((cookie_id sha_hex (id_string host x) store).0 ≡ short_hash sha_hex (id_string host x))
        × IsStore (cookie_id sha_hex (id_string host x) store).1
  unfolding cookie_id
  cookie_id-short_hash host x store issued =
      let bid = id_string host x in
      let hh = short_hash sha_hex bid in
      elim (Option-cases (get bid store)) [
        | inr (v, e) ↦
            let is_hash : v ≡ hh = elim (issued bid v e) [
              | inl same ↦ same
              | inr same ↦ absurd (id_ne_hash host v x same)
            ] in
            rw (e, cookie_id) (is_hash, issued)
        | inl e ↦
            rw (e, cookie_id)
              (
                refl,
                insert-IsStore hh bid (insert bid hh store) (inr refl)
                    (insert-IsStore bid hh store (inl refl) issued),
              )
      ]
