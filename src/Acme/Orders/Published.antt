-- ===== src/Acme/Orders/Published.antt =====
-- What `order` publishes for the challenges of its authorizations.
use aralez.Prelude.{
  ◌≡◌, refl, sym, ap, ◌∙◌, inl, inr, none, some, List, [], ◌∷◌, map, In, Bool-cases, ==_iff, arith,
  nat_eq, list_eq, ◌==◌,
}
use aralez.Text.{Str}
use aralez.Text.Laws.{split-cons}
use aralez.DashMap.{DashMap, get, insert}
use aralez.DashMap.Laws.{get-insert, get-insert_self}
use aralez.ParceYaml.Load.{Result, ok}
use aralez.Acme.{State, Authorization}
use aralez.Acme.Orders.{token_of, authorize}

-- The authorization of a challenge that is waiting for this key authorization.
abbrev pub pending : Str → Result Authorization
pending key_auth = ok (record { http01 = some key_auth; set_ready = ok tt })

-- A token determines its key authorization.
abbrev pub DistinctTokens : List Str → Type 0
DistinctTokens key_auths =
    (j k : Str) → In j key_auths → In k key_auths → token_of j ≡ token_of k → j ≡ k

token_of-some : (k : Str) → (token : Str) × (token_of k ≡ some token)
unfolding token_of
token_of-some k = let (token, rest, e) = split-cons b'.' k in (token, rw (e, token_of) refl)

unfoldable pub publish_all : List Str → DashMap Str Str → DashMap Str Str
publish_all [] m = m
publish_all (k ∷ key_auths) m = elim (token_of k) [
  | none ↦ m
  | some token ↦ publish_all key_auths (insert token k m)
]

pub authorize-pending :
    (key_auths : List Str) (st : State)
    → authorize (map pending key_auths) st
      ≡ (ok tt, record st { challenges = publish_all key_auths st.challenges })
unfolding authorize publish_all
authorize-pending [] st = refl
authorize-pending (k ∷ key_auths) st =
    let (token, e) = token_of-some k in
    let later =
      authorize-pending key_auths (record st { challenges = insert token k st.challenges }) in
    ground (arith, later)

get-publish_keeps :
    (key_auths : List Str) (m : DashMap Str Str) (token k : Str)
    → ((j : Str) → In j key_auths → token_of j ≡ some token → j ≡ k)
    → get token m ≡ some k
    → get token (publish_all key_auths m) ≡ some k
unfolding publish_all
get-publish_keeps [] m token k same e = e
get-publish_keeps (j ∷ key_auths) m token k same e =
    let (t, f) = token_of-some j in
    let next : get token (insert t j m) ≡ some k =
      get-insert t token j m ∙ elim (Bool-cases (t == token)) [
        | inl equal ↦
            let mine = same j (inl refl) (f ∙ ap some ((==_iff t token).0 equal)) in
            rw (equal, mine) refl
        | inr other ↦ rw other e
      ] in
    rw (f, publish_all)
      (get-publish_keeps key_auths (insert t j m) token k (λ i h. same i (inr h)) next)

pub get-publish_all :
    (key_auths : List Str) (m : DashMap Str Str) (token k : Str)
    → DistinctTokens key_auths
    → In k key_auths
    → token_of k ≡ some token
    → get token (publish_all key_auths m) ≡ some k
unfolding publish_all
get-publish_all [] m token k distinct i e = elim i [ ]
get-publish_all (j ∷ key_auths) m token k distinct (inl here) e =
    let (t, f) = token_of-some j in
    let equal : t ≡ token = ground (arith, ap token_of here) in
    let unique = λ (i : Str) (h : In i key_auths) (g : token_of i ≡ some token).
      distinct i k (inr h) (inl here) (g ∙ sym e) in
    rw (f, publish_all)
      (get-publish_keeps key_auths (insert t j m) token k unique
        (rw (equal, here) (get-insert_self token j m)))
get-publish_all (j ∷ key_auths) m token k distinct (inr there) e =
    let (t, f) = token_of-some j in
    rw (f, publish_all)
      (get-publish_all key_auths (insert t j m) token k (λ a b p q. distinct a b (inr p) (inr q))
        there e)
