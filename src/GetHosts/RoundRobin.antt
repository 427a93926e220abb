-- ===== src/GetHosts/RoundRobin.antt =====
-- Round robin: requests with no sticky backend that come one after the other on one path.
use aralez.Prelude.{
  ℕ, zero, suc, ◌+◌, ◌-◌, ◌%◌, ◌<◌, ◌≤◌, ◌≡◌, refl, ap, ◌∙◌, ◌≢◌, none, some, List, [], ◌∷◌, ◌++◌,
  arith, length, get_elem?, get_elem?_of_lt, take, drop, take-append-drop, subst,
}
use mathlib.Core.List.{Perm, perm_append_comm}
use mathlib.Core.Path.{ap₂}
use aralez.Structs.{InnerMap}
use aralez.Lb.{Lb}
use aralez.GetHosts.{usize_mod, find_sticky_backend, pick_backend}

-- The backends of `n` requests in turn, each with the counter that the one before left.
pub picks : Lb → List InnerMap → ℕ → ℕ → List InnerMap
picks lb servers zero index = []
picks lb servers (suc n) index = elim (pick_backend lb servers index none) [
  | none ↦ []
  | some (b, next) ↦ b ∷ picks lb servers n next
]

-- What `picks` comes to while the counter does not wrap.
turns : List InnerMap → ℕ → ℕ → List InnerMap
turns servers zero index = []
turns servers (suc n) index = elim (get_elem? servers (index % length servers)) [
  | none ↦ []
  | some b ↦ b ∷ turns servers n (index + 1)
]

picks-eq-turns :
    (lb : Lb) (s : InnerMap) (ss : List InnerMap) (n index : ℕ)
    → index + n < usize_mod
    → picks lb (s ∷ ss) n index ≡ turns (s ∷ ss) n index
unfolding picks turns pick_backend find_sticky_backend
picks-eq-turns lb s ss zero index h = refl
picks-eq-turns lb s ss (suc n) index h =
    let (a, at) = get_elem?_of_lt (s ∷ ss) (index % length (s ∷ ss)) (omega arith) in
    let next : (index + 1) % usize_mod ≡ index + 1 = omega arith in
    rw (at, next, picks, turns, pick_backend)
      (ap (◌∷◌ a) (picks-eq-turns lb s ss n (index + 1) (omega arith)))

drop_step :
    (xs : List InnerMap) (k : ℕ) (a : InnerMap)
    → get_elem? xs k ≡ some a
    → drop k xs ≡ a ∷ drop (suc k) xs
drop_step [] k a h = cc
drop_step (x ∷ xs) zero a h = ground arith
drop_step (x ∷ xs) (suc k) a h = drop_step xs k a h

mod-suc : (i k n : ℕ) → i % n ≡ k → k + 1 < n → (i + 1) % n ≡ suc k
mod-suc i k n e h = grind arith

mod-suc_wrap : (i k n : ℕ) → i % n ≡ k → k + 1 ≡ n → (i + 1) % n ≡ 0
mod-suc_wrap i k n e h = grind arith

turns_step :
    (servers : List InnerMap) (n k index : ℕ)
    → index % length servers ≡ k
    → k < length servers
    → turns servers n (index + 1) ≡ take n (drop (suc k) servers)
    → turns servers (suc n) index ≡ take (suc n) (drop k servers)
unfolding turns
turns_step servers n k index e h ih =
    let (a, at) = get_elem?_of_lt servers k h in
    let here : get_elem? servers (index % length servers) ≡ some a =
      ap (get_elem? servers) e ∙ at in
    rw (here, turns) (rw (drop_step servers k a at) (ap (◌∷◌ a) ih))

-- Within the list the turns are its consecutive elements.
turns_within :
    (servers : List InnerMap) (n k index : ℕ)
    → index % length servers ≡ k
    → k + n ≤ length servers
    → turns servers n index ≡ take n (drop k servers)
unfolding turns
turns_within servers zero k index e h = refl
turns_within servers (suc zero) k index e h = turns_step servers 0 k index e (omega arith) refl
turns_within servers (suc (suc n)) k index e h =
    turns_step servers (suc n) k index e (omega arith) (
      turns_within servers (suc n) (suc k) (index + 1)
        (mod-suc index k (length servers) e (omega arith)) (omega arith))

turns_add :
    (s : InnerMap) (ss : List InnerMap) (m n index : ℕ)
    → turns (s ∷ ss) (m + n) index ≡ turns (s ∷ ss) m index ++ turns (s ∷ ss) n (index + m)
unfolding turns
turns_add s ss zero n index =
    let e : zero + n ≡ n = omega arith in let f : index + zero ≡ index = omega arith in rw (e, f)
turns_add s ss (suc m) n index =
    let (a, at) = get_elem?_of_lt (s ∷ ss) (index % length (s ∷ ss)) (omega arith) in
    let e : suc m + n ≡ suc (m + n) = omega arith in
    let f : index + suc m ≡ index + 1 + m = omega arith in
    rw (e, f, at, turns) (ap (◌∷◌ a) (turns_add s ss m n (index + 1)))

take_all : (xs : List InnerMap) (n : ℕ) → length xs ≤ n → take n xs ≡ xs
take_all [] zero h = refl
take_all [] (suc n) h = refl
take_all (x ∷ xs) zero h = absurd (omega arith)
take_all (x ∷ xs) (suc n) h = ap (◌∷◌ x) (take_all xs n (omega arith))

length-drop : (k : ℕ) (xs : List InnerMap) → length (drop k xs) ≡ length xs - k
length-drop zero xs = omega arith
length-drop (suc k) [] = omega arith
length-drop (suc k) (x ∷ xs) = omega (arith, length-drop k xs)

mod_rest : (i k n : ℕ) → i % n ≡ k → k < n → (i + (n - k)) % n ≡ 0
mod_rest i k n e h = grind arith

turns_round :
    (s : InnerMap) (ss : List InnerMap) (index k : ℕ)
    → index % length (s ∷ ss) ≡ k
    → turns (s ∷ ss) (length (s ∷ ss)) index ≡ drop k (s ∷ ss) ++ take k (s ∷ ss)
turns_round s ss index k e =
    let size = length (s ∷ ss) in
    let below : k < size = omega arith in
    let whole : size ≡ (size - k) + k = omega arith in
    let first =
      turns_within (s ∷ ss) (size - k) k index e (omega arith)
      ∙ take_all (drop k (s ∷ ss)) (size - k) (omega (arith, length-drop k (s ∷ ss))) in
    let second =
      turns_within (s ∷ ss) k 0 (index + (size - k)) (mod_rest index k size e below)
        (omega arith) in
    ap (λ n. turns (s ∷ ss) n index) whole
    ∙ (turns_add s ss (size - k) k index ∙ ap₂ (◌++◌) first second)

-- One round of as many requests as there are servers, with no sticky backend and no wrap of the
-- counter in between, goes to the servers in their order, from the one that the counter stands at
-- on to the end and then from the start.
pub picks_round :
    (lb : Lb) (servers : List InnerMap) (index : ℕ)
    → servers ≢ []
    → index + length servers < usize_mod
    → picks lb servers (length servers) index
      ≡ drop (index % length servers) servers ++ take (index % length servers) servers
picks_round lb [] index ne h = absurd (ne refl)
picks_round lb (s ∷ ss) index ne h =
    picks-eq-turns lb s ss (length (s ∷ ss)) index h
    ∙ turns_round s ss index (index % length (s ∷ ss)) refl

-- As many requests in turn as a path has servers, without a sticky backend, are served by every
-- server exactly once, from whatever counter they start; the path must have servers and the
-- counter must not wrap on the way.
pub picks-perm :
    (lb : Lb) (servers : List InnerMap) (index : ℕ)
    → servers ≢ []
    → index + length servers < usize_mod
    → Perm (picks lb servers (length servers) index) servers
picks-perm lb servers index ne h =
    let k = index % length servers in
    rw (picks_round lb servers index ne h) (
      subst (Perm (drop k servers ++ take k servers)) (take-append-drop k servers)
        (perm_append_comm (drop k servers) (take k servers)))
