-- ===== src/Acme/Rules.antt =====
-- How to reason about a chain of actions: case by case on the result of its first one.
use aralez.Prelude.{◌≡◌, refl, sym, ◌∙◌, subst}
use aralez.Text.{Str}
use aralez.ParceYaml.Load.{Result, ok, err}
use aralez.Acme.{State, Action, ◌>>=◌, ◌>>◌, lift}

module _ {A B : Type 0} (P : Result B × State → Type 0) where
  pub lift_rule :
      (r : Result A) (k : A → Action B) (st : State)
      → ((e : Str) → r ≡ err e → P (err e, st))
      → ((a : A) → r ≡ ok a → P (k a st))
      → P ((lift r >>= k) st)
  lift_rule (ok a) k st fails goes = goes a refl
  lift_rule (err e) k st fails goes = fails e refl

  abbrev pub after : Result A × State → (A → Action B) → Result B × State
  after (r, st') k = elim r [ ok a ↦ k a st' | err e ↦ (err e, st') ]

  after_rule :
      (done : Result A × State) (k : A → Action B)
      → ((e : Str) (st' : State) → done ≡ (err e, st') → P (err e, st'))
      → ((a : A) (st' : State) → done ≡ (ok a, st') → P (k a st'))
      → P (after done k)
  after_rule (ok a, st') k fails goes = goes a st' refl
  after_rule (err e, st') k fails goes = fails e st' refl

  pub bind_rule :
      (m : Action A) (k : A → Action B) (st : State)
      → ((e : Str) (st' : State) → m st ≡ (err e, st') → P (err e, st'))
      → ((a : A) (st' : State) → m st ≡ (ok a, st') → P (k a st'))
      → P ((m >>= k) st)
  bind_rule m k st fails goes = after_rule (m st) k fails goes

  -- The first action comes to `done`.
  pub start_rule :
      (m : Action A) (k : A → Action B) (st : State) (done : Result A × State)
      → m st ≡ done
      → P (after done k)
      → P ((m >>= k) st)
  start_rule m k st done e h = subst (λ r. P (after r k)) (sym e) h

-- The action never changes this part of the state.
pub record Keeps {X : Type 0} (part : State → X) {A : Type 0} (m : Action A) : Type 0 where
  pub kept : (st : State) → part (m st).1 ≡ part st

module _ {X : Type 0} (part : State → X) where
  pub Keeps-bind :
      {A B : Type 0} {m : Action A} {k : A → Action B}
      → Keeps part m
      → ((a : A) → Keeps part (k a))
      → Keeps part (m >>= k)
  Keeps-bind {m} {k} h later = record {
    kept = λ st.
        bind_rule (λ r. part r.1 ≡ part st) m k st
          (λ e st' f. subst (λ r. part r.1 ≡ part st) f (h.kept st))
          (λ a st' f. (later a).kept st' ∙ subst (λ r. part r.1 ≡ part st) f (h.kept st));
  }

  pub Keeps-lift :
      {A B : Type 0} (r : Result A) {k : A → Action B}
      → ((a : A) → Keeps part (k a))
      → Keeps part (lift r >>= k)
  Keeps-lift r {k} later = Keeps-bind {m = lift r} {k = k} (record { kept = λ st. refl }) later

  pub Keeps-then :
      {A B : Type 0} (m : Action A) (n : Action B)
      → Keeps part m
      → Keeps part n
      → Keeps part (m >> n)
  Keeps-then m n h later = Keeps-bind {m = m} {k = λ _. n} h (λ _. later)
