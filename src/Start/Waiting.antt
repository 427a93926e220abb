-- ===== src/Start/Waiting.antt =====
-- The loops of `drop_priv` end.
use aralez.Prelude.{
  ℕ, Bool, zero, suc, ◌+◌, ◌<◌, ◌≡◌, ◌≢◌, refl, inl, inr, true, false, not, Option, none, some,
  nat_eq, arith, Bool-cases, if◌then◌else◌, ◌≤◌,
}
use aralez.Text.{Str}
use aralez.Start.{Machine, exit, done, first_such, wait_served, wait_both, drop_priv}

-- The loop ends where it ever can: fuel for one attempt more than those before is enough.
first_such-ends :
    (fuel : ℕ) (ends : ℕ → Bool) (n j : ℕ)
    → ends j ≡ true
    → n ≤ j
    → j < n + fuel
    → (k : ℕ) × (first_such fuel ends n ≡ some k)
unfolding first_such
first_such-ends zero ends n j e l b = absurd (omega arith)
first_such-ends (suc fuel) ends n j e l b = elim (Bool-cases (ends n)) [
  | inl now ↦ (n, rw (now, first_such) refl)
  | inr later ↦
      let other : n ≢ j = λ same. cc (e, later, same) in
      rw (later, first_such) (first_such-ends fuel ends (suc n) j e (omega arith) (omega arith))
]

module _ {SslContext TlsSettings : Type 0} (m : Machine SslContext TlsSettings) where
  wait_served-ends :
      (fuel : ℕ) (addr : Str) (j : ℕ)
      → m.binds addr j ≡ false
      → j < fuel
      → wait_served m fuel addr ≡ done tt
  unfolding wait_served
  wait_served-ends fuel addr j e l =
      let (k, found) =
        first_such-ends fuel (λ n. not (m.binds addr n)) 0 j (rw e refl) (omega arith)
          (omega arith) in
      rw (found, wait_served) refl

  -- The address is served by the time the process has started: an attempt to bind it failed.
  abbrev pub IsServed : ℕ → Str → Type 0
  IsServed fuel addr = (j : ℕ) × (m.binds addr j ≡ false) × (j < fuel)

  wait_both-ends :
      (fuel : ℕ) (http_addr : Str) (tls_addr : Option Str)
      → IsServed fuel http_addr
      → ((addr : Str) → tls_addr ≡ some addr → IsServed fuel addr)
      → wait_both m fuel http_addr tls_addr ≡ done tt
  unfolding wait_both
  wait_both-ends fuel http_addr none (j, e, l) tls = wait_served-ends fuel http_addr j e l
  wait_both-ends fuel http_addr (some addr) (j, e, l) tls =
      let (i, f, k) = tls addr refl in
      rw (wait_served-ends fuel http_addr j e l, wait_served-ends fuel addr i f k) refl

-- `drop_priv` ends: once an attempt to bind the HTTP address fails, and one to bind the TLS
-- address if there is one, fuel for the attempts up to these is enough, and it changes the user and
-- the group, or exits with 1 where it cannot.
pub drop_priv-ends :
    {SslContext TlsSettings : Type 0} (m : Machine SslContext TlsSettings) (fuel : ℕ)
    (user group http_addr : Str) (tls_addr : Option Str)
    → IsServed m fuel http_addr
    → ((addr : Str) → tls_addr ≡ some addr → IsServed m fuel addr)
    → drop_priv m fuel user group http_addr tls_addr
      ≡ (if m.applies user group then done tt else exit 1)
unfolding drop_priv
drop_priv-ends m fuel user group http_addr tls_addr http tls =
    rw (wait_both-ends m fuel http_addr tls_addr http tls) refl
