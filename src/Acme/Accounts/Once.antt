-- ===== src/Acme/Accounts/Once.antt =====
-- The account is set once, by the first call of `get_account` that succeeds.
use aralez.Prelude.{◌≡◌, ◌⊎◌, none, some, arith, nat_eq, list_eq}
use aralez.Text.{Str}
use aralez.DashMap.{get}
use aralez.ParceYaml.Load.{Result, ok, err}
use aralez.Acme.{Account, State, Crates, Authority}
use aralez.Acme.Accounts.{load_credentials, get_account}

module _ {Credentials : Type 0} (crates : Crates Credentials)
    (authority : Authority Credentials) where
  -- Where an account may come from: it was set, the stored credentials are its, or it was made and
  -- its credentials are now stored.
  abbrev pub ComesFrom : Str → State → State → Account → Type 0
  ComesFrom file st st' a =
      (st.account ≡ some a)
      ⊎ ((credentials : Credentials) × (load_credentials crates authority file st.files
            ≡ some credentials)
          × (authority.from_credentials credentials ≡ ok a))
      ⊎ ((credentials : Credentials) × (json : Str) × (authority.create ≡ ok (a, credentials))
          × (crates.to_json credentials ≡ ok json)
          × (get file st'.files ≡ some (some json)))

  -- What a call that finds no account comes to.
  abbrev Init : Str → State → Result (Unit {0}) × State → Type 0
  Init file st (ok _, st') = (a : Account) × (st'.account ≡ some a) × ComesFrom file st st' a
  Init file st (err _, st') = st'.account ≡ none

  -- What a call of `get_account` comes to.
  abbrev pub Once : Str → State → Result Account × State → Type 0
  Once file st end =
      ((a : Account) × (end.0 ≡ ok a)
        × (end.1.account ≡ some a)
        × ComesFrom file st end.1 a
        × ((later : Str) → get_account crates authority later end.1 ≡ (ok a, end.1)))
      ⊎ ((st.account ≡ none) × (end.1.account ≡ none) × ((e : Str) × (end.0 ≡ err e)))

  pub get_account-set :
      (later : Str) (st : State) (a : Account)
      → st.account ≡ some a
      → get_account crates authority later st ≡ (ok a, st)
  unfolding get_account
  get_account-set later st a e = ground arith
