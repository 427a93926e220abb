-- ===== src/Acme/Accounts.antt =====
-- src/tls/acme/account.rs: the account of the proxy at the ACME server, which is made once.
pub mod Once
use aralez.Prelude.{Option, none, some, ◌++◌, nat_eq, list_eq}
use aralez.Text.{Str, bytes}
use aralez.DashMap.{DashMap, get, insert}
use aralez.ParceYaml.Load.{Result, ok, err}
use aralez.Acme.{
  Account, File, State, Crates, Authority, Action, Reply, reply, text_reply, ◌>>=◌, ◌>>◌, pure,
  lift, ok_or,
}

module _ {Credentials : Type 0} (crates : Crates Credentials)
    (authority : Authority Credentials) where
  -- `fs::write`
  unfoldable pub write : Str → Str → Action (Unit {0})
  write path text st = elim (crates.refused path) [
    | some e ↦ (err e, st)
    | none ↦ (ok tt, record st { files = insert path (some text) st.files })
  ]

  unfoldable pub load_credentials : Str → DashMap Str File → Option Credentials
  load_credentials file files = elim (get file files) [
    | none ↦ none
    | some text ↦ elim text [ none ↦ none | some json ↦ crates.from_json json ]
  ]

  unfoldable pub save_credentials : Credentials → Str → Action (Unit {0})
  unfolding write
  save_credentials credentials file = do json ← lift (crates.to_json credentials); write file json

  -- `ACCOUNT.set`, whose failure is ignored: what was set stays.
  abbrev pub set_account : Account → Action (Unit {0})
  set_account account st = elim st.account [
    | none ↦ (ok tt, record st { account = some account })
    | some _ ↦ (ok tt, st)
  ]

  unfoldable pub create_account : Str → Action (Unit {0})
  unfolding save_credentials
  create_account file = do
    lift authority.builder
    created ← lift authority.create
    save_credentials created.1 file
    set_account created.0

  -- What `get_account` does where the account is not set.
  unfoldable pub init_account : Str → Action (Unit {0})
  unfolding create_account load_credentials
  init_account file st = elim (load_credentials file st.files) [
    | some credentials ↦
        (lift authority.builder >> (lift (authority.from_credentials credentials) >>= set_account))
          st
    | none ↦ create_account file st
  ]

  abbrev pub account_of : Action Account
  account_of st = (ok_or st.account (bytes "Failed to initialize account"), st)

  unfoldable pub get_account : Str → Action Account
  unfolding init_account
  get_account file st = elim st.account [
    | some account ↦ (ok account, st)
    | none ↦ (init_account file >> account_of) st
  ]

  unfoldable pub load_or_create : Str → Action Str
  unfolding get_account
  load_or_create file = do account ← get_account file; pure (account.id ++ bytes "\n")

  -- `acme_create` of src/web/acme.rs
  unfoldable pub acme_create : Str → State → Reply × State
  unfolding load_or_create
  acme_create cert_creds st =
      let (r, st') = load_or_create cert_creds st in
      elim r [
        | ok txt ↦ (text_reply 200 txt, st')
        | err e ↦ (reply 500 (bytes "Failed to create account: " ++ e), st')
      ]
