-- ===== src/Acme/Orders.antt =====
-- src/tls/acme/order.rs: ordering a certificate, and renewing all of them.
pub mod Published
pub mod Granted
pub mod Domains
use aralez.Prelude.{
  ℕ, ◌+◌, ◌*◌, ◌-◌, ◌^◌, Bool, true, false, Option, none, some, List, [], ◌∷◌, ◌++◌, ltb, nat_eq,
  list_eq, if◌then◌else◌,
}
use aralez.Prelude.Int.{ℤ, pos, negsuc}
use aralez.Text.{Str, bytes, split, replace, trim_matches}
use aralez.DashMap.{DashMap, keys, get, insert}
use aralez.ParceYaml.Load.{Result, ok, err}
use aralez.Acme.{
  State, Authorization, Crates, Authority, Action, Reply, reply, text_reply, http01_challenge,
  ◌>>=◌, ◌>>◌, pure, lift, ok_or,
}
use aralez.Acme.Accounts.{write, get_account}

-- `as u64` of a signed number of 64 bits.
abbrev pub as_u64 : ℤ → ℕ
as_u64 (pos n) = n
as_u64 (negsuc n) = 2 ^ 64 - 1 - n

-- The part of a key authorization before its first dot.
unfoldable pub token_of : Str → Option Str
token_of key_auth = elim (split b'.' key_auth) [ [] ↦ none | token ∷ _ ↦ some token ]

abbrev pub publish : Str → Str → Action (Unit {0})
publish token key_auth st = (ok tt, record st { challenges = insert token key_auth st.challenges })

abbrev pub clear_challenges : Action (Unit {0})
clear_challenges st = (ok tt, record st { challenges = [] })

unfoldable pub authorize : List (Result Authorization) → Action (Unit {0})
authorize [] = pure tt
authorize (auth ∷ authorizations) = do
  a ← lift auth
  key_auth ← lift (ok_or a.http01 (bytes "no http01 challenge found"))
  token ← lift (ok_or (token_of key_auth) (bytes "invalid key authorization"))
  publish token key_auth
  lift a.set_ready
  authorize authorizations

abbrev pub renewal_window : ℕ
renewal_window = 30 * 24 * 3600

abbrev pub fresh_text : Str
fresh_text = bytes "Fresh certificate exists. Not renewing ! \n"

abbrev pub generated_text : Str
generated_text = bytes "Certificate is successfully generated \n"

module _ {Credentials : Type 0} (crates : Crates Credentials)
    (authority : Authority Credentials) where
  unfoldable pub cert_expiry : Str → State → Result ℕ
  cert_expiry path st = elim (get path st.files) [
    | none ↦ err (bytes "No such file or directory")
    | some pem ↦ elim (crates.not_after pem) [ err e ↦ err e | ok t ↦ ok (as_u64 t) ]
  ]

  -- A domain that is new is recorded, and the list of all domains is written.
  unfoldable pub register : Str → Str → Action (Unit {0})
  unfolding write
  register domain credsfile st = elim (get domain st.domains) [
    | some _ ↦ (ok tt, st)
    | none ↦
        let st' : State = record st { domains = insert domain true st.domains } in
        elim (crates.list_to_json (keys st'.domains)) [
          | err _ ↦ (ok tt, st')
          | ok json_content ↦
              write crates authority
                (replace (bytes "/acme_credentials.json") (bytes "/domains.json") credsfile)
                json_content st'
        ]
  ]

  -- The certificate is there and expires in more than 30 days.
  unfoldable pub is_fresh : Str → Action Bool
  unfolding cert_expiry
  is_fresh crt st = elim (cert_expiry crt st) [
    | err _ ↦ (ok false, st)
    | ok expiry ↦ (lift crates.now >>= λ now. pure (ltb (now + renewal_window) expiry)) st
  ]

  unfoldable pub poll_ready : Action (Unit {0})
  unfolding http01_challenge
  poll_ready st = (authority.poll_ready (http01_challenge st), st)

  -- From the account to the files.
  unfoldable pub issue : Str → Str → Str → Str → Action Str
  unfolding get_account authorize poll_ready write
  issue domain credsfile crt key = do
    account ← get_account crates authority credsfile
    authorizations ← lift (authority.new_order account domain)
    authorize authorizations
    poll_ready
    lift (crates.new_params domain)
    private_key ← lift crates.generate
    csr_der ← lift (crates.serialize_request domain private_key)
    lift (authority.finalize_csr csr_der)
    cert_chain_pem ← lift authority.poll_certificate
    clear_challenges
    write crates authority crt cert_chain_pem
    write crates authority key private_key
    pure generated_text

  abbrev pub crt_path : Str → Str → Str
  crt_path certs_dir domain = certs_dir ++ (bytes "/" ++ (domain ++ bytes ".crt"))

  abbrev pub key_path : Str → Str → Str
  key_path certs_dir domain = certs_dir ++ (bytes "/" ++ (domain ++ bytes ".key"))

  unfoldable pub order : Str → Str → Str → Action Str
  order domain credsfile certs_dir = do
    register domain credsfile
    fresh ← is_fresh (crt_path certs_dir domain)
    if fresh
        then pure fresh_text
        else issue domain credsfile (crt_path certs_dir domain) (key_path certs_dir domain)

  -- One turn of the loop in `refresh_order`, over the keys that `DOMAINS` had when it began.
  unfoldable pub renew : List Str → Str → Str → State → State
  renew [] credsfile certs_dir st = st
  renew (domain ∷ domains) credsfile certs_dir st =
      renew domains credsfile certs_dir (order domain credsfile certs_dir st).1

  unfoldable pub refresh_order : Str → Str → State → State
  refresh_order certs_dir autoconf_dir st =
      renew (keys st.domains) (autoconf_dir ++ bytes "/acme_credentials.json") certs_dir st

  -- `acme_order` of src/web/acme.rs
  unfoldable pub acme_order : Str → Str → Str → State → Reply × State
  acme_order cert_creds certs_dir domain st =
      let (r, st') = order (trim_matches b'/' domain) cert_creds certs_dir st in
      elim r [
        | ok txt ↦ (text_reply 200 txt, st')
        | err e ↦ (reply 500 (bytes "Failed to order a certificate: " ++ e), st')
      ]
