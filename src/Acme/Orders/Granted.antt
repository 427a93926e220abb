-- ===== src/Acme/Orders/Granted.antt =====
-- An order that the authority grants once its challenges are served is fulfilled.
use mathlib.Core.List
use aralez.Prelude.{
  ◌+◌, ◌≤◌, ◌≡◌, refl, sym, ap, ◌∙◌, ℕ, ◌⊎◌, inl, inr, true, false, none, some, List, [], map, In,
  Option-cases, ==_false_of_ne, ltb, subst, arith, nat_eq, list_eq, ◌≢◌, ne_of_==_false, list_beq,
}
use aralez.Text.{Str, bytes, replace}
use aralez.DashMap.{keys, get, insert}
use aralez.DashMap.Laws.{get-insert, get-insert_self}
use aralez.ParceYaml.Load.{Result, ok, err}
use aralez.ParceYaml.Load.Laws.{Result-cases}
use aralez.Acme.{Account, State, Reply, text_reply, Crates, Authority, http01_challenge}
use aralez.Acme.Accounts.{write, get_account}
use aralez.Acme.Accounts.Once.{get_account-set}
use aralez.Acme.Orders.{
  token_of, poll_ready, issue, is_fresh, register, cert_expiry, order, renewal_window,
  generated_text, crt_path, key_path,
}
use aralez.Acme.Orders.Published.{
  pending, DistinctTokens, publish_all, authorize-pending, get-publish_all,
}

-- The paths of the certificate and of its key differ.
crt_path-ne-key_path :
    {Credentials : Type 0} (crates : Crates Credentials) (authority : Authority Credentials)
    (certs_dir domain : Str)
    → crt_path crates authority certs_dir domain ≢ key_path crates authority certs_dir domain
unfolding list_beq
crt_path-ne-key_path crates authority certs_dir domain e =
    let a = List.append_cancel_left certs_dir _ _ e in
    let b = List.append_cancel_left (bytes "/") _ _ a in
    let c : bytes ".crt" ≡ bytes ".key" = List.append_cancel_left domain _ _ b in
    ne_of_==_false (bytes ".crt") (bytes ".key") refl c

module _ {Credentials : Type 0} (crates : Crates Credentials)
    (authority : Authority Credentials) where
  -- The authority orders a certificate for the domain from the account, with these challenges; it
  -- takes the order to be ready if the proxy serves each of them, and then gives the certificate.
  pub record Grants (account : Account) (domain : Str) (key_auths : List Str)
      (private_key chain : Str) : Type 0 where
    pub csr_der : Str
    pub ordered : authority.new_order account domain ≡ ok (map pending key_auths)
    pub ready :
        (serves : Str → Reply)
        → ((k token : Str)
            → In k key_auths
            → token_of k ≡ some token
            → serves token ≡ text_reply 200 k)
        → authority.poll_ready serves ≡ ok tt
    pub params : crates.new_params domain ≡ ok tt
    pub generated : crates.generate ≡ ok private_key
    pub signed : crates.serialize_request domain private_key ≡ ok csr_der
    pub finalized : authority.finalize_csr csr_der ≡ ok tt
    pub polled : authority.poll_certificate ≡ ok chain

  -- The order is reported as done, no challenge is left, and the certificate and its key are in
  -- their files.
  abbrev pub IsFulfilled : Str → Str → Str → Str → Result Str × State → Type 0
  IsFulfilled chain private_key crt key end =
      (end.0 ≡ ok generated_text)
      × (end.1.challenges ≡ [])
      × (get crt end.1.files ≡ some (some chain))
      × (get key end.1.files ≡ some (some private_key))

  module _ {account : Account} {domain private_key chain : Str} {key_auths : List Str}
      (grants : Grants account domain key_auths private_key chain)
      (distinct : DistinctTokens key_auths)
      (writable : (path : Str) → crates.refused path ≡ none) where
    poll_ready-published :
        (st : State)
        → let st' : State = record st { challenges = publish_all key_auths st.challenges } in
          poll_ready crates authority st' ≡ (ok tt, st')
    unfolding poll_ready http01_challenge
    poll_ready-published st =
        let st' : State = record st { challenges = publish_all key_auths st.challenges } in
        ap (λ r. (r, st'))
          (grants.ready (http01_challenge st') (λ k token i e.
            rw (get-publish_all key_auths st.challenges token k distinct i e, http01_challenge)
              refl))

    write_lem :
        (path text : Str) (st : State)
        → write crates authority path text st
          ≡ (ok tt, record st { files = insert path (some text) st.files })
    unfolding write
    write_lem path text st = rw (writable path, write) refl

    abbrev issued : State → Str → Str → State
    issued st crt key = record st {
      challenges = [];
      files = insert key (some private_key) (insert crt (some chain) st.files);
    }

    issue_lem :
        (credsfile crt key : Str) (st : State)
        → get_account crates authority credsfile st ≡ (ok account, st)
        → issue crates authority domain credsfile crt key st
          ≡ (ok generated_text, issued st crt key)
    unfolding issue
    issue_lem credsfile crt key st e =
        let st1 : State = record st { challenges = publish_all key_auths st.challenges } in
        let st2 : State = record st { challenges = [] } in
        let st3 : State = record st2 { files = insert crt (some chain) st.files } in
        ground (
          arith,
          grants,
          authorize-pending key_auths st,
          poll_ready-published st,
          write_lem crt chain st2,
          write_lem key private_key st3,
        )

    register-ok :
        (credsfile : Str) (st : State)
        → ((register crates authority domain credsfile st).0 ≡ ok tt)
          × ((register crates authority domain credsfile st).1.account ≡ st.account)
    unfolding register
    register-ok credsfile st = elim (Option-cases (get domain st.domains)) [
      | inr (b, e) ↦ rw (e, register) (refl, refl)
      | inl e ↦
          let st' : State = record st { domains = insert domain true st.domains } in
          let file = replace (bytes "/acme_credentials.json") (bytes "/domains.json") credsfile in
          elim (Result-cases (crates.list_to_json (keys st'.domains))) [
            | inl (m, f) ↦ rw (e, f, register) (refl, refl)
            | inr (json, f) ↦ rw (e, f, write_lem file json st', register) (refl, refl)
          ]
    ]

    -- The certificate cannot be read, or expires within 30 days.
    abbrev pub IsDue : Str → State → Type 0
    IsDue crt st =
        ((e : Str) × (cert_expiry crates authority crt st ≡ err e))
        ⊎ ((expiry now : ℕ) × (cert_expiry crates authority crt st ≡ ok expiry)
            × (crates.now ≡ ok now)
            × (expiry ≤ now + renewal_window))

    is_fresh-IsDue :
        (crt : Str) (st : State) → IsDue crt st → is_fresh crates authority crt st ≡ (ok false, st)
    unfolding is_fresh
    is_fresh-IsDue crt st (inl (e, f)) = rw (f, is_fresh) refl
    is_fresh-IsDue crt st (inr (expiry, now, f, g, h)) =
        let late : ltb (now + renewal_window) expiry ≡ false = ground arith in
        rw (f, is_fresh, g, late) refl

    -- An order for a certificate that is due is fulfilled where the authority grants it once its
    -- challenges are served, no two of which have one token, the account is set and the disk takes
    -- the files: the certificate and its key are written and the challenges are withdrawn.
    pub order-granted :
        (credsfile certs_dir : Str) (st : State)
        → st.account ≡ some account
        → IsDue
            (crt_path crates authority certs_dir domain)
            (register crates authority domain credsfile st).1
        → IsFulfilled chain private_key
            (crt_path crates authority certs_dir domain)
            (key_path crates authority certs_dir domain)
            (order crates authority domain credsfile certs_dir st)
    unfolding order
    order-granted credsfile certs_dir st set due =
        let crt = crt_path crates authority certs_dir domain in
        let key = key_path crates authority certs_dir domain in
        let (ok_tt, kept) = register-ok credsfile st in
        let st1 = (register crates authority domain credsfile st).1 in
        let registered : register crates authority domain credsfile st ≡ (ok tt, st1) =
          ap (λ r. (r, st1)) ok_tt in
        let fresh = is_fresh-IsDue crt st1 due in
        let done =
          issue_lem credsfile crt key st1
            (get_account-set crates authority credsfile st1 account (kept ∙ set)) in
        let same : order crates authority domain credsfile certs_dir st
            ≡ (ok generated_text, issued st1 crt key) =
          ground (arith, registered, fresh, done) in
        subst (IsFulfilled chain private_key crt key) (sym same) (
          refl,
          refl,
          get-insert key crt (some private_key) (insert crt (some chain) st1.files)
              ∙ rw
                  (==_false_of_ne key crt
                    (λ e. crt_path-ne-key_path crates authority certs_dir domain (sym e)))
                  (get-insert_self crt (some chain) st1.files),
          get-insert_self key (some private_key) (insert crt (some chain) st1.files),
        )
