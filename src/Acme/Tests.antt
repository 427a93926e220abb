-- ===== src/Acme/Tests.antt =====
-- Ordering a certificate from an authority that grants an order once its challenge is served.
use aralez.Prelude.{
  refl, sym, ◌∙◌, inl, inr, some, none, true, [], ◌∷◌, ◌==◌, if◌then◌else◌, list_beq, nat_eq,
  list_eq,
}
use aralez.Prelude.Int.{pos}
use aralez.Text.{Str, bytes, split}
use aralez.DashMap.{get}
use aralez.ParceYaml.Load.{ok, err}
use aralez.Acme.{Account, State, Crates, Authority}
use aralez.Acme.Accounts.Once.{Once}
use aralez.Acme.Orders.{token_of, order, register, cert_expiry, crt_path, key_path}
use aralez.Acme.Orders.Published.{DistinctTokens}
use aralez.Acme.Orders.Granted.{Grants, IsFulfilled, order-granted}

abbrev domain : Str
domain = bytes "x.io"

abbrev key_auth : Str
key_auth = bytes "t.k"

abbrev account : Account
account = record { id = bytes "1" }

-- A text stands for credentials, which are stored as they are.
abbrev crates : Crates Str
crates = record {
  to_json = λ credentials. ok credentials;
  from_json = λ json. some json;
  list_to_json = λ domains. ok (bytes "[]");
  not_after = λ pem. ok (pos 100);
  generate = ok (bytes "key");
  new_params = λ domain. ok tt;
  serialize_request = λ domain key. ok (bytes "csr");
  refused = λ path. none;
  now = ok 50;
}

abbrev authority : Authority Str
authority = record {
  builder = ok tt;
  from_credentials = λ credentials. ok (record { id = credentials });
  create = ok (account, bytes "secret");
  new_order = λ account domain. ok (ok (record { http01 = some key_auth; set_ready = ok tt }) ∷ []);
  poll_ready =
      λ serves. if (serves (bytes "t")).body == key_auth then ok tt else err (bytes "unauthorized");
  finalize_csr = λ csr. ok tt;
  poll_certificate = ok (bytes "chain");
}

abbrev state : State
state = record {
  account = some account;
  domains = (domain, true) ∷ [];
  challenges = [];
  files = [];
}

grants : Grants crates authority account domain (key_auth ∷ []) (bytes "key") (bytes "chain")
unfolding token_of split list_beq
grants = record {
  csr_der = bytes "csr";
  ordered = refl;
  ready = λ serves served. rw (served key_auth (bytes "t") (inl refl) refl) refl;
  params = refl;
  generated = refl;
  signed = refl;
  finalized = refl;
  polled = refl;
}

distinct : DistinctTokens (key_auth ∷ [])
distinct j k (inl e) (inl f) same = e ∙ sym f
distinct j k (inr e) f same = elim e [ ]
distinct j k e (inr f) same = elim f [ ]

order-granted_example :
    IsFulfilled crates authority
      (bytes "chain")
      (bytes "key")
      (crt_path crates authority (bytes "/certs") domain)
      (key_path crates authority (bytes "/certs") domain)
      (order crates authority domain (bytes "/acme_credentials.json") (bytes "/certs") state)
unfolding register cert_expiry get list_beq
order-granted_example =
    order-granted crates authority grants distinct (λ path. refl) (bytes "/acme_credentials.json")
      (bytes "/certs") state refl (inl (bytes "No such file or directory", refl))

-- An account is made, since none is stored.
abbrev fresh_state : State
fresh_state = record { account = none; domains = (domain, true) ∷ []; challenges = []; files = [] }
