-- ===== src/Acme.antt =====
-- src/tls/acme/order.rs, src/tls/acme/account.rs and src/web/acme.rs: ordering and renewing
-- certificates. The ACME server and the crates that speak to it, that build keys and that parse
-- certificates are the parameters `Crates` and `Authority`; the disk is a map from paths to
-- files.
pub mod Rules
pub mod Accounts
pub mod Orders
mod Tests
use aralez.Prelude.{
  ℕ, ◌+◌, ◌*◌, ◌-◌, ◌^◌, Bool, true, Option, none, some, List, [], ◌∷◌, ◌++◌, ltb, nat_eq, list_eq,
  if◌then◌else◌,
}
use aralez.Prelude.Int.{ℤ, pos, negsuc}
use aralez.Text.{Str, bytes, split, replace, trim_matches}
use aralez.DashMap.{DashMap, keys, get, insert}
use aralez.ParceYaml.Load.{Result, ok, err}

-- `Account` of the crate `instant_acme`, of which the source reads the id.
pub record Account : Type 0 where
  pub id : Str

-- What is on a path: there is no text where `read_to_string` fails.
abbrev pub File : Type 0
File = Option Str

-- The statics `ACCOUNT`, `DOMAINS` and `CHALLENGES`, and the disk.
pub record State : Type 0 where
  pub account : Option Account
  pub domains : DashMap Str Bool
  pub challenges : DashMap Str Str
  pub files : DashMap Str File

-- An answer of the API.
pub record Reply : Type 0 where
  pub status : ℕ
  pub content_type : Option Str
  pub body : Str

abbrev pub reply : ℕ → Str → Reply
reply status body = record { status = status; content_type = none; body = body }

abbrev pub text_reply : ℕ → Str → Reply
text_reply status body = record {
  status = status;
  content_type = some (bytes "text/plain");
  body = body;
}

unfoldable pub http01_challenge : State → Str → Reply
http01_challenge st token = elim (get token st.challenges) [
  | some key_authorization ↦ text_reply 200 key_authorization
  | none ↦ text_reply 404 (bytes "Not found")
]

-- An authorization of an order: the key authorization of its HTTP challenge, if it has one, and
-- whether `set_ready` succeeds.
pub record Authorization : Type 0 where
  pub http01 : Option Str
  pub set_ready : Result (Unit {0})

-- The crates `serde_json`, `x509_parser` and `rcgen`, the disk's refusals, and the clock. A
-- private key is its PEM text.
pub record Crates (Credentials : Type 0) : Type 0 where
  pub to_json : Credentials → Result Str
  pub from_json : Str → Option Credentials
  pub list_to_json : List Str → Result Str
  -- The end of validity, in seconds since 1970, of a certificate file.
  pub not_after : File → Result ℤ
  pub generate : Result Str
  -- `CertificateParams::new` for a domain.
  pub new_params : Str → Result (Unit {0})
  -- `serialize_request` for a domain and a private key.
  pub serialize_request : Str → Str → Result Str
  -- `fs::write` to this path fails.
  pub refused : Str → Option Str
  pub now : Result ℕ

-- The ACME server, as the crate `instant_acme` reaches it.
pub record Authority (Credentials : Type 0) : Type 0 where
  pub builder : Result (Unit {0})
  pub from_credentials : Credentials → Result Account
  pub create : Result (Account × Credentials)
  pub new_order : Account → Str → Result (List (Result Authorization))
  -- The server asks for challenges while the order is polled: given what it is answered.
  pub poll_ready : (Str → Reply) → Result (Unit {0})
  pub finalize_csr : Str → Result (Unit {0})
  pub poll_certificate : Result Str

-- The state stays changed after a failure.
abbrev pub Action : Type 0 → Type 0
Action A = State → Result A × State

infixl 5 ◌>>=◌ ◌>>◌
abbrev pub ◌>>=◌ : {A B : Type 0} → Action A → (A → Action B) → Action B
◌>>=◌ m f st = let (r, st') = m st in elim r [ ok a ↦ f a st' | err e ↦ (err e, st') ]

abbrev pub ◌>>◌ : {A B : Type 0} → Action A → Action B → Action B
m >> k = m >>= λ _. k

abbrev pub pure : {A : Type 0} → A → Action A
pure a st = (ok a, st)

-- `?`
abbrev pub lift : {A : Type 0} → Result A → Action A
lift r st = (r, st)

abbrev pub ok_or : {A : Type 0} → Option A → Str → Result A
ok_or none e = err e
ok_or (some a) e = ok a
