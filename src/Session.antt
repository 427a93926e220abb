-- ===== src/Session.antt =====
-- The `Session` of the crate `pingora_proxy` as the handlers use it: the request as it was read,
-- the headers that the handlers add to it, and the responses that they write. Writing to the
-- client is taken to succeed.
use aralez.Prelude.{ℕ, Bool, Option, none, some, List, ◌∷◌, list_eq, nat_eq}
use aralez.Text.{Str}
use aralez.DashMap.{DashMap, get}

-- `text` is what `to_str` returns: there is none where a byte is not visible ASCII.
pub record HeaderValue : Type 0 where
  pub text : Option Str

pub record Response : Type 0 where
  pub status : ℕ
  pub headers : DashMap Str Str
  pub body : Str
  -- `set_keepalive(None)`
  pub closes : Bool

pub record Session : Type 0 where
  pub method : Str
  pub is_http2 : Bool
  pub uri_host : Option Str
  pub path : Str
  pub query : Option Str
  pub headers : DashMap Str HeaderValue
  -- The address of the client, where it is an internet address.
  pub client_ip : Option Str
  -- The connection, and whether it uses TLS (`stream`, `get_ssl`).
  pub stream : Option Bool
  -- What was written to the client, the newest first (`response_written`).
  pub written : List Response

unfoldable pub header_text : Str → Session → Option Str
header_text name session = elim (get name session.headers) [ none ↦ none | some v ↦ v.text ]

-- `write_response_header`, `respond_error`, `respond_error_with_body`
abbrev pub write_response : Response → Session → Session
write_response r session = record session { written = r ∷ session.written }
