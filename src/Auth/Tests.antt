-- ===== src/Auth/Tests.antt =====
-- The theorems on src/utils/auth.rs at sample requests.
use aralez.Prelude.{◌≡◌, refl, ◌↔◌, true, false, some, [], ◌∷◌, list_beq, nat_eq, list_eq}
use aralez.Text.{Str, bytes, split_once, find, strip_prefix, parse_u16, parse_digits}
use aralez.DashMap.{get, insert}
use aralez.Samples.{auth_env, authorized}
use aralez.Session.{HeaderValue, Session, header_text}
use aralez.Auth.{
  AuthRequest, AuthResponse, forward_headers, split_host_port, basic_validate, auth_request,
}
use aralez.Auth.Laws.{PresentsBasic, basic_validate_iff}

abbrev with_password : Session
with_password = authorized (bytes "Basic dTpw")

basic_validate_run : basic_validate auth_env (bytes "u:p") with_password ≡ true
unfolding basic_validate header_text split_once find get list_beq
basic_validate_run = refl

basic_validate_iff_example :
    (basic_validate auth_env (bytes "u:p") with_password ≡ true)
    ↔ PresentsBasic auth_env (bytes "u:p") with_password
basic_validate_iff_example = basic_validate_iff auth_env (bytes "u:p") with_password

abbrev with_token : Session
with_token = authorized (bytes "Bearer h.p.s")

abbrev forward_url : Str
forward_url = bytes "http://auth:9000/check"

abbrev text : Str → HeaderValue
text s = record { text = some s }

abbrev asked : AuthRequest
asked = record {
  host = bytes "auth";
  port = 9000;
  tls = false;
  method = bytes "GET";
  uri = bytes "/check";
  headers =
      (bytes "Host", text (bytes "auth:9000"))
      ∷ (bytes "X-Forwarded-Uri", text (bytes "/check"))
      ∷ (bytes "X-Forwarded-Method", text (bytes "GET"))
      ∷ (bytes "Authorization", text (bytes "Basic dTpw"))
      ∷ (bytes "X-Forwarded-Proto", text (bytes "http"))
      ∷ [];
}

forward_run : auth_request auth_env forward_url with_password ≡ some asked
unfolding auth_request strip_prefix find split_host_port split_once parse_u16 parse_digits get
    insert list_beq forward_headers
forward_run = refl

abbrev answer : AuthResponse
answer = record { status = 302; headers = (bytes "location", text (bytes "/login")) ∷ [] }
