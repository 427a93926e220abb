-- ===== src/Jwt/Tests.antt =====
-- The theorems on src/utils/jwt.rs at a token that expires at 100.
use aralez.Prelude.{nat_eq, list_eq}
