-- ===== src/Jwt.antt =====
-- src/utils/jwt.rs: the check of a token, with the cache of the tokens that passed. The decoders
-- of the crates `jsonwebtoken`, `base64` and `serde_json`, and the hash of `ahash`, are the
-- parameter `Decoders`; the clock is an argument. The cache may forget entries at any time (it
-- has a capacity and a time to live); what is proved holds of every cache that it can become.
pub mod Laws
mod Tests
use aralez.Prelude.{
  ℕ, ◌<◌, Bool, true, false, Option, none, some, List, [], ◌∷◌, ltb, ◌==◌, nat_eq, list_eq,
  if◌then◌else◌, length, get_elem?,
}
use aralez.Text.{Str, bytes, split}
use aralez.DashMap.{DashMap, get, insert}

pub record Claims : Type 0 where
  pub master_key : Str
  pub owner : Str
  pub exp : ℕ
  pub random : Option Str

pub record Decoders : Type 0 where
  -- `decode::<Claims>` with `Validation::new(HS256)`: the claims of a token that verifies.
  pub decode : Str → Str → Option Claims
  -- `URL_SAFE_NO_PAD.decode`, then `from_slice::<Expired>`: the field `exp` of the payload.
  pub payload_exp : Str → Option (Option ℕ)
  pub hash_token : Str → Str → ℕ

abbrev pub JwtCache : Type 0
JwtCache = DashMap ℕ ℕ

-- `None` is the error, of a token that has not three parts or a payload that does not decode.
unfoldable pub is_expired : Decoders → Str → ℕ → Option Bool
is_expired dec token now =
    let parts = split b'.' token in
    if length parts == 3
    then elim (get_elem? parts 1) [
      | none ↦ none
      | some payload ↦ elim (dec.payload_exp payload) [
        | none ↦ none
        | some none ↦ some true
        | some (some exp) ↦ some (ltb exp now)
      ]
    ]
    else none

-- Once the token is known not to have expired; `now` is the second reading of the clock.
unfoldable pub verify : Decoders → Str → Str → ℕ → JwtCache → Bool × JwtCache
verify dec token secret now cache = elim (dec.decode token secret) [
  | none ↦ (false, cache)
  | some claims ↦
      if ltb now claims.exp
      then (true, insert (dec.hash_token token secret) claims.exp cache)
      else (false, cache)
]

unfoldable pub check_jwt : Decoders → Str → Str → ℕ → ℕ → JwtCache → Bool × JwtCache
check_jwt dec token secret now later cache = elim (get (dec.hash_token token secret) cache) [
  | some exp ↦ if ltb exp now then (false, cache) else (true, cache)
  | none ↦ elim (is_expired dec token now) [
    | some false ↦ verify dec token secret later cache
    | some true ↦ (false, cache)
    | none ↦ (false, cache)
  ]
]
