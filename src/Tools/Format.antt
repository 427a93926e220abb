-- ===== src/Tools/Format.antt =====
-- The text that stands for a backend: the `write!` of `clone_idmap_into` in src/utils/tools.rs,
-- with the `Display` and `Debug` texts of its parts. `{:?}` of a `str` is written out for ASCII;
-- other bytes are left as they are.
use aralez.Prelude.{
  ℕ, suc, ◌+◌, ◌/◌, ◌%◌, false, ◌||◌, Option, none, some, [], ◌∷◌, ◌++◌, ◌==◌, nat_eq,
  if◌then◌else◌, ltb,
}
use aralez.Prelude.Int.{ℤ, pos, negsuc}
use aralez.Text.{Str, bytes, show, show_bool}
use aralez.Structs.{InnerAuth, InnerMap}

abbrev hex_digit : ℕ → ℕ
hex_digit d = if ltb d 10 then 48 + d else 87 + d

-- A control character below 0x80 as `\u{…}`, in lower-case hex without leading zeros.
unicode_escape : ℕ → Str
unicode_escape c =
    bytes "\\u{"
    ++ ((if ltb c 16 then hex_digit c ∷ [] else hex_digit (c / 16) ∷ hex_digit (c % 16) ∷ [])
        ++ bytes "}")

debug_byte : ℕ → Str
unfolding unicode_escape
debug_byte c =
    if c == 0
    then bytes "\\0"
    else if c == 9
    then bytes "\\t"
    else if c == 10
    then bytes "\\n"
    else if c == 13
    then bytes "\\r"
    else if c == 34
    then bytes "\\\""
    else if c == 92
    then bytes "\\\\"
    else if ltb c 32 || c == 127
    then unicode_escape c
    else c ∷ []

debug_bytes : Str → Str
unfolding debug_byte
debug_bytes [] = []
debug_bytes (c ∷ s) = debug_byte c ++ debug_bytes s

debug_str : Str → Str
unfolding debug_bytes
debug_str s = b'"' ∷ (debug_bytes s ++ b'"' ∷ [])

unfoldable pub debug_authorization : Option InnerAuth → Str
unfolding debug_str
debug_authorization none = bytes "None"
debug_authorization (some a) =
    bytes "Some(InnerAuth { auth_type: "
    ++ (debug_str a.auth_type ++ (bytes ", auth_cred: " ++ (debug_str a.auth_cred ++ bytes " })")))

unfoldable pub show_int : ℤ → Str
unfolding show
show_int (pos n) = show n
show_int (negsuc n) = b'-' ∷ show (suc n)

abbrev pub unwrap_or {ℓ} : {A : Type ℓ} → A → Option A → A
unwrap_or d none = d
unwrap_or d (some a) = a

-- "{}:{}:{}:{}:{}:{}:{}:{}:{:?}"
unfoldable pub id_string : Str → InnerMap → Str
unfolding show show_int debug_authorization
id_string host x =
    host
    ++ (b':'
        ∷ (x.address
            ++ (b':'
                ∷ (show x.port
                    ++ (b':'
                        ∷ (show_bool x.is_http2
                            ++ (b':'
                                ∷ (show_bool x.to_https
                                    ++ (b':'
                                        ∷ (show (unwrap_or 0 x.x4xx_limit)
                                            ++ (b':'
                                                ∷ (show_int (unwrap_or (pos 0) x.rate_limit)
                                                    ++ (b':'
                                                        ∷ (show_bool (unwrap_or false x.healthcheck)
                                                            ++ (b':'
                                                            ∷ debug_authorization
                                                            x.authorization)))))))))))))))
