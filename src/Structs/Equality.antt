-- ===== src/Structs/Equality.antt =====
-- The `PartialEq` that src/utils/structs.rs derives for `InnerAuth` and `InnerMap`.
use aralez.Prelude.{
  Bool, true, ◌&&◌, ◌≡◌, ◌↔◌, ◌==◌, ==_iff, PartialEq, arith, nat_eq, bool_eq, list_eq, option_eq,
}
use aralez.Prelude.Int.{int_eq}
use aralez.Structs.{InnerAuth, InnerMap}

unfoldable pub inner_auth_beq : InnerAuth → InnerAuth → Bool
inner_auth_beq a b = a.auth_type == b.auth_type && a.auth_cred == b.auth_cred

pub inner_auth_beq_iff : (a b : InnerAuth) → (inner_auth_beq a b ≡ true) ↔ (a ≡ b)
unfolding inner_auth_beq
inner_auth_beq_iff a b =
    ground (arith, ==_iff a.auth_type b.auth_type, ==_iff a.auth_cred b.auth_cred)

instance abbrev pub inner_auth_eq : PartialEq InnerAuth
inner_auth_eq = record { eq = inner_auth_beq; eq_iff = inner_auth_beq_iff }

unfoldable pub inner_map_beq : InnerMap → InnerMap → Bool
inner_map_beq a b =
    a.address == b.address
    && (a.port == b.port
        && (a.is_ssl == b.is_ssl
            && (a.is_http2 == b.is_http2
                && (a.to_https == b.to_https
                    && (a.rate_limit == b.rate_limit
                        && (a.x4xx_limit == b.x4xx_limit
                            && (a.healthcheck == b.healthcheck
                                && (a.redirect_to == b.redirect_to
                                    && a.authorization == b.authorization))))))))

pub inner_map_beq_iff : (a b : InnerMap) → (inner_map_beq a b ≡ true) ↔ (a ≡ b)
unfolding inner_map_beq
inner_map_beq_iff a b = ground (
  arith,
  ==_iff a.address b.address,
  ==_iff a.rate_limit b.rate_limit,
  ==_iff a.x4xx_limit b.x4xx_limit,
  ==_iff a.healthcheck b.healthcheck,
  ==_iff a.redirect_to b.redirect_to,
  ==_iff a.authorization b.authorization,
)

instance abbrev pub inner_map_eq : PartialEq InnerMap
inner_map_eq = record { eq = inner_map_beq; eq_iff = inner_map_beq_iff }
