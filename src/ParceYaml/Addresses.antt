-- ===== src/ParceYaml/Addresses.antt =====
-- The backend that a server text of src/utils/parceyaml.rs describes.
use aralez.Prelude.{
  ◌≤◌, ◌≡◌, refl, sym, ap, ◌∙◌, inl, inr, false, some, List, [], ◌∷◌, ◌++◌, arith, In, Option-cases,
  ◌⊎◌, subst, nat_eq, list_eq,
}
use mathlib.Core.Option
use aralez.Text.{Str, rsplit_once, parse_u16, u16_max}
use aralez.Text.Laws.{rsplit_once-some, parse_u16-le}
use aralez.Structs.{InnerMap, PathConfig}
use aralez.Tools.Format.{unwrap_or}
use aralez.ParceYaml.{inner_auth, parse_server, parse_servers}

-- A backend as a server text of a path describes it.
pub record Describes (path_config : PathConfig) (server : Str) (b : InnerMap) : Type 0 where
  pub port_str : Str
  pub text : server ≡ b.address ++ b':' ∷ port_str
  pub last_colon : ¬ (In b':' port_str)
  pub port : parse_u16 port_str ≡ some b.port
  pub port_le : b.port ≤ u16_max
  pub plain : (b.is_ssl ≡ false) × (b.is_http2 ≡ false)
  pub limits : (b.rate_limit ≡ path_config.rate_limit) × (b.x4xx_limit ≡ path_config.x4xx_limit)
  pub to_https : b.to_https ≡ unwrap_or false path_config.to_https
  pub healthcheck : b.healthcheck ≡ path_config.healthcheck
  pub redirect_to : b.redirect_to ≡ path_config.redirect_to
  pub authorization : b.authorization ≡ Option.map inner_auth path_config.authorization

parse_server-Describes :
    (path_config : PathConfig) (server : Str) (b : InnerMap)
    → parse_server path_config server ≡ some b
    → Describes path_config server b
unfolding parse_server
parse_server-Describes path_config server b h = elim (Option-cases (rsplit_once b':' server)) [
  | inl e ↦ absurd (ground arith)
  | inr ((ip, port_str), e) ↦ elim (Option-cases (parse_u16 port_str)) [
    | inl f ↦ absurd (ground arith)
    | inr (port, f) ↦
        let (split, last) = rsplit_once-some b':' server e in
        let same_address : ip ≡ b.address = ground arith in
        let same_port : port ≡ b.port = ground arith in
        record {
          port_str = port_str;
          text = split ∙ ap (λ a. a ++ b':' ∷ port_str) same_address;
          last_colon = last;
          port = f ∙ ap some same_port;
          port_le = subst (λ n. n ≤ u16_max) same_port (parse_u16-le port_str f);
          plain = ground arith;
          limits = ground arith;
          to_https = ground arith;
          healthcheck = ground arith;
          redirect_to = ground arith;
          authorization = ground arith;
        }
  ]
]

member : (x a : InnerMap) (xs : List InnerMap) → In x (a ∷ xs) → (x ≡ a) ⊎ In x xs
member x a xs m = m

-- A path's backends are those of its server texts that have a port; each is at the address and
-- port of its text, whose port fits 16 bits, with the limits, the redirection and the
-- authorization of the path, and not yet probed.
pub parse_servers-Describes :
    (path_config : PathConfig) (servers : List Str) (b : InnerMap)
    → In b (parse_servers path_config servers)
    → (server : Str) × In server servers × Describes path_config server b
unfolding parse_servers
parse_servers-Describes path_config [] b m = absurd m
parse_servers-Describes path_config (s ∷ servers) b m =
    elim (Option-cases (parse_server path_config s)) [
      | inl e ↦
          let (s', i, d) =
            parse_servers-Describes path_config servers b (rw (e, parse_servers) at m) in
          (s', inr i, d)
      | inr (a, e) ↦
          elim (member b a (parse_servers path_config servers) (rw (e, parse_servers) at m)) [
            | inl same ↦
                (s, inl refl, parse_server-Describes path_config s b (e ∙ ap some (sym same)))
            | inr m' ↦
                let (s', i, d) = parse_servers-Describes path_config servers b m' in (s', inr i, d)
          ]
    ]
