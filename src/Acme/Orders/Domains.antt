-- ===== src/Acme/Orders/Domains.antt =====
-- Renewing the certificates never inserts into `DOMAINS`, the map that the loop iterates over.
use aralez.Prelude.{Bool, nat_eq, list_eq}
use aralez.Text.{Str}
use aralez.DashMap.{DashMap}
use aralez.Acme.{State, Action}
use aralez.Acme.Rules.{Keeps}

abbrev domains_of : State → DashMap Str Bool
domains_of st = st.domains

abbrev KeepsDomains : {A : Type 0} → Action A → Type 0
KeepsDomains m = Keeps domains_of m
