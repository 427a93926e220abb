-- ===== src/Service/Tests.antt =====
-- The theorems on the interleaving: a configuration is received, the health check finds "a" down,
-- and a request for "/api/v1/u" is answered with "b".
use aralez.Prelude.{true, [], ◌∷◌, nat_eq, list_eq}
use aralez.Text.{Str, bytes}
use aralez.Structs.{InnerMap, Configuration, configuration_default}
use aralez.Lb.{Lb}
use aralez.Samples.{app_config, server, net, upstreams}
use aralez.BgService.{receive}
use aralez.Service.{Service, new_lb, tick}

abbrev at_start : Service
at_start = record { lb = new_lb app_config; reverse_store = [] }

abbrev configuration : Configuration
configuration = record configuration_default { upstreams = upstreams }

abbrev checked : Service
checked = tick (λ s. s) net (record at_start { lb = receive (λ s. s) configuration at_start.lb })

abbrev path : Str
path = bytes "/api/v1/u"

abbrev backend : InnerMap
backend = record (server "b" 8000) { is_ssl = true; is_http2 = true }

abbrev after : Lb
after = record checked.lb {
  ump_upst =
      (
        bytes "x.io",
        (bytes "/api", (backend ∷ [], 1))
            ∷ (bytes "/api/v1", ([], 0))
            ∷ (bytes "/", (server "c" 80 ∷ [], 0))
            ∷ [],
      )
      ∷ [];
}
