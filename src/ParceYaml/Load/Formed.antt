-- ===== src/ParceYaml/Load/Formed.antt =====
-- What a load returns can be received: no key stands twice in its maps.
use aralez.Prelude.{nat_eq, list_eq}
use aralez.DashMap.{DashMap}
use aralez.DashMap.Laws.{IsMap}
use aralez.Structs.{Configuration}
use aralez.Tools.Clone.{IsUpstreams}
use aralez.ParceYaml.{Populated}

-- No host of the upstreams stands twice, no path twice under a host, and no host twice in the
-- headers.
abbrev pub IsFormed : Configuration → Type 0
IsFormed c = IsUpstreams c.upstreams × IsMap c.client_headers × IsMap c.server_headers

abbrev IsFilled : Populated → Type 0
IsFilled p = IsUpstreams p.imtdashmap × IsMap p.client_headers × IsMap p.server_headers
