-- ===== src/Service/Backed.antt =====
-- Where the backends come from that the interleaved parts of the service answer requests with.
use aralez.Prelude.{◌≡◌, nat_eq, list_eq}
use aralez.Structs.{UpstreamsDashMap}
use aralez.Lb.{Lb}
use aralez.Tools.Clone.{IsUpstreams, reset}
use aralez.Service.{Service}
use aralez.Service.Probed.{IsBacked}

-- What holds in every state.
pub record Inv (c : UpstreamsDashMap) (s : Service) : Type 0 where
  pub received : IsUpstreams c
  pub full : s.lb.ump_full ≡ reset c
  pub current : IsUpstreams s.lb.ump_upst
  pub backed : IsBacked c s.lb.ump_upst
