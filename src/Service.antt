-- ===== src/Service.antt =====
-- How the parts that share the `Lb` of src/web/proxyhttp.rs interleave: the loop of the background
-- service (src/web/bgservice.rs), the health check that it spawns with `ump_upst`, `ump_full` and
-- `ump_byid`, and the requests, in any order. A turn of one of them is a step; the locks of the
-- maps are not modelled, so a turn is not interrupted.
pub mod Probed
pub mod Backed
mod Tests
use aralez.Prelude.{◌≡◌, Option, some, [], nat_eq, list_eq}
use aralez.Text.{Str}
use aralez.DashMap.{DashMap}
use aralez.Structs.{InnerMap, UpstreamsDashMap, Configuration, AppConfig, extraparams_default}
use aralez.Lb.{Lb}
use aralez.Tools.Clone.{IsUpstreams}
use aralez.HealthCheck.{Net, Checked, hc2}
use aralez.BgService.{receive}
use aralez.GetHosts.{get_host}

pub record Service : Type 0 where
  pub lb : Lb
  -- The cookies that are issued, the static `REVERSE_STORE`.
  pub reverse_store : DashMap Str Str

-- The one that `run` of src/web/start.rs makes.
unfoldable pub new_lb : AppConfig → Lb
new_lb cfg = record {
  ump_upst = [];
  ump_full = [];
  ump_byid = [];
  client_headers = [];
  server_headers = [];
  config = cfg;
  extraparams = extraparams_default;
}

-- A tick of the task `hc2` on the maps that it shares with the service.
unfoldable pub tick : (Str → Str) → Net → Service → Service
tick sha_hex net s =
    let c = hc2 sha_hex net s.lb.ump_full s.lb.config.hc_method (record {
      upslist = s.lb.ump_upst;
      idlist = s.lb.ump_byid;
      reverse_store = s.reverse_store;
    }) in
    record {
      lb = record s.lb { ump_upst = c.upslist; ump_byid = c.idlist };
      reverse_store = c.reverse_store;
    }

-- The states that the service reaches from empty maps, each with the upstreams of the
-- configuration that was received last, in which no host may stand twice and no path twice under
-- a host. Each tick sees a network of its own. The cookies, which responses issue and a load of
-- the file forgets, may change at any time.
pub data Reached (sha_hex : Str → Str) : UpstreamsDashMap → Service → Type 0 where
  empty : (cfg : AppConfig) → Reached sha_hex [] (record { lb = new_lb cfg; reverse_store = [] })
  after_receive :
      {c : UpstreamsDashMap} {s : Service} (ss : Configuration)
      → Reached sha_hex c s
      → IsUpstreams ss.upstreams
      → Reached sha_hex ss.upstreams (record s { lb = receive sha_hex ss s.lb })
  after_tick :
      {c : UpstreamsDashMap} {s : Service} (net : Net)
      → Reached sha_hex c s
      → Reached sha_hex c (tick sha_hex net s)
  after_request :
      {c : UpstreamsDashMap} {s : Service} (peer path : Str) (backend_id : Option Str)
      (b : InnerMap) (lb' : Lb)
      → Reached sha_hex c s
      → get_host s.lb peer path backend_id ≡ some (b, lb')
      → Reached sha_hex c (record s { lb = lb' })
  after_cookies :
      {c : UpstreamsDashMap} {s : Service} (issued : DashMap Str Str)
      → Reached sha_hex c s
      → Reached sha_hex c (record s { reverse_store = issued })
