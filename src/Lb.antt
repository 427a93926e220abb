-- ===== src/Lb.antt =====
-- `LB` of src/web/proxyhttp.rs: what the request handlers, the background service and the health
-- check share. Each `Arc` is the value that it points to; who changes it returns the new `Lb`.
use aralez.Structs.{UpstreamsDashMap, UpstreamsIdMap, Headers, AppConfig, Extraparams}

pub record Lb : Type 0 where
  pub ump_upst : UpstreamsDashMap
  pub ump_full : UpstreamsDashMap
  pub ump_byid : UpstreamsIdMap
  pub client_headers : Headers
  pub server_headers : Headers
  pub config : AppConfig
  pub extraparams : Extraparams
