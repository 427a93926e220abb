-- ===== src/HealthCheck.antt =====
-- src/utils/healthcheck.rs: probing the configured servers, and one tick of the checking loop.
-- The clients of the crates `reqwest` and `tonic` are the parameter `Net`: what the network
-- answers during one round. Timeouts and the interval are not modelled.
pub mod Kept
pub mod Tick
mod Tests
use aralez.Prelude.{
  ℕ, ◌<◌, Bool, true, false, not, ◌&&◌, ◌||◌, Option, none, some, List, [], ◌∷◌, ◌++◌, ◌==◌, nat_eq,
  list_eq, if◌then◌else◌, ltb, leb,
}
use aralez.Text.{Str, bytes, show}
use aralez.DashMap.{DashMap, insert}
use aralez.Structs.{InnerMap, Servers, PathMap, UpstreamsDashMap, UpstreamsIdMap}
use aralez.Tools.{clone_dashmap, clone_dashmap_into, clone_idmap_into, compare_dashmaps}
use aralez.Tools.Format.{unwrap_or}

pub data Version : Type 0 where
  http_10 http_11 http_2 http_3 : Version

-- `None` is a request that fails.
pub record Net : Type 0 where
  -- The version of the answer to a GET.
  pub version : Str → Option Version
  -- The status of the answer to a request with this method and URL.
  pub status : Str → Str → Option ℕ
  -- Whether a gRPC connection to the URL is made in time (`ping_grpc`).
  pub ping_grpc : Str → Bool

abbrev pub is_http_2 : Option Version → Bool
is_http_2 (some http_2) = true
is_http_2 _ = false

module _ (net : Net) where
  -- Without an HTTP answer a gRPC connection means HTTP/2.
  grpc_version : Str → Option Version
  grpc_version url = if net.ping_grpc url then some http_2 else none

  unfoldable pub detect_tls : Str → ℕ → Bool × Option Version
  unfolding grpc_version show
  detect_tls ip port =
      let https_url = bytes "https://" ++ (ip ++ (b':' ∷ show port)) in
      let http_url = bytes "http://" ++ (ip ++ (b':' ∷ show port)) in
      elim (net.version https_url) [
        | some v ↦ (true, some v)
        | none ↦ elim (net.version http_url) [
          | some v ↦ (false, some v)
          | none ↦ (false, grpc_version http_url)
        ]
      ]

  -- `(99..499).contains(&status)`
  abbrev pub is_alive_status : ℕ → Bool
  is_alive_status status = leb 99 status && ltb status 499

  abbrev pub is_supported : Str → Bool
  is_supported method = method == bytes "POST" || (method == bytes "GET" || method == bytes "HEAD")

  unfoldable pub http_request : Str → Str → Bool × Bool
  http_request url method =
      if not (is_supported method) then (false, false) else elim (net.status method url) [
        | some status ↦ (is_alive_status status, false)
        | none ↦ (net.ping_grpc url, true)
      ]

  abbrev pub is_checked : InnerMap → Bool
  is_checked upstream = unwrap_or true upstream.healthcheck

  abbrev pub tls_of : InnerMap → Bool × Option Version
  tls_of upstream =
      if is_checked upstream then detect_tls upstream.address upstream.port else (false, none)

  -- The backend with what the probe found out; the rest is as configured.
  abbrev pub scheme : InnerMap → InnerMap
  scheme upstream = record upstream {
    is_ssl = (tls_of upstream).0;
    is_http2 = is_http_2 (tls_of upstream).1;
  }

  unfoldable pub link : Str → InnerMap → Str
  unfolding show
  link path upstream =
      (if (tls_of upstream).0 then bytes "https://" else bytes "http://")
      ++ (upstream.address ++ (b':' ∷ (show upstream.port ++ path)))

  -- One server of the innermost loop: pushed, or dead.
  unfoldable pub probe : Str → Str → InnerMap → Option InnerMap
  probe method path upstream =
      if is_checked upstream
      then (if (http_request (link path upstream) method).0 then some (scheme upstream) else none)
      else some (scheme upstream)

  unfoldable pub probe_servers : Str → Str → List InnerMap → List InnerMap
  probe_servers method path [] = []
  probe_servers method path (upstream ∷ rest) = elim (probe method path upstream) [
    | some alive ↦ alive ∷ probe_servers method path rest
    | none ↦ probe_servers method path rest
  ]

  unfoldable pub build_paths : Str → PathMap → PathMap → PathMap
  build_paths method inner [] = inner
  build_paths method inner ((path, (vec, _)) ∷ rest) =
      build_paths method (insert path (probe_servers method path vec, 0) inner) rest

  unfoldable pub build_hosts : Str → UpstreamsDashMap → UpstreamsDashMap → UpstreamsDashMap
  build_hosts method totest [] = totest
  build_hosts method totest ((host, val) ∷ rest) =
      build_hosts method (insert host (build_paths method [] val) totest) rest

  unfoldable pub build_upstreams : UpstreamsDashMap → Str → UpstreamsDashMap
  build_upstreams fullist method = build_hosts method [] (clone_dashmap fullist)

  unfoldable pub initiate_upstreams : UpstreamsDashMap → UpstreamsDashMap
  initiate_upstreams fullist = build_upstreams fullist (bytes "HEAD")

-- What the loop of `hc2` changes.
pub record Checked : Type 0 where
  pub upslist : UpstreamsDashMap
  pub idlist : UpstreamsIdMap
  pub reverse_store : DashMap Str Str

-- One tick.
unfoldable pub hc2 : (Str → Str) → Net → UpstreamsDashMap → Str → Checked → Checked
hc2 sha_hex net fullist method c =
    let totest = build_upstreams net fullist method in
    if not (compare_dashmaps totest c.upslist)
    then record {
      upslist = clone_dashmap_into totest c.upslist;
      idlist = clone_idmap_into sha_hex totest c.idlist;
      reverse_store = [];
    }
    else c
