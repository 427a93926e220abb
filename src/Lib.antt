-- ===== src/Lib.antt =====
-- Aralez, a reverse proxy on the framework pingora: the logic of its request path and of the
-- state behind it.
--
-- How the parts work together. A configuration file is loaded (src/utils/parceyaml.rs) into a
-- `Configuration` with upstreams, headers and parameters (src/utils/structs.rs), or Consul or
-- Kubernetes reports one (src/utils/kuberconsul.rs, src/utils/httpclient.rs); the background
-- service (src/web/bgservice.rs) installs what it receives. The upstreams are
-- a map from hosts to paths to servers with a round robin counter; they are copied, compared,
-- indexed by id and reported by src/utils/tools.rs. The health check (src/utils/healthcheck.rs)
-- probes the configured servers and installs the ones that answer. A request runs through the
-- phases of src/web/proxyhttp.rs: `request_filter` finds its host and backend
-- (src/web/gethosts.rs), authenticates it (src/utils/auth.rs, src/utils/jwt.rs), applies the
-- limits and redirections, `upstream_peer` connects it, two filters set headers and the sticky
-- cookie, and `logging` counts (src/utils/metrics.rs) and logs it (src/web/logging.rs).
--
-- Which file models which part. Every definition has the name of the function that it models or,
-- for a loop or a block, a name for what it does; the comment above says which.
--   Structs, Lb         src/utils/structs.rs, and the struct `LB` of src/web/proxyhttp.rs
--   GetHosts            src/web/gethosts.rs
--   Tools               src/utils/tools.rs: copies, comparison, id map, merging, JSON reports
--   HealthCheck         src/utils/healthcheck.rs
--   ParceYaml           src/utils/parceyaml.rs and src/utils/state.rs
--   Jwt, Auth           src/utils/jwt.rs, src/utils/auth.rs
--   ProxyHttp           src/web/proxyhttp.rs, with the statics of src/utils/lazylock.rs
--   BgService           src/web/bgservice.rs and src/utils/discovery.rs: what starts, the loop
--                       that receives configurations, and what receiving one does
--   Service             how that loop, the health check and the requests interleave on one `LB`
--   KuberConsul         src/utils/kuberconsul.rs, src/utils/httpclient.rs, with the polling loops
--   Watch               src/utils/filewatch.rs; `listdir` and `watch_folder` of src/utils/tools.rs
--   Certificates        src/tls/load.rs, src/tls/grades.rs, and their updates in src/web/start.rs
--   Acme                src/tls/acme/account.rs, src/tls/acme/order.rs, src/web/acme.rs
--   Start               src/web/start.rs; `check_priv` and `drop_priv` of src/utils/tools.rs
--   WebServer           src/web/webserver.rs: uploads and tokens
--   Outcome             the result of code that can panic
--   Metrics, Logging    src/utils/metrics.rs, src/web/logging.rs
--   Text, DashMap       the operations on `str` and `DashMap` that the source uses
--   Session             the `Session` of pingora as the handlers use it
--   Prelude, Samples    shared names, and the configuration that the tests run on
--
-- State. Shared maps, counters and statics are fields of records (`Lb`, `World`, `Globals`,
-- `Checked`) that a function takes and returns. A `DashMap` is an association list whose order is
-- that of insertion; the theorems ask for distinct keys (`IsMap`, `IsUpstreams`), which every
-- `DashMap` has. A handler runs without interference from others; `Service` states how handlers
-- follow each other, as an inductive family of the states that are reached.
--
-- Bounds and fuel. Texts are lists of bytes. The round robin counter wraps at 2 ^ 64 and the count
-- of 4xx answers at 2 ^ 32. The loop of `get_host` and the two of `get_header` run on fuel, the
-- length of the path plus one, which is enough since each step shortens the path; the theorems on
-- them have no assumption on fuel. The loops of `drop_priv`, which wait for the listeners, run on
-- as much fuel as is given. The endless loops (discovery, renewal, the watchers, the background
-- service) take a list with one entry for each turn.
--
-- Parameters. Code of other crates is an argument: the network of the health check (`Net`), the
-- YAML parser (`Yaml`), the disk (`Disk`), the decoders of tokens (`Decoders`), base64, URL
-- decoding and the authentication server (`AuthEnv`), the limiter and SHA-256 (`ProxyEnv`),
-- the answers of Consul and Kubernetes (`Answer`) and the files and variables around them
-- (`Host`), reading certificates (`Crypto`), the crates and the authority of ACME (`Crates`,
-- `Authority`), and the system at the start (`Machine`).
--
-- Not modelled. The pages of the configuration API other than uploads, tokens and the handlers of
-- ACME; signals, the log builder, reading memory use and open files, the thread that prints the
-- access log, and other printing. Time is modelled where a token's expiry or a
-- certificate's is compared with the clock, and in the watchers: the 4xx counts, which the source
-- forgets after a second, and the cache of tokens stand as they are at the moment of a call.
pub mod Prelude
pub mod Text
pub mod DashMap
pub mod Structs
pub mod Lb
pub mod GetHosts
pub mod Tools
pub mod HealthCheck
pub mod ParceYaml
pub mod Jwt
pub mod Session
pub mod Auth
pub mod Metrics
pub mod Logging
pub mod ProxyHttp
pub mod BgService
pub mod Outcome
pub mod KuberConsul
pub mod Certificates
pub mod WebServer
pub mod Acme
pub mod Watch
pub mod Service
pub mod Start
pub mod Samples
