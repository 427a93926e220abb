-- ===== src/Metrics.antt =====
-- src/utils/metrics.rs: what is counted of a finished request. The collectors of the crate
-- `prometheus` are a number or a map from labels to numbers; the buckets are not modelled.
use aralez.Prelude.{ℕ, suc, Option, none, some, List, ◌∷◌, list_eq, nat_eq}
use aralez.Prelude.Int.{ℤ, pos, negsuc}
use aralez.Text.{Str, bytes, show}
use aralez.DashMap.{DashMap, get, insert}

pub data HttpVersion : Type 0 where
  http_09 http_10 http_11 http_2 http_3 : HttpVersion

pub record MetricTypes : Type 0 where
  pub method : Str
  pub upstream : Str
  pub code : Option ℕ
  pub latency : ℕ
  pub version : HttpVersion

pub record Metrics : Type 0 where
  pub active_sessions : ℤ
  pub request_count : ℕ
  pub requests_by_version : DashMap Str ℕ
  pub response_codes : DashMap Str ℕ
  pub requests_by_method : DashMap Str ℕ
  pub requests_by_upstream : DashMap Str ℕ
  -- The observed latencies, the newest first.
  pub response_latency : List ℕ

abbrev pub inc : ℤ → ℤ
inc (pos n) = pos (suc n)
inc (negsuc ℕ.zero) = pos 0
inc (negsuc (suc n)) = negsuc n

abbrev pub dec : ℤ → ℤ
dec (pos ℕ.zero) = negsuc 0
dec (pos (suc n)) = pos n
dec (negsuc n) = negsuc (suc n)

abbrev counted : Option ℕ → ℕ
counted none = 0
counted (some n) = n

-- `with_label_values(&[label]).inc()`
unfoldable pub inc_label : Str → DashMap Str ℕ → DashMap Str ℕ
inc_label label m = insert label (suc (counted (get label m))) m

abbrev pub version_str : HttpVersion → Str
version_str http_11 = bytes "HTTP/1.1"
version_str http_2 = bytes "HTTP/2.0"
version_str http_3 = bytes "HTTP/3.0"
version_str http_10 = bytes "HTTP/1.0"
version_str http_09 = bytes "Unknown"

-- `StatusCode::GONE`
abbrev code_str : Option ℕ → Str
code_str none = show 410
code_str (some code) = show code

unfoldable pub calc_metrics : MetricTypes → Metrics → Metrics
calc_metrics t m = record m {
  request_count = suc m.request_count;
  requests_by_version = inc_label (version_str t.version) m.requests_by_version;
  response_codes = inc_label (code_str t.code) m.response_codes;
  requests_by_method = inc_label t.method m.requests_by_method;
  requests_by_upstream = inc_label t.upstream m.requests_by_upstream;
  response_latency = t.latency ∷ m.response_latency;
}
