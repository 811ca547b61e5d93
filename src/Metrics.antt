-- ===== src/Metrics.antt =====
-- metrics.py: the collectors. prometheus_client is a parameter; durations are milliseconds.
pub mod Counting
pub mod Samples
mod Tests
use proxy_hopper_v.Common.{
  ℕ, Bool, true, false, ◌&&◌, List, [], ◌∷◌, if◌then◌else◌, Text, codes, text_eq, Error, Result, ok,
  err, Exec,
}
use proxy_hopper_v.Strings.Ints.{ℤ}

-- The library, over the states of its registry: a metric is told by its name, and a child of it by
-- the values of its labels.
pub record Prometheus : Type 1 where
  pub Registry : Type 0
  -- PrometheusMetrics(), which registers the metrics
  pub register : Exec Registry (Unit {0})
  pub start_http_server : ℤ → Exec Registry (Unit {0})
  -- Counter.inc, Histogram.observe, Gauge.set
  pub inc : Text → List Text → Registry → Registry
  pub observe : Text → List Text → ℕ → Registry → Registry
  pub set_gauge : Text → List Text → ℕ → Registry → Registry

-- A call of a collector.
pub data Report : Type 0 where
  record_request : Text → Text → ℕ → Report
  set_queue_depth : Text → ℕ → Report
  set_available_ips : Text → ℕ → Report
  set_quarantined_ips : Text → ℕ → Report
  record_probe_success : Text → ℕ → Report
  record_probe_failure : Text → Text → ℕ → Report

abbrev pub requests : Text
requests = codes "proxy_hopper_requests_total"

abbrev pub request_duration : Text
request_duration = codes "proxy_hopper_request_duration_seconds"

abbrev pub queue_depth : Text
queue_depth = codes "proxy_hopper_queue_depth"

abbrev pub available_ips : Text
available_ips = codes "proxy_hopper_available_ips"

abbrev pub quarantined_ips : Text
quarantined_ips = codes "proxy_hopper_quarantined_ips"

abbrev pub probe_success : Text
probe_success = codes "proxy_hopper_probe_success_total"

abbrev pub probe_failure : Text
probe_failure = codes "proxy_hopper_probe_failure_total"

abbrev pub probe_duration : Text
probe_duration = codes "proxy_hopper_probe_duration_seconds"

abbrev pub ip_reachable : Text
ip_reachable = codes "proxy_hopper_ip_reachable"

module _ (p : Prometheus) where
  -- The methods of `PrometheusMetrics`.
  unfoldable pub report : Report → p.Registry → p.Registry
  report (record_request target outcome duration) r =
      p.observe request_duration (target ∷ []) duration (p.inc requests (target ∷ outcome ∷ []) r)
  report (set_queue_depth target depth) r = p.set_gauge queue_depth (target ∷ []) depth r
  report (set_available_ips target n) r = p.set_gauge available_ips (target ∷ []) n r
  report (set_quarantined_ips target n) r = p.set_gauge quarantined_ips (target ∷ []) n r
  report (record_probe_success address duration) r =
      p.set_gauge ip_reachable (address ∷ []) 1
        (p.observe probe_duration (address ∷ []) duration (p.inc probe_success (address ∷ []) r))
  report (record_probe_failure address reason duration) r =
      p.set_gauge ip_reachable (address ∷ []) 0 (
        p.observe probe_duration (address ∷ []) duration
          (p.inc probe_failure (address ∷ reason ∷ []) r))

  -- The module with its `_collector`, which is the null object or writes to the registry.
  pub record Metrics : Type 0 where
    pub enabled : Bool
    pub registry : p.Registry

  -- A call of the collector that `get_metrics` gives; `_NoopMetrics` does nothing.
  unfoldable pub collect : Report → Metrics → Metrics
  unfolding report
  collect x m = if m.enabled then record m { registry = report x m.registry } else m

  unfoldable pub collect_all : List Report → Metrics → Metrics
  unfolding collect
  collect_all [] m = m
  collect_all (x ∷ xs) m = collect_all xs (collect x m)

  abbrev pub serving : ℤ → Result (Unit {0}) × p.Registry → Exec Metrics (Unit {0})
  serving port (err e, r) m = (err e, record m { registry = r })
  serving port (ok x, r) m = (
    (p.start_http_server port r).0,
    record { enabled = true; registry = (p.start_http_server port r).1 },
  )

  -- `available` is _PROMETHEUS_AVAILABLE.
  unfoldable pub start_metrics_server : Bool → ℤ → Exec Metrics (Unit {0})
  start_metrics_server available port m =
      if available then serving port (p.register m.registry) m else (ok tt, m)
