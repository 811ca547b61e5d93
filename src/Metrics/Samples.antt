-- ===== src/Metrics/Samples.antt =====
-- A registry of one process, with its counters and gauges.
use proxy_hopper_v.Common.{ℕ, ◌+◌, refl, true, List, if◌then◌else◌, bit, Text, ok}
use proxy_hopper_v.Metrics.{Prometheus, Metrics}
use proxy_hopper_v.Metrics.Counting.{IsDocumented, is_child}

-- The values of counters and of gauges.
pub record Values : Type 0 where
  pub counters : Text → List Text → ℕ
  pub gauges : Text → List Text → ℕ

abbrev pub library : Prometheus
library = record {
  Registry = Values;
  register = λ r. (ok tt, r);
  start_http_server = λ port r. (ok tt, r);
  inc = λ n l r. record r { counters = λ m k. r.counters m k + bit (is_child n l m k) };
  observe = λ n l x r. r;
  set_gauge = λ n l x r. record r { gauges = λ m k. if is_child n l m k then x else r.gauges m k };
}

abbrev pub library-IsDocumented : IsDocumented library
library-IsDocumented = record {
  counter = λ r. r.counters;
  gauge = λ r. r.gauges;
  counter_inc = λ r n l m k. refl;
  counter_observe = λ r n l x m k. refl;
  counter_set = λ r n l x m k. refl;
  gauge_inc = λ r n l m k. refl;
  gauge_observe = λ r n l x m k. refl;
  gauge_set = λ r n l x m k. refl;
}

abbrev pub enabled : Metrics library
enabled = record { enabled = true; registry = record { counters = λ m k. 0; gauges = λ m k. 0 } }
