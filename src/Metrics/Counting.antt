-- ===== src/Metrics/Counting.antt =====
-- What the metrics of metrics.py show after any calls of the collector, if prometheus_client keeps
-- its counters and gauges as documented.
use proxy_hopper_v.Common.{
  ℕ, ◌+◌, ◌≡◌, refl, ◌∙◌, ap, Bool, true, false, ◌&&◌, List, [], ◌∷◌, arith, if◌then◌else◌, bit,
  Text, text_eq,
}
use proxy_hopper_v.Metrics.{
  Prometheus, Report, record_request, set_queue_depth, set_available_ips, set_quarantined_ips,
  record_probe_success, record_probe_failure, requests, ip_reachable, report, Metrics, collect,
  collect_all,
}

unfoldable pub labels_eq : List Text → List Text → Bool
labels_eq [] [] = true
labels_eq [] (y ∷ ys) = false
labels_eq (x ∷ xs) [] = false
labels_eq (x ∷ xs) (y ∷ ys) = text_eq x y && labels_eq xs ys

-- The child of a metric.
abbrev pub is_child : Text → List Text → Text → List Text → Bool
is_child name labels m ls = text_eq name m && labels_eq labels ls

-- What the documentation says: `inc` adds one to its child and leaves every other value; `set`
-- gives its child a value and leaves every other; `observe` touches neither counters nor gauges.
pub record IsDocumented (p : Prometheus) : Type 0 where
  pub counter : p.Registry → Text → List Text → ℕ
  pub gauge : p.Registry → Text → List Text → ℕ
  pub counter_inc :
      (r : p.Registry) (n : Text) (l : List Text) (m : Text) (k : List Text)
      → counter (p.inc n l r) m k ≡ counter r m k + bit (is_child n l m k)
  pub counter_observe :
      (r : p.Registry) (n : Text) (l : List Text) (x : ℕ) (m : Text) (k : List Text)
      → counter (p.observe n l x r) m k ≡ counter r m k
  pub counter_set :
      (r : p.Registry) (n : Text) (l : List Text) (x : ℕ) (m : Text) (k : List Text)
      → counter (p.set_gauge n l x r) m k ≡ counter r m k
  pub gauge_inc :
      (r : p.Registry) (n : Text) (l : List Text) (m : Text) (k : List Text)
      → gauge (p.inc n l r) m k ≡ gauge r m k
  pub gauge_observe :
      (r : p.Registry) (n : Text) (l : List Text) (x : ℕ) (m : Text) (k : List Text)
      → gauge (p.observe n l x r) m k ≡ gauge r m k
  pub gauge_set :
      (r : p.Registry) (n : Text) (l : List Text) (x : ℕ) (m : Text) (k : List Text)
      → gauge (p.set_gauge n l x r) m k ≡ (if is_child n l m k then x else gauge r m k)

-- How many of the calls record a request of the target with the outcome.
abbrev pub is_request : Text → Text → Report → Bool
is_request t o (record_request target outcome d) = text_eq target t && text_eq outcome o
is_request t o _ = false

unfoldable pub count_requests : Text → Text → List Report → ℕ
count_requests t o [] = 0
count_requests t o (x ∷ xs) = bit (is_request t o x) + count_requests t o xs

-- Whether the address was reachable, by a call, and by the last of the calls that tells.
abbrev pub told : Text → Report → ℕ → ℕ
told a (record_probe_success address d) before = if text_eq address a then 1 else before
told a (record_probe_failure address why d) before = if text_eq address a then 0 else before
told a _ before = before

unfoldable pub last_told : Text → List Report → ℕ → ℕ
last_told a [] before = before
last_told a (x ∷ xs) before = last_told a xs (told a x before)

module _ (p : Prometheus) (d : IsDocumented p) where
  report-requests :
      (x : Report) (r : p.Registry) (t o : Text)
      → d.counter (report p x r) requests (t ∷ o ∷ [])
        ≡ d.counter r requests (t ∷ o ∷ []) + bit (is_request t o x)
  unfolding report text_eq labels_eq
  report-requests (record_request target outcome n) r t o =
      rw (d.counter_observe, d.counter_inc) (ground arith)
  report-requests (set_queue_depth target n) r t o = rw d.counter_set (omega arith)
  report-requests (set_available_ips target n) r t o = rw d.counter_set (omega arith)
  report-requests (set_quarantined_ips target n) r t o = rw d.counter_set (omega arith)
  report-requests (record_probe_success a n) r t o =
      rw (d.counter_set, d.counter_observe, d.counter_inc) refl
  report-requests (record_probe_failure a why n) r t o =
      rw (d.counter_set, d.counter_observe, d.counter_inc) refl

  report-reachable :
      (x : Report) (r : p.Registry) (a : Text)
      → d.gauge (report p x r) ip_reachable (a ∷ []) ≡ told a x (d.gauge r ip_reachable (a ∷ []))
  unfolding report text_eq labels_eq
  report-reachable (record_request target outcome n) r a = rw (d.gauge_observe, d.gauge_inc) refl
  report-reachable (set_queue_depth target n) r a = rw d.gauge_set refl
  report-reachable (set_available_ips target n) r a = rw d.gauge_set refl
  report-reachable (set_quarantined_ips target n) r a = rw d.gauge_set refl
  report-reachable (record_probe_success a' n) r a =
      rw (d.gauge_set, d.gauge_observe, d.gauge_inc) (ground arith)
  report-reachable (record_probe_failure a' why n) r a =
      rw (d.gauge_set, d.gauge_observe, d.gauge_inc) (ground arith)

  -- With the metrics enabled, after any sequence of calls of the collector: the counter of requests
  -- of a target and an outcome has grown by the number of calls that recorded one, and the gauge of
  -- an address says what the last probe of it that was recorded said, if there was one. The library
  -- keeps counters and gauges as it documents.
  pub collect_all-Counted :
      (xs : List Report) (m : Metrics p) (t o a : Text)
      → m.enabled ≡ true
      → let out = (collect_all p xs m).registry in
        (d.counter out requests (t ∷ o ∷ [])
          ≡ d.counter m.registry requests (t ∷ o ∷ []) + count_requests t o xs)
        × (d.gauge out ip_reachable (a ∷ [])
            ≡ last_told a xs (d.gauge m.registry ip_reachable (a ∷ [])))
  unfolding collect_all collect count_requests last_told
  collect_all-Counted [] m t o a e = (omega arith, refl)
  collect_all-Counted (x ∷ xs) m t o a e =
      let next : Metrics p = record { enabled = true; registry = report p x m.registry } in
      let (h, g) = collect_all-Counted xs next t o a refl in
      rw e (
        h ∙ omega (arith, report-requests x m.registry t o),
        g ∙ ap (last_told a xs) (report-reachable x m.registry a),
      )

  -- With the metrics disabled no call of the collector does anything.
  pub collect_all-disabled :
      (xs : List Report) (m : Metrics p) → m.enabled ≡ false → collect_all p xs m ≡ m
  unfolding collect_all collect
  collect_all-disabled [] m e = refl
  collect_all-disabled (x ∷ xs) m e =
      rw e (collect_all-disabled xs (record { enabled = false; registry = m.registry }) refl)
