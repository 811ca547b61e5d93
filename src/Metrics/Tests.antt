-- ===== src/Metrics/Tests.antt =====
-- The theorems on metrics.py at a few calls.
use proxy_hopper_v.Common.{◌+◌, ◌≡◌, refl, List, [], ◌∷◌, codes}
use proxy_hopper_v.Metrics.{
  Report, record_request, record_probe_success, record_probe_failure, requests, ip_reachable,
  collect_all,
}
use proxy_hopper_v.Metrics.Counting.{count_requests, last_told, collect_all-Counted}
use proxy_hopper_v.Metrics.Samples.{library, library-IsDocumented, enabled}

abbrev reports : List Report
reports =
    record_request (codes "t") (codes "success") 5
    ∷ record_probe_success (codes "a:80") 7
    ∷ record_probe_failure (codes "a:80") (codes "timeout") 9
    ∷ []

collect_all-Counted_example :
    let out = (collect_all library reports enabled).registry in
    (library-IsDocumented.counter out requests (codes "t" ∷ codes "success" ∷ [])
      ≡ 0 + count_requests (codes "t") (codes "success") reports)
    × (library-IsDocumented.gauge out ip_reachable (codes "a:80" ∷ [])
        ≡ last_told (codes "a:80") reports 0)
collect_all-Counted_example =
    collect_all-Counted library library-IsDocumented reports enabled (codes "t") (codes "success")
      (codes "a:80") refl
