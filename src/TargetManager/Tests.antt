-- ===== src/TargetManager/Tests.antt =====
-- The theorems on target_manager.py at a run of a small manager.
use proxy_hopper_v.Common.{
  zero, suc, codes, none, false, lookup, text_eq, ◌+◌, ◌≤◌, ◌≡◌, refl, some, List, [], ◌∷◌, arith,
  Text, count, bit, ok, true, ℕ, length, Result,
}
use proxy_hopper_v.Backend.{View, is_some}
use proxy_hopper_v.Backend.Memory.Promises.{memory, memory_contract}
use proxy_hopper_v.Backend.Memory.Stored.{view}
use proxy_hopper_v.Pool.Rotation.Copies.{count_cooling}
use proxy_hopper_v.Samples.{
  config, ips, ip1, ips-IsNodup, manager, manager-IsStarted, manager-IsSound, pool-Shows, rotation,
  request, answer,
}
use proxy_hopper_v.TargetManager.{
  outbound, Outbound, TargetManager, Flight, execute_request, take_request, end_wait,
}
use proxy_hopper_v.TargetManager.{is_in}
use proxy_hopper_v.TargetManager.Headers.{outbound-headers}
use proxy_hopper_v.Strings.{lower}
use proxy_hopper_v.Models.{raised}
use proxy_hopper_v.TargetManager.{expired_in_queue}
use proxy_hopper_v.Common.{◌⊎◌, ◌+◌}
use proxy_hopper_v.Models.{
  deadline, is_expired, done, ProxyResponse, resolved, can_retry, clone_for_retry,
}
use proxy_hopper_v.Pool.Refinement.{Shows}
use proxy_hopper_v.Metrics.{set_available_ips, set_quarantined_ips, set_queue_depth}
use proxy_hopper_v.TargetManager.Updates.{update_metrics, update_metrics-reports}
use proxy_hopper_v.TargetManager.Machine.Settling.Served.{rounds-served}
use proxy_hopper_v.TargetManager.Machine.Settling.{Serving, Clock, rounds, served, IsSteady}
use proxy_hopper_v.TargetManager.Execution.{Executed, execute_request-Executed}
use proxy_hopper_v.TargetManager.Machine.{
  Event, submits, takes, ends_wait, executes, wakes, sweeps, run,
}
use proxy_hopper_v.TargetManager.Machine.Effects.{sum_queue, sum_flights}
use proxy_hopper_v.TargetManager.Machine.Following.{addresses_of}
use proxy_hopper_v.TargetManager.Machine.Conservation.{run-conserves}
use proxy_hopper_v.TargetManager.Machine.Carried.{IsCarried, submitted-IsCarried}
use proxy_hopper_v.TargetManager.Machine.Retries.{exchanges, submitted-exchanges-le}
use proxy_hopper_v.TargetManager.Machine.Dispatch.{Ended, end_wait-Ended, Taken, take_request-Taken}

-- The first exchange is answered 503, the second 200.
abbrev turns : List Event
turns =
    takes 200 201
    ∷ ends_wait
    ∷ executes (λ o. ok (answer 503)) 200 300 0
    ∷ wakes 1300 0
    ∷ takes 1300 1301
    ∷ ends_wait
    ∷ executes (λ o. ok (answer 200)) 1300 1500 0
    ∷ sweeps 5000
    ∷ []

abbrev history : List Event
history = submits request ∷ turns

run-conserves_example :
    (v : View) × (view (run memory config manager history).pool.store config.name ≡ some v)
    × ((x : Text)
        → count x v.queue
            + count_cooling x (run memory config manager history).pool.cooling
            + bit (is_some (v.release x))
            + count x (addresses_of (run memory config manager history).in_flight)
          ≡ count x ips)
run-conserves_example =
    run-conserves memory memory_contract config ips manager history ips-IsNodup manager-IsStarted
      (omega arith)

submitted-IsCarried_example : IsCarried memory 7 (run memory config manager history)
unfolding sum_queue sum_flights
submitted-IsCarried_example =
    submitted-IsCarried memory memory_contract config manager request turns manager-IsSound refl
      (omega arith)

submitted-exchanges-le_example : exchanges memory config 7 manager history ≤ 2
unfolding sum_queue sum_flights
submitted-exchanges-le_example =
    submitted-exchanges-le memory memory_contract config manager request turns manager-IsSound refl
      refl (omega arith)

abbrev flight : Flight
flight = record { address = ip1; request = request }

execute_request-Executed_example :
    Executed memory memory_contract config 300 flight
      (ok (answer 503))
      manager
      rotation
      (execute_request memory config (λ o. ok (answer 503)) 200 300 flight manager)
execute_request-Executed_example =
    execute_request-Executed memory memory_contract config (λ o. ok (answer 503)) 200 300 flight
      manager rotation pool-Shows

abbrev in_wait : TargetManager memory
in_wait = record manager { waiting = some (record { request = request; timeout = 500 }) }

end_wait-Ended_example :
    Ended memory memory_contract config in_wait
      (record { request = request; timeout = 500 })
      rotation
      (end_wait memory config in_wait)
end_wait-Ended_example =
    end_wait-Ended memory memory_contract config in_wait _ rotation pool-Shows refl

take_request-Taken_example :
    Taken memory memory_contract config 200 201
      (record manager { request_queue = request ∷ [] })
      (take_request memory 200 201 (record manager { request_queue = request ∷ [] })).1
take_request-Taken_example =
    take_request-Taken memory memory_contract config 200 201
      (record manager { request_queue = request ∷ [] })

outbound-headers_example :
    let o = outbound 200 ip1 request in
    (lookup (codes "Connection") o.headers ≡ none)
    × (o.method ≡ codes "GET")
    × (o.url ≡ codes "http://example.com/")
    × (o.body ≡ none)
    × (o.proxy ≡ codes "http://a:80")
    × (o.allow_redirects ≡ false)
    × (30000 ≤ o.timeout)
    × (29900 ≤ o.timeout)
    × ((o.timeout ≡ 30000) ⊎ (o.timeout ≡ 29900))
unfolding is_in lower text_eq
outbound-headers_example = outbound-headers 200 ip1 (codes "Connection") request

-- The request alone in the queue.
abbrev queued : TargetManager memory
queued = record manager { request_queue = request ∷ [] }

queued-Serving : Serving memory memory_contract config [] queued request ips 1
queued-Serving = record {
  rotation = rotation;
  shows = pool-Shows;
  running = refl;
  waiting = refl;
  queue = refl;
  in_flight = refl;
  left = omega arith;
  unsettled = refl;
  listed = refl;
}

-- The first exchange is answered 503, every later one 200.
abbrev recovering : ℕ → Outbound → Result ProxyResponse
recovering zero o = ok (answer 503)
recovering (suc i) o = ok (answer 200)

-- A first exchange that ends at a given time, and quick ones from then on.
abbrev ending_at : ℕ → ℕ → Clock
ending_at t zero = record { taken = 200; asked = 201; started = 202; ended = t }
ending_at t (suc i) = record { taken = t; asked = t; started = t; ended = t + 100 }

quick-IsSteady : IsSteady (ending_at 300) request
unfolding is_expired deadline
quick-IsSteady zero e = refl
quick-IsSteady (suc i) e = refl

rounds-served_example :
    ((run memory config queued (rounds 0 (ending_at 300) recovering 2)).futures request.future
      ≡ served (ending_at 300) recovering 2 ips request)
    × (done (
          (run memory config queued (rounds 0 (ending_at 300) recovering 2)).futures request.future)
        ≡ true)
rounds-served_example =
    rounds-served memory memory_contract config [] 2 1 (ending_at 300) recovering queued request ips
      queued-Serving quick-IsSteady

-- The retry is answered, unless the deadline is over before it.
recovered : served (ending_at 300) recovering 2 ips request ≡ resolved (answer 200)
unfolding can_retry clone_for_retry is_expired deadline
recovered = refl

too_late : served (ending_at 40000) recovering 2 ips request ≡ raised expired_in_queue
unfolding can_retry clone_for_retry is_expired deadline
too_late = refl

update_metrics-reports_example :
    let out = update_metrics memory config queued in
    (xs : List Text) × ((a : Text) → count a xs ≡ bit (is_some (rotation.view.release a)))
    × (out.0
        ≡ set_available_ips config.name 2
          ∷ set_quarantined_ips config.name (length xs)
          ∷ set_queue_depth config.name 1
          ∷ [])
    × Shows memory memory_contract config out.1.pool rotation
    × (out.1 ≡ record queued { pool = out.1.pool })
update_metrics-reports_example =
    update_metrics-reports memory memory_contract config queued rotation pool-Shows
