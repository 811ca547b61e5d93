-- ===== src/TargetManager.antt =====
-- target_manager.py: the class `TargetManager`, over any backend. The tasks of the event loop are
-- cut where they wait for something that another task, a clock or the network brings; between two
-- such points a task runs alone.
pub mod Execution
pub mod Machine
mod Tests
pub mod Headers
pub mod Updates
pub mod Forward
unfoldable pub use Forward.*
use proxy_hopper_v.Common.{
  ℕ, ◌+◌, ◌-◌, Bool, true, false, ◌||◌, Option, none, some, List, [], ◌∷◌, ◌++◌, ltb, leb, ◌==◌,
  if◌then◌else◌, max, Text, codes, text_eq, length, Dict, Error, timeout_error, client_error,
  Result, ok, err, Exec, pure, raise, ◌>>=◌, ◌>>◌,
}
use proxy_hopper_v.Strings.{lower}
use proxy_hopper_v.Config.{TargetConfig}
use proxy_hopper_v.Backend.{Backend}
use proxy_hopper_v.Models.{
  PendingRequest, is_expired, time_remaining, can_retry, clone_for_retry, ProxyResponse,
  FutureState, pending, resolved, raised, Futures, settle,
}
use proxy_hopper_v.Pool.{IpPool, extract}
use proxy_hopper_v.Pool

-- A task of `_execute_request`, from its creation to its end.
pub record Flight : Type 0 where
  pub address : Text
  pub request : PendingRequest

-- A request that the dispatcher took from the queue, with the time limit of its `acquire`.
pub record Waiting : Type 0 where
  pub request : PendingRequest
  pub timeout : ℕ

pub record TargetManager (b : Backend) : Type 0 where
  pub pool : IpPool b
  pub request_queue : List PendingRequest
  pub waiting : Option Waiting
  pub in_flight : List Flight
  pub futures : Futures
  -- self._running, with the tasks of the dispatcher and of the metrics updater
  pub running : Bool
  -- the outcomes that were handed to the metrics, newest first
  pub outcomes : List Text

abbrev pub retriable : ℕ → Bool
retriable status = status == 429 || status == 502 || status == 503 || status == 504

abbrev pub expired_in_queue : Error
expired_in_queue = timeout_error (codes "Request expired in queue")

abbrev pub no_ip : Error
no_ip = timeout_error (codes "No IP available within the allowed wait time")

-- __init__ with the shared backend
abbrev pub new : (b : Backend) → b.Store → TargetManager b
new b store = record {
  pool = Pool.new b store;
  request_queue = [];
  waiting = none;
  in_flight = [];
  futures = λ f. pending;
  running = false;
  outcomes = [];
}

module _ (b : Backend) where
  abbrev pub on_pool : {A : Type 0} → Exec (IpPool b) A → Exec (TargetManager b) A
  on_pool m s = ((m s.pool).0, record s { pool = (m s.pool).1 })

  abbrev pub set_future : ℕ → FutureState → Exec (TargetManager b) (Unit {0})
  set_future f x s = (ok tt, record s { futures = settle f x s.futures })

  -- self._request_queue.put(…)
  abbrev pub put : PendingRequest → Exec (TargetManager b) (Unit {0})
  put r s = (ok tt, record s { request_queue = s.request_queue ++ r ∷ [] })

  unfoldable pub submit : PendingRequest → Exec (TargetManager b) (Unit {0})
  submit r = put r

  -- `_dispatcher_worker` from the arrival of a request at `get` to the call of `acquire`. A request
  -- that the dispatcher holds already keeps it from taking another; the task runs from `start` to
  -- `stop`. The clock is read twice: `now` by `is_expired`, `later` by `time_remaining`.
  unfoldable pub take_request : ℕ → ℕ → Exec (TargetManager b) (Unit {0})
  unfolding is_expired time_remaining
  take_request now later s = elim s.running [
    | false ↦ (ok tt, s)
    | true ↦ elim s.waiting [
      | some w ↦ (ok tt, s)
      | none ↦ elim s.request_queue [
        | [] ↦ (ok tt, s)
        | r ∷ rest ↦
            if is_expired now r
            then set_future r.future (raised expired_in_queue) (record s { request_queue = rest })
            else (
              ok tt,
              record s {
                request_queue = rest;
                waiting = some (record { request = r; timeout = time_remaining later r });
              },
            )
      ]
    ]
  ]

  -- The rest of the round, with what `acquire` brought.
  unfoldable pub dispatch : PendingRequest → Option Text → Exec (TargetManager b) (Unit {0})
  dispatch r none s = set_future r.future (raised no_ip) s
  dispatch r (some address) s = (
    ok tt,
    record s { in_flight = s.in_flight ++ (record { address = address; request = r }) ∷ [] },
  )

module _ (b : Backend) (config : TargetConfig) where
  -- The addresses are those that `IPPool` makes of the configuration; the tasks that `start` creates
  -- are the events of the machine.
  unfoldable pub start : List Text → Exec (TargetManager b) (Unit {0})
  start addresses = do
    on_pool b (Pool.start b config addresses)
    λ s. (ok tt, record s { running = true })

  -- Both tasks are cancelled, and a request that the dispatcher holds is gone with it. The tasks of
  -- `_execute_request` go on.
  unfoldable pub stop : Exec (TargetManager b) (Unit {0})
  stop s = on_pool b (Pool.stop b config) (record s { running = false; waiting = none })

  -- `_dispatcher_worker` from the end of the wait in `acquire` on.
  unfoldable pub end_wait : Exec (TargetManager b) (Unit {0})
  unfolding dispatch
  end_wait s = elim s.waiting [
    | none ↦ (ok tt, s)
    | some w ↦
        (on_pool b (Pool.acquire b config w.timeout) >>= dispatch b w.request)
          (record s { waiting = none })
  ]

  -- The body of the `try` of `_execute_request` after the exchange; it gives the outcome's label.
  unfoldable pub handle_response :
      ℕ → Text → PendingRequest → ProxyResponse → Exec (TargetManager b) Text
  handle_response now a r resp =
      if retriable resp.status
      then (do
        on_pool b (Pool.record_failure b config now a)
        if can_retry r then put b (clone_for_retry r) else set_future b r.future (resolved resp)
        pure (if resp.status == 429 then codes "rate_limited" else codes "server_error"))
      else (do
        on_pool b (Pool.record_success b config now a)
        set_future b r.future (resolved resp)
        pure (codes "success"))

  -- The two `except` clauses.
  unfoldable pub handle_exception :
      ℕ → Text → PendingRequest → Error → Exec (TargetManager b) (Unit {0})
  handle_exception now a r (client_error late why) = do
    on_pool b (Pool.record_failure b config now a)
    if can_retry r
        then put b (clone_for_retry r)
        else set_future b r.future (raised (client_error late why))
  handle_exception now a r e = do
    on_pool b (Pool.record_failure b config now a)
    set_future b r.future (raised e)

  abbrev pub label : Error → Text
  label (client_error late why) = codes "connection_error"
  label _ = codes "error"

  abbrev pub record_request : Text → TargetManager b → TargetManager b
  record_request outcome s = record s { outcomes = outcome ∷ s.outcomes }

  -- try … except … finally, with what the `try` came to.
  unfoldable pub conclude :
      ℕ
      → Text
      → PendingRequest
      → Result Text × TargetManager b
      → Result (Unit {0}) × TargetManager b
  unfolding handle_exception
  conclude now a r (ok outcome, s) = (ok tt, record_request outcome s)
  conclude now a r (err e, s) =
      let out = handle_exception now a r e s in (out.0, record_request (label e) out.1)

  -- The `try` after the exchange.
  unfoldable pub after_exchange :
      ℕ
      → Text
      → PendingRequest
      → Result ProxyResponse
      → TargetManager b
      → Result Text × TargetManager b
  unfolding handle_response
  after_exchange now a r (ok resp) s = handle_response now a r resp s
  after_exchange now a r (err e) s = (err e, s)

  -- `_execute_request`: `session` is the exchange through the proxy, started at the time `start` and
  -- over at the time `now`, with an answer or an exception.
  unfoldable pub execute_request :
      (Outbound → Result ProxyResponse) → ℕ → ℕ → Flight → Exec (TargetManager b) (Unit {0})
  unfolding outbound after_exchange conclude
  execute_request session start now f s =
      conclude now f.address f.request
        (after_exchange now f.address f.request (session (outbound start f.address f.request)) s)
