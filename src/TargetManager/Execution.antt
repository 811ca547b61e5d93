-- ===== src/TargetManager/Execution.antt =====
-- What `_execute_request` does on every branch: to the pool, to the request and to its future.
use proxy_hopper_v.Common.{
  ◌||◌, ℕ, ◌≡◌, refl, Bool, true, false, ◌&&◌, not, List, [], ◌∷◌, ◌++◌, ◌==◌, if◌then◌else◌,
  Bool-cases, inl, inr, Text, codes, append-nil, Error, client_error, Result, ok, err,
}
use proxy_hopper_v.Config.{TargetConfig}
use proxy_hopper_v.Backend.{Backend, Contract}
use proxy_hopper_v.Models.{
  PendingRequest, can_retry, clone_for_retry, ProxyResponse, FutureState, resolved, raised, Futures,
  settle,
}
use proxy_hopper_v.Pool.{IpPool}
use proxy_hopper_v.Pool
use proxy_hopper_v.Pool.Rotation.{Rotation, succeeded, failed}
use proxy_hopper_v.Pool.Refinement.{Shows, Ran}
use proxy_hopper_v.Pool.Refinement.Methods.{record_success-Ran, record_failure-Ran}
use proxy_hopper_v.TargetManager.{
  TargetManager, Flight, Outbound, outbound, retriable, after_exchange, conclude, execute_request,
}

-- What becomes of a request after an exchange.
pub data Verdict : Type 0 where
  -- it goes back to the queue, with one more failure
  retry : Verdict
  -- its future gets this state
  finish : FutureState → Verdict

-- The statuses for which a request is tried again.
abbrev pub asks_retry : ℕ → Bool
asks_retry status = status == 429 || status == 502 || status == 503 || status == 504

abbrev pub verdict : PendingRequest → Result ProxyResponse → Verdict
verdict r (ok resp) =
    if asks_retry resp.status && can_retry r then retry else finish (resolved resp)
verdict r (err (client_error late why)) =
    if can_retry r then retry else finish (raised (client_error late why))
verdict r (err e) = finish (raised e)

-- An exchange with an answer that is not one of the retriable statuses.
abbrev pub is_good : Result ProxyResponse → Bool
is_good (ok resp) = not (asks_retry resp.status)
is_good (err e) = false

abbrev pub outcome_of : Result ProxyResponse → Text
outcome_of (ok resp) =
    if asks_retry resp.status
    then (if resp.status == 429 then codes "rate_limited" else codes "server_error")
    else codes "success"
outcome_of (err (client_error late why)) = codes "connection_error"
outcome_of (err e) = codes "error"

abbrev pub retried : PendingRequest → Verdict → List PendingRequest
retried r retry = clone_for_retry r ∷ []
retried r (finish x) = []

abbrev pub settled : PendingRequest → Verdict → Futures → Futures
settled r retry all = all
settled r (finish x) all = settle r.future x all

module _ (b : Backend) (c : Contract b) (config : TargetConfig) where
  -- `out`, reached from `s`, is what an exchange with this result calls for.
  pub record Executed (now : ℕ) (f : Flight) (result : Result ProxyResponse) (s : TargetManager b)
      (r : Rotation) (out : Result (Unit {0}) × TargetManager b) : Type 0 where
    pub returned : out.0 ≡ ok tt
    pub pool :
        Ran b c config s.pool
          (out.0, out.1.pool)
          tt
          (if is_good result
            then succeeded config now f.address r
            else failed config now f.address r)
    pub queue :
        out.1.request_queue ≡ s.request_queue ++ retried f.request (verdict f.request result)
    pub waiting : out.1.waiting ≡ s.waiting
    pub in_flight : out.1.in_flight ≡ s.in_flight
    pub running : out.1.running ≡ s.running
    pub futures : out.1.futures ≡ settled f.request (verdict f.request result) s.futures
    pub outcomes : out.1.outcomes ≡ outcome_of result ∷ s.outcomes

  -- The state after an exchange, from the state of the pool after its record.
  abbrev after : Flight → Verdict → Text → TargetManager b → IpPool b → TargetManager b
  after f v outcome s p = record s {
    pool = p;
    request_queue = s.request_queue ++ retried f.request v;
    futures = settled f.request v s.futures;
    outcomes = outcome ∷ s.outcomes;
  }

  abbrev pub recorded : Bool → ℕ → Text → IpPool b → Result (Unit {0}) × IpPool b
  recorded good now a p =
      if good then Pool.record_success b config now a p else Pool.record_failure b config now a p

  recorded-Ran :
      (good : Bool) (now : ℕ) (a : Text) (p : IpPool b) (r : Rotation)
      → Shows b c config p r
      → Ran b c config p
          (recorded good now a p)
          tt
          (if good then succeeded config now a r else failed config now a r)
  recorded-Ran true now a p r h = record_success-Ran b c config now a p r h
  recorded-Ran false now a p r h = record_failure-Ran b c config now a p r h

  module _ (now : ℕ) (f : Flight) (s : TargetManager b) (r : Rotation)
      (h : Shows b c config s.pool r) where
    build :
        (result : Result ProxyResponse)
        → Executed now f result s r (
          ok tt,
          after f
              (verdict f.request result)
              (outcome_of result)
              s
              (recorded (is_good result) now f.address s.pool).1,
        )
    build result =
        let ran = recorded-Ran (is_good result) now f.address s.pool r h in
        record {
          returned = refl;
          pool = record {
            returned = refl;
            shows = ran.shows;
            running = ran.running;
            others = ran.others;
          };
          queue = refl;
          waiting = refl;
          in_flight = refl;
          running = refl;
          futures = refl;
          outcomes = refl;
        }

    abbrev concluded : Result ProxyResponse → Result (Unit {0}) × TargetManager b
    concluded result =
        conclude b config now f.address f.request
          (after_exchange b config now f.address f.request result s)

    answered :
        (resp : ProxyResponse)
        → concluded (ok resp) ≡ (
          ok tt,
          after f
              (verdict f.request (ok resp))
              (outcome_of (ok resp))
              s
              (recorded (is_good (ok resp)) now f.address s.pool).1,
        )
    unfolding conclude after_exchange
    answered resp =
        let bad = recorded-Ran false now f.address s.pool r h in
        let good = recorded-Ran true now f.address s.pool r h in
        elim (Bool-cases (retriable resp.status)) [
          | inl e ↦ elim (Bool-cases (can_retry f.request)) [
            | inl e' ↦ rw (e, bad.returned, e')
            | inr e' ↦ rw (e, bad.returned, e', append-nil)
          ]
          | inr e ↦ rw (e, good.returned, append-nil)
        ]

    failed_with :
        (e : Error)
        → concluded (err e) ≡ (
          ok tt,
          after f
              (verdict f.request (err e))
              (outcome_of (err e))
              s
              (recorded false now f.address s.pool).1,
        )
    unfolding conclude after_exchange
    failed_with (client_error late why) =
        let bad = recorded-Ran false now f.address s.pool r h in
        elim (Bool-cases (can_retry f.request)) [
          | inl e' ↦ rw (bad.returned, e')
          | inr e' ↦ rw (bad.returned, e', append-nil)
        ]
    failed_with e =
        let bad = recorded-Ran false now f.address s.pool r h in rw (bad.returned, append-nil)

    concluded_lem :
        (result : Result ProxyResponse)
        → concluded result ≡ (
          ok tt,
          after f
              (verdict f.request result)
              (outcome_of result)
              s
              (recorded (is_good result) now f.address s.pool).1,
        )
    concluded_lem (ok resp) = answered resp
    concluded_lem (err e) = failed_with e

-- Whatever the exchange comes to, an answer or any exception, `_execute_request` raises nothing. The
-- address is recorded once: as a success for an answer that is not 429, 502, 503 or 504, and
-- otherwise as a failure. After one of these four answers or a `ClientError` the request goes to the
-- end of the queue with one more failure, if it has retries left; in every other case its future
-- gets the answer or the exception, unless it is done already, and the queue stays. The request
-- that the dispatcher holds and the other flights stay, and the metrics get the outcome.
pub execute_request-Executed :
    (b : Backend) (c : Contract b) (config : TargetConfig)
    (session : Outbound → Result ProxyResponse) (start now : ℕ) (f : Flight) (s : TargetManager b)
    (r : Rotation)
    → Shows b c config s.pool r
    → Executed b c config now f
        (session (outbound start f.address f.request))
        s
        r
        (execute_request b config session start now f s)
unfolding execute_request
execute_request-Executed b c config session start now f s r h =
    rw (concluded_lem b c config now f s r h (session (outbound start f.address f.request)))
      (build b c config now f s r h (session (outbound start f.address f.request)))
