-- ===== src/TargetManager/Machine/Settling.antt =====
-- A request that nobody holds up: the rounds that serve it, and the plain loop of retries that they
-- amount to.
mod Requests
mod Attempt
mod Turn
pub mod Served
use proxy_hopper_v.Common.{
  ℕ, zero, suc, ◌+◌, ◌<◌, ◌≤◌, ◌≡◌, refl, sym, ◌∙◌, ap, ◌⊎◌, inl, inr, Bool, true, false, none,
  some, List, [], ◌∷◌, ◌++◌, arith, leb, if◌then◌else◌, Bool-cases, length, Text, Result, ok, err,
  client_error, subst,
}
use proxy_hopper_v.Config.{TargetConfig}
use proxy_hopper_v.Backend.{Backend, Contract}
use proxy_hopper_v.Models.{
  PendingRequest, ProxyResponse, is_expired, deadline, time_remaining, can_retry, clone_for_retry,
  done, settle, FutureState, Futures, pending, raised,
}
use proxy_hopper_v.Pool.{extract, IpPool}
use proxy_hopper_v.Pool.Rotation.{Rotation, taken, succeeded, failed}
use proxy_hopper_v.Pool.Refinement.{Shows}
use proxy_hopper_v.TargetManager.{
  TargetManager, Flight, expired_in_queue, no_ip, Waiting, Outbound, take_request, end_wait,
  outbound, execute_request,
}
use proxy_hopper_v.TargetManager.Execution.{
  Verdict, retry, finish, verdict, Executed, is_good, execute_request-Executed,
}
use proxy_hopper_v.TargetManager.Machine.{Event, takes, ends_wait, executes, land, step, run}
use proxy_hopper_v.TargetManager.Machine.Dispatch.{
  time_left, Ended, without_ip, with_ip, end_wait-Ended,
}

-- The clock in one round: when the dispatcher asks whether the request is too old and then how long
-- it may wait, and when the exchange starts and ends.
pub record Clock : Type 0 where
  pub taken : ℕ
  pub asked : ℕ
  pub started : ℕ
  pub ended : ℕ

-- One round, with a number of earlier flights: the dispatcher takes the request, its wait for an
-- address ends, and the flight is over.
abbrev pub round : ℕ → Clock → (Outbound → Result ProxyResponse) → List Event
round flights turn session =
    takes turn.taken turn.asked ∷ ends_wait ∷ executes session turn.started turn.ended flights ∷ []

abbrev pub rounds : ℕ → (ℕ → Clock) → (ℕ → Outbound → Result ProxyResponse) → ℕ → List Event
rounds flights turns session zero = []
rounds flights turns session (suc n) =
    round flights (turns 0) (session 0)
    ++ rounds flights (λ i. turns (suc i)) (λ i. session (suc i)) n

abbrev pub judge : Verdict → FutureState → FutureState
judge retry rest = rest
judge (finish y) rest = y

-- A plain loop of at most so many attempts, over the addresses in their order: what the future of a
-- request becomes, with no queue, dispatcher or pool. Each attempt looks at the deadline first.
abbrev pub served :
    (ℕ → Clock)
    → (ℕ → Outbound → Result ProxyResponse)
    → ℕ
    → List Text
    → PendingRequest
    → FutureState
served turns session zero addresses r = pending
served turns session (suc n) [] r =
    if is_expired (turns 0).taken r then raised expired_in_queue else raised no_ip
served turns session (suc n) (a ∷ rest) r =
    let later = served (λ i. turns (suc i)) (λ i. session (suc i)) n rest (clone_for_retry r) in
    if is_expired (turns 0).taken r
    then raised expired_in_queue
    else judge (verdict r (session 0 (outbound (turns 0).started a r))) later

-- The deadline of the request does not pass between the dispatcher's two looks at the clock.
abbrev pub IsSteady : (ℕ → Clock) → PendingRequest → Type 0
IsSteady turns r =
    (i : ℕ) → is_expired (turns i).taken r ≡ false → is_expired (turns i).asked r ≡ false

module _ (b : Backend) (c : Contract b) (config : TargetConfig) (fs : List Flight) where
  -- The request is alone in the queue, with `k` retries left and a future that is not done.
  pub record Serving (s : TargetManager b) (r : PendingRequest) (addresses : List Text) (k : ℕ)
      : Type 0 where
    pub rotation : Rotation
    pub shows : Shows b c config s.pool rotation
    pub running : s.running ≡ true
    pub waiting : s.waiting ≡ none
    pub queue : s.request_queue ≡ r ∷ []
    pub in_flight : s.in_flight ≡ fs
    pub left : r.num_retries ≤ r.failure_count + k
    pub unsettled : s.futures r.future ≡ pending
    pub listed : rotation.view.queue ≡ addresses

  -- Nothing is left to do, but for the flights.
  pub record IsResting (s : TargetManager b) : Type 0 where
    pub waiting : s.waiting ≡ none
    pub queue : s.request_queue ≡ []
    pub in_flight : s.in_flight ≡ fs
