-- ===== src/TargetManager/Machine/Settling/Served.antt =====
-- A request that nobody holds up is served as the plain loop of retries says.
use proxy_hopper_v.Common.{
  ℕ, zero, suc, ◌+◌, ◌≤◌, ◌≡◌, refl, sym, ◌∙◌, ap, true, Bool-cases, inl, inr, List, [], ◌∷◌, ◌++◌,
  arith, length, Text, Result,
}
use proxy_hopper_v.Config.{TargetConfig}
use proxy_hopper_v.Backend.{Backend, Contract}
use proxy_hopper_v.Models.{
  PendingRequest, ProxyResponse, clone_for_retry, done, FutureState, is_expired,
}
use proxy_hopper_v.TargetManager.{TargetManager, Flight, Outbound, outbound, take_request, end_wait}
use proxy_hopper_v.TargetManager.Execution.{Verdict, retry, finish, verdict}
use proxy_hopper_v.TargetManager.Machine.{Event, step, run, land}
use proxy_hopper_v.TargetManager.Machine.Settling.Requests.{
  clone_future, clone-expired, extract-end, finish-done, retry-can_retry, some_left, clone_left,
}
use proxy_hopper_v.TargetManager.Machine.Settling.{
  Serving, IsResting, Clock, round, rounds, served, judge, IsSteady,
}
use proxy_hopper_v.TargetManager.Machine.Settling.Attempt.{over, again}
use proxy_hopper_v.TargetManager.Machine.Settling.Turn.{round-Turned}

judge-done :
    (r : PendingRequest) (result : Result ProxyResponse) (v : Verdict) (later : FutureState)
    → verdict r result ≡ v
    → (verdict r result ≡ retry → done later ≡ true)
    → done (judge v later) ≡ true
judge-done r result (finish y) later e h = finish-done r result y e
judge-done r result retry later e h = h e

-- One attempt of the plain loop, of which the later ones come to an end after a retry.
attempt-done :
    (n : ℕ) (turns : ℕ → Clock) (session : ℕ → Outbound → Result ProxyResponse) (a : Text)
    (rest : List Text) (r : PendingRequest)
    → (verdict r (session 0 (outbound (turns 0).started a r)) ≡ retry
        → done (served (λ i. turns (suc i)) (λ i. session (suc i)) n rest (clone_for_retry r))
          ≡ true)
    → done (served turns session (suc n) (a ∷ rest) r) ≡ true
attempt-done n turns session a rest r h = elim (Bool-cases (is_expired (turns 0).taken r)) [
  | inl e ↦ rw e refl
  | inr e ↦
      let result = session 0 (outbound (turns 0).started a r) in
      rw e (judge-done r result (verdict r result) _ refl h)
]

-- The plain loop comes to an end with one attempt more than retries are left.
served-done :
    (k : ℕ) (turns : ℕ → Clock) (session : ℕ → Outbound → Result ProxyResponse)
    (addresses : List Text) (r : PendingRequest)
    → r.num_retries ≤ r.failure_count + k
    → done (served turns session (suc k) addresses r) ≡ true
served-done k turns session [] r left = elim (Bool-cases (is_expired (turns 0).taken r)) [
  | inl e ↦ rw e refl
  | inr e ↦ rw e refl
]
served-done zero turns session (a ∷ rest) r left = attempt-done zero turns session a rest r λ e.
    let (k', q) =
      some_left r 0 (retry-can_retry r (session 0 (outbound (turns 0).started a r)) e) left in
    absurd (omega (arith, q))
served-done (suc k) turns session (a ∷ rest) r left =
    attempt-done (suc k) turns session a rest r λ e.
      served-done k (λ i. turns (suc i)) (λ i. session (suc i)) rest (clone_for_retry r)
        (clone_left r (suc k) k refl left)

module _ (b : Backend) (c : Contract b) (config : TargetConfig) (fs : List Flight) where
  run-append :
      (s : TargetManager b) (es es' : List Event)
      → run b config s (es ++ es') ≡ run b config (run b config s es) es'
  unfolding run
  run-append s [] es' = refl
  run-append s (e ∷ es) es' = run-append (step b config s e) es es'

  round-resting :
      (turn : Clock) (session : Outbound → Result ProxyResponse) (s : TargetManager b)
      → IsResting b c config fs s
      → run b config s (round (length fs) turn session) ≡ s
  unfolding run step land take_request end_wait
  round-resting turn session s h = ground (arith, h.waiting, h.queue, h.in_flight, extract-end fs)

  rounds-resting :
      (n : ℕ) (turns : ℕ → Clock) (session : ℕ → Outbound → Result ProxyResponse)
      (s : TargetManager b)
      → IsResting b c config fs s
      → run b config s (rounds (length fs) turns session n) ≡ s
  unfolding run
  rounds-resting zero turns session s h = refl
  rounds-resting (suc n) turns session s h =
      run-append s (round (length fs) (turns 0) (session 0))
        (rounds (length fs) (λ i. turns (suc i)) (λ i. session (suc i)) n)
      ∙ ap (λ t. run b config t (rounds (length fs) (λ i. turns (suc i)) (λ i. session (suc i)) n))
          (round-resting (turns 0) (session 0) s h)
      ∙ rounds-resting n (λ i. turns (suc i)) (λ i. session (suc i)) s h

  after_rounds :
      (n k : ℕ) (turns : ℕ → Clock) (session : ℕ → Outbound → Result ProxyResponse)
      (s : TargetManager b) (r : PendingRequest) (addresses : List Text)
      → Serving b c config fs s r addresses k
      → IsSteady turns r
      → (run b config s (rounds (length fs) turns session n)).futures r.future
        ≡ served turns session n addresses r
  unfolding run
  after_rounds zero k turns session s r addresses h steady = h.unsettled
  after_rounds (suc n) k turns session s r addresses h steady =
      let first = round (length fs) (turns 0) (session 0) in
      let turns' = λ (i : ℕ). turns (suc i) in
      let session' = λ (i : ℕ). session (suc i) in
      let more = rounds (length fs) turns' session' n in
      let t = run b config s first in
      let split = ap (λ (x : TargetManager b). x.futures r.future) (run-append s first more) in
      elim (round-Turned b c config fs s r addresses k turns session h steady) [
        | over y same e d rest ↦
            split
            ∙ ap (λ (x : TargetManager b). x.futures r.future)
                (rounds-resting n turns' session' t rest)
            ∙ e
            ∙ sym (same n)
        | again rest k' same q g ↦
            split
            ∙ ap (run b config t more).futures (sym (clone_future r))
            ∙ after_rounds n k' turns' session' t (clone_for_retry r) rest g (λ i e.
              clone-expired (turns (suc i)).asked r
              ∙ steady (suc i) (sym (clone-expired (turns (suc i)).taken r) ∙ e))
            ∙ sym (same n)
      ]

  -- In a manager whose pool shows a rotation: a request alone in the queue with `k` retries left and a future that is not done, a running
  -- dispatcher that holds none, and any times of the clock, the deadline of the request not between
  -- the two looks that the dispatcher takes at the clock in a round: after any number of rounds with
  -- no other turn in between, each of which is a turn of the dispatcher's `get`, one of its `acquire`
  -- and one of the flight, if there is one, the future is what the plain loop of as many attempts
  -- over the addresses of the pool's queue, in their order, comes to. The loop ends with a time-out
  -- once the deadline is over or no address is left. After `k + 1` rounds the future is done.
  pub rounds-served :
      (n k : ℕ) (turns : ℕ → Clock) (session : ℕ → Outbound → Result ProxyResponse)
      (s : TargetManager b) (r : PendingRequest) (addresses : List Text)
      → Serving b c config fs s r addresses k
      → IsSteady turns r
      → ((run b config s (rounds (length fs) turns session n)).futures r.future
          ≡ served turns session n addresses r)
        × (done ((run b config s (rounds (length fs) turns session (suc k))).futures r.future)
            ≡ true)
  rounds-served n k turns session s r addresses h steady = (
    after_rounds n k turns session s r addresses h steady,
    ap done (after_rounds (suc k) k turns session s r addresses h steady)
        ∙ served-done k turns session addresses r h.left,
  )
