-- ===== src/TargetManager/Machine/Effects.antt =====
-- What an event does to the requests that the manager carries and to their futures.
use proxy_hopper_v.Common.{
  ℕ, zero, suc, ◌+◌, ◌≡◌, refl, ◌∙◌, ◌⊎◌, inl, inr, Bool, true, false, Option, none, some, List, [],
  ◌∷◌, ◌++◌, arith, Bool-cases, Option-cases, Result, ok, err, client_error,
}
use proxy_hopper_v.Config.{TargetConfig}
use proxy_hopper_v.Backend.{Backend, Contract}
use proxy_hopper_v.Models.{
  PendingRequest, ProxyResponse, can_retry, clone_for_retry, FutureState, resolved, raised,
  cancelled, done, settle,
}
use proxy_hopper_v.Pool.{extract}
use proxy_hopper_v.Pool.Rotation.{Rotation}
use proxy_hopper_v.TargetManager.{
  TargetManager, Waiting, Flight, Outbound, outbound, retriable, submit,
}
use proxy_hopper_v.TargetManager.Execution.{retry, finish, verdict, execute_request-Executed}
use proxy_hopper_v.TargetManager.Machine.{
  Event, submits, takes, ends_wait, executes, wakes, sweeps, cancels, land, step,
}
use proxy_hopper_v.TargetManager.Machine.Dispatch.{
  IsSound, Ended, without_ip, with_ip, end_wait-Ended, end_wait-idle, Taken, nothing, too_old,
  waits, take_request-Taken,
}

-- The sum of a weight over a list of requests, a dispatcher's wait, and the flights.
module _ (m : PendingRequest → ℕ) where
  unfoldable pub sum_queue : List PendingRequest → ℕ
  sum_queue [] = 0
  sum_queue (r ∷ rs) = m r + sum_queue rs

  abbrev pub weigh_waiting : Option Waiting → ℕ
  weigh_waiting none = 0
  weigh_waiting (some w) = m w.request

  unfoldable pub sum_flights : List Flight → ℕ
  sum_flights [] = 0
  sum_flights (f ∷ fs) = m f.request + sum_flights fs

  pub sum_queue-append :
      (xs ys : List PendingRequest) → sum_queue (xs ++ ys) ≡ sum_queue xs + sum_queue ys
  unfolding sum_queue
  sum_queue-append [] ys = omega arith
  sum_queue-append (r ∷ rs) ys = omega (arith, sum_queue-append rs ys)

  pub sum_flights-append :
      (xs ys : List Flight) → sum_flights (xs ++ ys) ≡ sum_flights xs + sum_flights ys
  unfolding sum_flights
  sum_flights-append [] ys = omega arith
  sum_flights-append (f ∷ fs) ys = omega (arith, sum_flights-append fs ys)

  pub sum_flights-extract :
      (i : ℕ) (l : List Flight) {f : Flight} {rest : List Flight}
      → extract i l ≡ some (f, rest)
      → sum_flights l ≡ m f.request + sum_flights rest
  unfolding sum_flights extract
  sum_flights-extract i [] h = cc
  sum_flights-extract zero (y ∷ l) h = ground arith
  sum_flights-extract (suc i) (y ∷ l) h = elim (Option-cases (extract i l)) [
    | inl e ↦ ground arith
    | inr ((g, k), e) ↦ ground (arith, sum_flights-extract i l {f = g} {rest = k} e)
  ]

abbrev pub is_submission : Event → Bool
is_submission (submits r) = true
is_submission _ = false

module _ (b : Backend) where
  -- The weight of all requests that the manager carries.
  abbrev pub total : (PendingRequest → ℕ) → TargetManager b → ℕ
  total m s = sum_queue m s.request_queue + weigh_waiting m s.waiting + sum_flights m s.in_flight

  -- What an exchange makes of its request.
  pub data Landed (r : PendingRequest) (s t : TargetManager b) : Type 0 where
    again :
        can_retry r ≡ true
        → ((m : PendingRequest → ℕ) → total m s + m (clone_for_retry r) ≡ m r + total m t)
        → t.futures ≡ s.futures
        → Landed r s t
    over :
        (x : FutureState)
        → done x ≡ true
        → ((m : PendingRequest → ℕ) → total m s ≡ m r + total m t)
        → t.futures ≡ settle r.future x s.futures
        → Landed r s t

  pub data Effect (s t : TargetManager b) : Type 0 where
    same : ((m : PendingRequest → ℕ) → total m t ≡ total m s) → t.futures ≡ s.futures → Effect s t
    drops :
        (r : PendingRequest) (x : FutureState)
        → done x ≡ true
        → ((m : PendingRequest → ℕ) → total m s ≡ m r + total m t)
        → t.futures ≡ settle r.future x s.futures
        → Effect s t
    abandons :
        (f : ℕ)
        → ((m : PendingRequest → ℕ) → total m t ≡ total m s)
        → t.futures ≡ settle f cancelled s.futures
        → Effect s t
    lands : (r : PendingRequest) → Landed r s t → Effect s t

module _ (b : Backend) (c : Contract b) (config : TargetConfig) where
  takes-Effect :
      (now later : ℕ) (s t : TargetManager b) → Taken b c config now later s t → Effect b s t
  unfolding sum_queue
  takes-Effect now later s t (nothing _ e) = rw e (same (λ m. refl) refl)
  takes-Effect now later s t (too_old r rest _ e q _ p) =
      rw p (drops r _ refl (λ m. ground arith) refl)
  takes-Effect now later s t (waits r rest _ e q _ p) = rw p (same (λ m. ground arith) refl)

  Ended-Effect :
      (s : TargetManager b) (w : Waiting) (r : Rotation) {out : Result (Unit {0}) × TargetManager b}
      → s.waiting ≡ some w
      → Ended b c config s w r out
      → Effect b s out.1
  unfolding sum_flights
  Ended-Effect s w r e (without_ip p _ _ o) = rw o (drops w.request _ refl (λ m. ground arith) refl)
  Ended-Effect s w r e (with_ip p a rest _ _ o) = rw o (
      same
        (λ m. ground (
          arith,
          sum_flights-append m s.in_flight (record { address = a; request = w.request } ∷ []),
        ))
        refl)

  verdict_cases :
      (r : PendingRequest) (result : Result ProxyResponse)
      → ((verdict r result ≡ retry) × (can_retry r ≡ true))
        ⊎ ((x : FutureState) × (verdict r result ≡ finish x) × (done x ≡ true))
  verdict_cases r (ok resp) = elim (Bool-cases (retriable resp.status)) [
    | inl e ↦ elim (Bool-cases (can_retry r)) [
      | inl e' ↦ inl (rw (e, e'), e')
      | inr e' ↦ inr (resolved resp, rw (e, e'), refl)
    ]
    | inr e ↦ inr (resolved resp, rw e, refl)
  ]
  verdict_cases r (err (client_error late why)) = elim (Bool-cases (can_retry r)) [
    | inl e' ↦ inl (rw e', e')
    | inr e' ↦ inr (raised (client_error late why), rw e', refl)
  ]
  verdict_cases r (err e) = inr (raised e, refl, refl)

  pub land-Landed :
      (session : Outbound → Result ProxyResponse) (start now i : ℕ) (f : Flight)
      (rest : List Flight) (s : TargetManager b)
      → IsSound b c config s
      → extract i s.in_flight ≡ some (f, rest)
      → Landed b f.request s (land b config session start now (some (f, rest)) s)
  unfolding land sum_queue
  land-Landed session start now i f rest s h e =
      let s' : TargetManager b = record s { in_flight = rest } in
      let result = session (outbound start f.address f.request) in
      let x = execute_request-Executed b c config session start now f s' h.rotation h.shows in
      elim (verdict_cases f.request result) [
        | inl (v, can) ↦
            again can
              (λ m.
                rw (x.queue, x.waiting, x.in_flight, v)
                  (omega (
                    arith,
                    sum_queue-append m s.request_queue (clone_for_retry f.request ∷ []),
                    sum_flights-extract m i s.in_flight {f = f} {rest = rest} e,
                  )))
              (x.futures ∙ rw v)
        | inr (y, v, d) ↦
            over y d
              (λ m.
                rw (x.queue, x.waiting, x.in_flight, v)
                  (omega (
                    arith,
                    sum_queue-append m s.request_queue [],
                    sum_flights-extract m i s.in_flight {f = f} {rest = rest} e,
                  )))
              (x.futures ∙ rw v)
      ]

  land-Effect :
      (session : Outbound → Result ProxyResponse) (start now i : ℕ)
      (o : Option (Flight × List Flight)) (s : TargetManager b)
      → IsSound b c config s
      → extract i s.in_flight ≡ o
      → Effect b s (land b config session start now o s)
  land-Effect session start now i none s h e = unfold land in same (λ m. refl) refl
  land-Effect session start now i (some (f, rest)) s h e =
      lands f.request (land-Landed session start now i f rest s h e)

  pub total-submits :
      (s : TargetManager b) (r : PendingRequest) (m : PendingRequest → ℕ)
      → total b m (step b config s (submits r)) ≡ m r + total b m s
  unfolding step submit sum_queue
  total-submits s r m = omega (arith, sum_queue-append m s.request_queue (r ∷ []))

  pub futures-submits :
      (s : TargetManager b) (r : PendingRequest) → (step b config s (submits r)).futures ≡ s.futures
  unfolding step submit
  futures-submits s r = refl

  -- Every other event has one of these effects.
  pub step-Effect :
      (s : TargetManager b) (e : Event)
      → is_submission e ≡ false
      → IsSound b c config s
      → Effect b s (step b config s e)
  unfolding step
  step-Effect s (submits r) n h = cc
  step-Effect s (takes now later) n h =
      takes-Effect now later s _ (take_request-Taken b c config now later s)
  step-Effect s ends_wait n h = elim (Option-cases s.waiting) [
    | inl e ↦ rw (end_wait-idle b c config s e, step) (same (λ m. refl) refl)
    | inr (w, e) ↦
        Ended-Effect s w h.rotation e (end_wait-Ended b c config s w h.rotation h.shows e)
  ]
  step-Effect s (executes session start now i) n h =
      land-Effect session start now i (extract i s.in_flight) s h refl
  step-Effect s (wakes now i) n h = same (λ m. refl) refl
  step-Effect s (sweeps now) n h = same (λ m. refl) refl
  step-Effect s (cancels f) n h = abandons f (λ m. refl) refl
