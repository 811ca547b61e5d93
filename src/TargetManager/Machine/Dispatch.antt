-- ===== src/TargetManager/Machine/Dispatch.antt =====
-- The states that the machine reaches, and what a dispatcher's wait comes to there.
use proxy_hopper_v.Common.{
  ℕ, ◌<◌, ◌≡◌, refl, ◌⊎◌, inl, inr, true, false, Option, none, some, List, [], ◌∷◌, ◌++◌, arith,
  Bool-cases, Option-cases, Text, Result, ok,
}
use proxy_hopper_v.Config.{TargetConfig}
use proxy_hopper_v.Backend.{Backend, Contract}
use proxy_hopper_v.Models.{
  PendingRequest, ProxyResponse, is_expired, time_remaining, raised, settle,
}
use proxy_hopper_v.Pool.{IpPool, extract}
use proxy_hopper_v.Pool
use proxy_hopper_v.Pool.Rotation.{Rotation, taken}
use proxy_hopper_v.Pool.Refinement.{Shows}
use proxy_hopper_v.Pool.Refinement.Methods.{
  acquire-Ran_empty, acquire-Ran_there, return_after_cooldown-Ran, sweep_quarantine-Ran,
}
use proxy_hopper_v.TargetManager.{
  TargetManager, Waiting, Flight, no_ip, expired_in_queue, Outbound, submit, take_request, dispatch,
  end_wait,
}
use proxy_hopper_v.TargetManager.Execution.{execute_request-Executed}
use proxy_hopper_v.TargetManager.Machine.{
  Event, submits, takes, ends_wait, executes, wakes, sweeps, cancels, land, step,
}

module _ (b : Backend) (c : Contract b) (config : TargetConfig) where
  -- The pool's store is valid and has the target.
  pub record IsSound (s : TargetManager b) : Type 0 where
    pub rotation : Rotation
    pub shows : Shows b c config s.pool rotation

  -- A dispatcher that does not wait has no wait to end.
  pub end_wait-idle : (s : TargetManager b) → s.waiting ≡ none → end_wait b config s ≡ (ok tt, s)
  unfolding end_wait
  end_wait-idle s e = ground arith

  -- The two ends of a wait.
  pub data Ended (s : TargetManager b) (w : Waiting) (r : Rotation)
      (out : Result (Unit {0}) × TargetManager b) : Type 0 where
    without_ip :
        (p : IpPool b)
        → (r.view.queue ≡ []) ⊎ (w.timeout ≡ 0)
        → Shows b c config p r
        → out ≡ (
          ok tt,
          record s {
            pool = p;
            waiting = none;
            futures = settle w.request.future (raised no_ip) s.futures;
          },
        )
        → Ended s w r out
    with_ip :
        (p : IpPool b) (a : Text) (rest : List Text)
        → r.view.queue ≡ a ∷ rest
        → Shows b c config p (taken rest r)
        → out ≡ (
          ok tt,
          record s {
            pool = p;
            waiting = none;
            in_flight = s.in_flight ++ (record { address = a; request = w.request }) ∷ [];
          },
        )
        → Ended s w r out

  queue-cases : (l : List Text) → (l ≡ []) ⊎ ((a : Text) × (rest : List Text) × (l ≡ a ∷ rest))
  queue-cases [] = inl refl
  queue-cases (a ∷ rest) = inr (a, rest, refl)

  -- In a manager whose pool shows a rotation: the wait of a dispatcher that waits ends with a time-out
  -- for the request or with a flight of the request through the oldest address: with the time-out only if no address is there or no time was left when it began, and
  -- with the flight only if an address is there.
  pub end_wait-Ended :
      (s : TargetManager b) (w : Waiting) (r : Rotation)
      → Shows b c config s.pool r
      → s.waiting ≡ some w
      → Ended s w r (end_wait b config s)
  unfolding end_wait dispatch
  end_wait-Ended s w r h e = elim (queue-cases r.view.queue) [
    | inl none_there ↦
        let ran = acquire-Ran_empty b c config w.timeout s.pool r h none_there in
        without_ip (Pool.acquire b config w.timeout s.pool).1 (inl none_there) ran.shows
          (rw (e, end_wait, ran.returned))
    | inr (a, rest, there) ↦ elim (acquire-Ran_there b c config w.timeout s.pool r a rest h there) [
      | inl (late, ran) ↦
          without_ip (Pool.acquire b config w.timeout s.pool).1 (inr late) ran.shows
            (rw (e, end_wait, ran.returned))
      | inr ran ↦
          with_ip (Pool.acquire b config w.timeout s.pool).1 a rest there ran.shows
            (rw (e, end_wait, ran.returned))
    ]
  ]

  -- Why the dispatcher takes no request: it does not run, it holds one, or there is none.
  pub data IsIdle (s : TargetManager b) : Type 0 where
    stopped : s.running ≡ false → IsIdle s
    holds : (w : Waiting) → s.waiting ≡ some w → IsIdle s
    empty : s.request_queue ≡ [] → IsIdle s

  -- What the dispatcher's `get` comes to: nothing, a request that is too old, or a wait.
  pub data Taken (now later : ℕ) (s : TargetManager b) (t : TargetManager b) : Type 0 where
    nothing : IsIdle s → t ≡ s → Taken now later s t
    too_old :
        (r : PendingRequest) (rest : List PendingRequest)
        → s.running ≡ true
        → s.waiting ≡ none
        → s.request_queue ≡ r ∷ rest
        → is_expired now r ≡ true
        → t ≡ record s {
          request_queue = rest;
          futures = settle r.future (raised expired_in_queue) s.futures;
        }
        → Taken now later s t
    waits :
        (r : PendingRequest) (rest : List PendingRequest)
        → s.running ≡ true
        → s.waiting ≡ none
        → s.request_queue ≡ r ∷ rest
        → is_expired now r ≡ false
        → t ≡ record s {
          request_queue = rest;
          waiting = some (record { request = r; timeout = time_remaining later r });
        }
        → Taken now later s t

  list-cases :
      (l : List PendingRequest)
      → (l ≡ []) ⊎ ((r : PendingRequest) × (rest : List PendingRequest) × (l ≡ r ∷ rest))
  list-cases [] = inl refl
  list-cases (r ∷ rest) = inr (r, rest, refl)

  -- When the dispatcher's `get` returns: a running dispatcher that does not wait drops a request past
  -- its deadline, whose future ends with a time-out, and holds any other one with the time it has
  -- left when the clock is read again; only with no request, while the dispatcher still waits for an
  -- address, or while it does not run, nothing happens.
  pub take_request-Taken :
      (now later : ℕ) (s : TargetManager b) → Taken now later s (take_request b now later s).1
  unfolding take_request
  take_request-Taken now later s = elim (Bool-cases s.running) [
    | inr off ↦ nothing (stopped off) (ground arith)
    | inl on ↦ elim (Option-cases s.waiting) [
      | inr (w, e) ↦ nothing (holds w e) (ground arith)
      | inl e ↦ elim (list-cases s.request_queue) [
        | inl e' ↦ nothing (empty e') (ground arith)
        | inr (r, rest, e') ↦ elim (Bool-cases (is_expired now r)) [
          | inl old ↦ too_old r rest on e e' old (ground arith)
          | inr new ↦ waits r rest on e e' new (ground arith)
        ]
      ]
    ]
  ]

  pub time_left :
      (now : ℕ) (r : PendingRequest) → is_expired now r ≡ false → 0 < time_remaining now r
  unfolding is_expired time_remaining
  time_left now r h = ground arith

  takes-IsSound :
      (now later : ℕ) (s t : TargetManager b) → Taken now later s t → IsSound s → IsSound t
  takes-IsSound now later s t (nothing _ e) h = rw e h
  takes-IsSound now later s t (too_old r rest _ _ _ _ e) h =
      rw e (record { rotation = h.rotation; shows = h.shows })
  takes-IsSound now later s t (waits r rest _ _ _ _ e) h =
      rw e (record { rotation = h.rotation; shows = h.shows })

  Ended-IsSound :
      (s : TargetManager b) (w : Waiting) (r : Rotation) {out : Result (Unit {0}) × TargetManager b}
      → Ended s w r out
      → IsSound out.1
  Ended-IsSound s w r (without_ip p _ shown e) = rw e (record { rotation = r; shows = shown })
  Ended-IsSound s w r (with_ip p a rest _ shown e) =
      rw e (record { rotation = taken rest r; shows = shown })

  land-IsSound :
      (session : Outbound → Result ProxyResponse) (start now : ℕ)
      (o : Option (Flight × List Flight)) (s : TargetManager b)
      → IsSound s
      → IsSound (land b config session start now o s)
  unfolding land
  land-IsSound session start now none s h = h
  land-IsSound session start now (some (f, rest)) s h =
      let x =
        execute_request-Executed b c config session start now f (record s { in_flight = rest })
          h.rotation h.shows in
      record { rotation = _; shows = x.pool.shows }

  pub step-IsSound : (s : TargetManager b) (e : Event) → IsSound s → IsSound (step b config s e)
  unfolding step submit
  step-IsSound s (submits r) h = record { rotation = h.rotation; shows = h.shows }
  step-IsSound s (takes now later) h =
      takes-IsSound now later s _ (take_request-Taken now later s) h
  step-IsSound s ends_wait h = elim (Option-cases s.waiting) [
    | inl e ↦ rw (end_wait-idle s e, step) h
    | inr (w, e) ↦ Ended-IsSound s w h.rotation (end_wait-Ended s w h.rotation h.shows e)
  ]
  step-IsSound s (executes session start now i) h =
      land-IsSound session start now (extract i s.in_flight) s h
  step-IsSound s (wakes now i) h = record {
    rotation = _;
    shows = (return_after_cooldown-Ran b c config now i s.pool h.rotation h.shows).shows;
  }
  step-IsSound s (sweeps now) h = record {
    rotation = _;
    shows = (sweep_quarantine-Ran b c config now s.pool h.rotation h.shows).2.shows;
  }
  step-IsSound s (cancels f) h = record { rotation = h.rotation; shows = h.shows }
