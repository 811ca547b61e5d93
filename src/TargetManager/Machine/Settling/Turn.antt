-- ===== src/TargetManager/Machine/Settling/Turn.antt =====
-- One round of a request that nobody holds up.
use proxy_hopper_v.Common.{
  ℕ, suc, ◌<◌, ◌≡◌, refl, sym, ◌∙◌, ap, inl, inr, true, false, none, some, List, [], ◌∷◌, ◌++◌,
  arith, if◌then◌else◌, Bool-cases, length, Text, Result,
}
use proxy_hopper_v.Config.{TargetConfig}
use proxy_hopper_v.Backend.{Backend, Contract}
use proxy_hopper_v.Models.{
  PendingRequest, ProxyResponse, time_remaining, done, FutureState, raised, settle, is_expired,
}
use proxy_hopper_v.Pool.{IpPool}
use proxy_hopper_v.Pool.Rotation.{taken, succeeded, failed}
use proxy_hopper_v.TargetManager.{
  TargetManager, Flight, no_ip, expired_in_queue, Waiting, Outbound, take_request, end_wait,
  outbound, execute_request,
}
use proxy_hopper_v.TargetManager.Execution.{
  Verdict, retry, finish, verdict, Executed, is_good, execute_request-Executed,
}
use proxy_hopper_v.TargetManager.Machine.{takes, ends_wait, executes, land, step, run}
use proxy_hopper_v.TargetManager.Machine.Dispatch.{
  time_left, Ended, without_ip, with_ip, end_wait-Ended,
}
use proxy_hopper_v.TargetManager.Machine.Settling.Requests.{
  extract-append, settle-pending, finish-done, retry-can_retry, some_left, extract-end, clone_left,
  clone_future,
}
use proxy_hopper_v.TargetManager.Machine.Settling.{Serving, Clock, round, served, IsSteady}
use proxy_hopper_v.TargetManager.Machine.Settling.Attempt.{
  served-old, served-fresh, queue-recorded, Turned, over, again,
}

module _ (b : Backend) (c : Contract b) (config : TargetConfig) (fs : List Flight) where
  module _ (s : TargetManager b) (r : PendingRequest) (addresses : List Text) (k : ℕ)
      (turns : ℕ → Clock) (session : ℕ → Outbound → Result ProxyResponse)
      (h : Serving b c config fs s r addresses k) where
    abbrev w : Waiting
    w = record { request = r; timeout = time_remaining (turns 0).asked r }

    abbrev taken_state : TargetManager b
    taken_state = record s { request_queue = []; waiting = some w }

    abbrev settled_state : IpPool b → FutureState → TargetManager b
    settled_state p y = record s {
      pool = p;
      request_queue = [];
      waiting = none;
      in_flight = fs;
      futures = settle r.future y s.futures;
    }

    abbrev exchange : TargetManager b → TargetManager b
    exchange t =
        step b config t (executes (session 0) (turns 0).started (turns 0).ended (length fs))

    exchange-none : (t : TargetManager b) → t.in_flight ≡ fs → exchange t ≡ t
    unfolding step land
    exchange-none t e = rw (e, extract-end fs) refl

    run-round :
        (t u : TargetManager b)
        → step b config s (takes (turns 0).taken (turns 0).asked) ≡ t
        → step b config t ends_wait ≡ u
        → run b config s (round (length fs) (turns 0) (session 0)) ≡ exchange u
    unfolding run
    run-round t u e e' = ap (λ x. exchange (step b config x ends_wait)) e ∙ ap exchange e'

    -- The future is done before an exchange.
    stopped :
        (p : IpPool b) (y : FutureState)
        → run b config s (round (length fs) (turns 0) (session 0)) ≡ exchange (settled_state p y)
        → done y ≡ true
        → ((n : ℕ) → served turns session (suc n) addresses r ≡ y)
        → Turned b c config fs
            (run b config s (round (length fs) (turns 0) (session 0)))
            r
            addresses
            k
            turns
            session
    stopped p y e d same =
        rw (e, exchange-none (settled_state p y) refl)
          (over y same (settle-pending r.future y s.futures h.unsettled) d
            (record { waiting = refl; queue = refl; in_flight = refl }))

    too_old :
        is_expired (turns 0).taken r ≡ true
        → step b config (step b config s (takes (turns 0).taken (turns 0).asked)) ends_wait
          ≡ settled_state s.pool (raised expired_in_queue)
    unfolding step take_request end_wait
    too_old old = ground (arith, h.running, h.waiting, h.queue, h.in_flight, old)

    abbrev landing : IpPool b → TargetManager b
    landing p = record s { pool = p; request_queue = []; waiting = none; in_flight = fs }

    abbrev flown : Text → IpPool b → TargetManager b
    flown a p = record s {
      pool = p;
      request_queue = [];
      waiting = none;
      in_flight = fs ++ (record { address = a; request = r }) ∷ [];
    }

    abbrev ended : ℕ
    ended = (turns 0).ended

    -- The exchange of the new flight.
    exchange-flown :
        (a : Text) (p : IpPool b)
        → exchange (flown a p)
          ≡ (execute_request b config
              (session 0)
              (turns 0).started
              ended
              (record { address = a; request = r })
              (landing p)).1
    unfolding step land
    exchange-flown a p = rw (extract-append fs (record { address = a; request = r })) refl

    judged :
        (a : Text) (rest : List Text) (p : IpPool b) (out : Result (Unit {0}) × TargetManager b)
        (v : Verdict)
        → a ∷ rest ≡ addresses
        → is_expired (turns 0).taken r ≡ false
        → verdict r (session 0 (outbound (turns 0).started a r)) ≡ v
        → Executed b c config ended
            (record { address = a; request = r })
            (session 0 (outbound (turns 0).started a r))
            (landing p)
            (taken rest h.rotation)
            out
        → Turned b c config fs out.1 r addresses k turns session
    judged a rest p out (finish y) q new e x =
        over y (λ n. served-fresh r addresses turns session a rest (finish y) n q new e)
          (rw (x.futures, e) (settle-pending r.future y s.futures h.unsettled))
          (finish-done r (session 0 (outbound (turns 0).started a r)) y e)
          (record { waiting = x.waiting; queue = rw (x.queue, e) refl; in_flight = x.in_flight })
    judged a rest p out retry q new e x =
        let result = session 0 (outbound (turns 0).started a r) in
        let good = is_good result in
        let (k', l) = some_left r k (retry-can_retry r result e) h.left in
        again rest k' (λ n. served-fresh r addresses turns session a rest retry n q new e) l
          (record {
            rotation =
                if good
                then succeeded config ended a (taken rest h.rotation)
                else failed config ended a (taken rest h.rotation);
            shows = x.pool.shows;
            running = x.running ∙ h.running;
            waiting = x.waiting;
            queue = rw (x.queue, e) refl;
            in_flight = x.in_flight;
            left = clone_left r k k' l h.left;
            unsettled = rw (x.futures, e, clone_future r) h.unsettled;
            listed = queue-recorded b c config fs good ended a (taken rest h.rotation);
          })

    taken_lem :
        is_expired (turns 0).taken r ≡ false
        → step b config s (takes (turns 0).taken (turns 0).asked) ≡ taken_state
    unfolding step take_request
    taken_lem new = ground (arith, h.running, h.waiting, h.queue, new)

    -- The end of the dispatcher's wait, and the exchange if there is one.
    waited :
        {out : Result (Unit {0}) × TargetManager b}
        → Ended b c config taken_state w h.rotation out
        → out ≡ end_wait b config taken_state
        → is_expired (turns 0).taken r ≡ false
        → 0 < w.timeout
        → Turned b c config fs
            (run b config s (round (length fs) (turns 0) (session 0)))
            r
            addresses
            k
            turns
            session
    unfolding step
    waited (without_ip p (inr late) shown e) o new time = absurd (omega (arith, late, time))
    waited (without_ip p (inl empty) shown e) o new time =
        stopped p (raised no_ip)
          (run-round taken_state (settled_state p (raised no_ip)) (taken_lem new) (
            ap (λ (x : Result (Unit {0}) × TargetManager b). x.1) (sym o ∙ e)
            ∙ rw h.in_flight refl))
          refl
          (λ n. ap (λ l. served turns session (suc n) l r) (sym h.listed ∙ empty) ∙ rw new refl)
    waited (with_ip p a rest next shown e) o new time =
        let x =
          execute_request-Executed b c config (session 0) (turns 0).started ended
            (record { address = a; request = r }) (landing p) (taken rest h.rotation) shown in
        rw
          (
            run-round taken_state (flown a p) (taken_lem new) (
                ap (λ (x : Result (Unit {0}) × TargetManager b). x.1) (sym o ∙ e)
                ∙ rw h.in_flight refl),
            exchange-flown a p,
          )
          (judged a rest p _ (verdict r (session 0 (outbound (turns 0).started a r)))
            (sym next ∙ h.listed) new refl x)

    -- After the round the future is done, or the request is served once more, with one retry less.
    pub round-Turned :
        IsSteady turns r
        → Turned b c config fs
            (run b config s (round (length fs) (turns 0) (session 0)))
            r
            addresses
            k
            turns
            session
    round-Turned steady = elim (Bool-cases (is_expired (turns 0).taken r)) [
      | inl old ↦
          stopped s.pool (raised expired_in_queue)
            (run-round _ (settled_state s.pool (raised expired_in_queue)) refl (too_old old)) refl
            (served-old r turns session addresses old)
      | inr new ↦
          waited (end_wait-Ended b c config taken_state w h.rotation h.shows refl) refl new
            (time_left b c config (turns 0).asked r (steady 0 new))
    ]
