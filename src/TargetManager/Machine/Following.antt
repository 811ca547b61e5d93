-- ===== src/TargetManager/Machine/Following.antt =====
-- The machine follows the step relation of the pool: what its flights hold is what is leased.
use proxy_hopper_v.Common.{
  ℕ, zero, suc, ◌≤◌, ◌≡◌, refl, sym, ap, Bool, true, false, inl, inr, Option, none, some, List, [],
  ◌∷◌, ◌++◌, arith, if◌then◌else◌, Option-cases, Text, Result,
}
use native.Mathlib.Nat.{le_refl, le_trans}
use proxy_hopper_v.Config.{TargetConfig}
use proxy_hopper_v.Backend.{Backend, Contract}
use proxy_hopper_v.Models.{ProxyResponse}
use proxy_hopper_v.Pool.{extract}
use proxy_hopper_v.Pool.Rotation.{succeeded, failed}
use proxy_hopper_v.Pool.Refinement.{Shows}
use proxy_hopper_v.Pool.Refinement.Methods.{return_after_cooldown-Ran, sweep_quarantine-Ran}
use proxy_hopper_v.Pool.Steps
use proxy_hopper_v.Pool.Steps.{World, Step, Reach, here, next, seeded}
use proxy_hopper_v.TargetManager.{TargetManager, Waiting, Flight, Outbound, outbound, submit}
use proxy_hopper_v.TargetManager.Execution.{execute_request-Executed, is_good}
use proxy_hopper_v.TargetManager.Machine.{
  Event, submits, takes, ends_wait, executes, wakes, sweeps, cancels, land, step, run,
}
use proxy_hopper_v.TargetManager.Machine.Dispatch.{
  Ended, without_ip, with_ip, end_wait-Ended, end_wait-idle, Taken, nothing, too_old, waits,
  take_request-Taken,
}

unfoldable pub addresses_of : List Flight → List Text
addresses_of [] = []
addresses_of (f ∷ fs) = f.address ∷ addresses_of fs

addresses_of-append :
    (xs ys : List Flight) → addresses_of (xs ++ ys) ≡ addresses_of xs ++ addresses_of ys
unfolding addresses_of
addresses_of-append [] ys = refl
addresses_of-append (f ∷ fs) ys = rw (addresses_of-append fs ys)

addresses_of-extract :
    (i : ℕ) (l : List Flight) {f : Flight} {rest : List Flight}
    → extract i l ≡ some (f, rest)
    → extract i (addresses_of l) ≡ some (f.address, addresses_of rest)
unfolding addresses_of extract
addresses_of-extract i [] h = cc
addresses_of-extract zero (y ∷ l) h = ground arith
addresses_of-extract (suc i) (y ∷ l) h = elim (Option-cases (extract i l)) [
  | inl e ↦ ground arith
  | inr ((g, k), e) ↦ ground (arith, addresses_of-extract i l {f = g} {rest = k} e)
]

-- The clock does not run backwards, where an event of the pool reads it.
abbrev pub IsTimely : ℕ → Event → Type 0
IsTimely clock (executes session start now i) = clock ≤ now
IsTimely clock (wakes now i) = clock ≤ now
IsTimely clock (sweeps now) = clock ≤ now
IsTimely clock _ = Unit {0}

abbrev pub time_after : ℕ → Event → ℕ
time_after clock (executes session start now i) = now
time_after clock (wakes now i) = now
time_after clock (sweeps now) = now
time_after clock _ = clock

abbrev pub AreTimely : ℕ → List Event → Type 0
AreTimely clock [] = Unit {0}
AreTimely clock (e ∷ es) = IsTimely clock e × AreTimely (time_after clock e) es

module _ (b : Backend) (c : Contract b) (config : TargetConfig) where
  -- The world `w`, at the time `clock`, is that of the manager `s`.
  pub record Follows (clock : ℕ) (w : World) (s : TargetManager b) : Type 0 where
    pub shows : Shows b c config s.pool w.rotation
    pub leased : w.leased ≡ addresses_of s.in_flight
    pub clock_at : w.clock ≤ clock

  -- From `w`, a world for the manager `t` is reached.
  abbrev Led : ℕ → World → TargetManager b → Type 0
  Led clock w t = (v : World) × Reach config w v × Follows clock v t

  -- A flight that lands is a success or a failure of its address.
  landed :
      (good : Bool) (now i : ℕ) (clock : ℕ) (a : Text) (rest : List Text) (w : World)
      (t : TargetManager b)
      → w.clock ≤ now
      → extract i w.leased ≡ some (a, rest)
      → Shows b c config t.pool
          (if good then succeeded config now a w.rotation else failed config now a w.rotation)
      → rest ≡ addresses_of t.in_flight
      → Led now w t
  landed true now i clock a rest w t late e shown l = (
    _,
    next here (Steps.succeed now i a rest late e),
    record { shows = shown; leased = l; clock_at = le_refl now },
  )
  landed false now i clock a rest w t late e shown l = (
    _,
    next here (Steps.fail now i a rest late e),
    record { shows = shown; leased = l; clock_at = le_refl now },
  )

  land-Led :
      (session : Outbound → Result ProxyResponse) (start now i : ℕ) (clock : ℕ)
      (o : Option (Flight × List Flight)) (w : World) (s : TargetManager b)
      → extract i s.in_flight ≡ o
      → clock ≤ now
      → Follows clock w s
      → Led now w (land b config session start now o s)
  unfolding land
  land-Led session start now i clock none w s e t h =
      (w, here, record { shows = h.shows; leased = h.leased; clock_at = le_trans h.clock_at t })
  land-Led session start now i clock (some (f, rest)) w s e t h =
      let x =
        execute_request-Executed b c config session start now f (record s { in_flight = rest })
          w.rotation h.shows in
      landed (is_good (session (outbound start f.address f.request))) now i clock f.address
        (addresses_of rest) w _ (le_trans h.clock_at t)
        (rw h.leased (addresses_of-extract i s.in_flight {f = f} {rest = rest} e)) x.pool.shows
        (ap addresses_of (sym x.in_flight))

  takes-Led :
      (clock now later : ℕ) (w : World) (s t : TargetManager b)
      → Taken b c config now later s t
      → Follows clock w s
      → Led clock w t
  takes-Led clock now later w s t (nothing _ e) h = rw e (w, here, h)
  takes-Led clock now later w s t (too_old r rest _ _ _ _ e) h =
      rw e (w, here, record { shows = h.shows; leased = h.leased; clock_at = h.clock_at })
  takes-Led clock now later w s t (waits r rest _ _ _ _ e) h =
      rw e (w, here, record { shows = h.shows; leased = h.leased; clock_at = h.clock_at })

  Ended-Led :
      (clock : ℕ) (w : World) (s : TargetManager b) (x : Waiting)
      {out : Result (Unit {0}) × TargetManager b}
      → Ended b c config s x w.rotation out
      → Follows clock w s
      → Led clock w out.1
  unfolding addresses_of
  Ended-Led clock w s x (without_ip p _ shown e) h =
      rw e (w, here, record { shows = shown; leased = h.leased; clock_at = h.clock_at })
  Ended-Led clock w s x (with_ip p a rest q shown e) h = rw e (
    _,
    next here (Steps.acquire w.clock a rest (le_refl w.clock) q),
    record {
      shows = shown;
      leased = rw (
        h.leased,
        addresses_of-append s.in_flight (record { address = a; request = x.request } ∷ []),
      );
      clock_at = h.clock_at;
    },
  )

  step-Led :
      (clock : ℕ) (w : World) (s : TargetManager b) (e : Event)
      → IsTimely clock e
      → Follows clock w s
      → Led (time_after clock e) w (step b config s e)
  unfolding step submit
  step-Led clock w s (submits r) t h =
      (w, here, record { shows = h.shows; leased = h.leased; clock_at = h.clock_at })
  step-Led clock w s (takes now later) t h =
      takes-Led clock now later w s _ (take_request-Taken b c config now later s) h
  step-Led clock w s ends_wait t h = elim (Option-cases s.waiting) [
    | inl e ↦ rw (end_wait-idle b c config s e, step) (w, here, h)
    | inr (x, e) ↦ Ended-Led clock w s x (end_wait-Ended b c config s x w.rotation h.shows e) h
  ]
  step-Led clock w s (executes session start now i) t h =
      land-Led session start now i clock (extract i s.in_flight) w s refl t h
  step-Led clock w s (wakes now i) t h = (
    _,
    next here (Steps.wake now i (le_trans h.clock_at t)),
    record {
      shows = (return_after_cooldown-Ran b c config now i s.pool w.rotation h.shows).shows;
      leased = h.leased;
      clock_at = le_refl now;
    },
  )
  step-Led clock w s (sweeps now) t h =
      let (xs, claims, ran) = sweep_quarantine-Ran b c config now s.pool w.rotation h.shows in
      (
        _,
        next here (Steps.sweep now xs (le_trans h.clock_at t) claims),
        record { shows = ran.shows; leased = h.leased; clock_at = le_refl now },
      )
  step-Led clock w s (cancels f) t h =
      (w, here, record { shows = h.shows; leased = h.leased; clock_at = h.clock_at })

  Reach-trans : {u v w : World} → Reach config u v → Reach config v w → Reach config u w
  Reach-trans r here = r
  Reach-trans r (next q s) = next (Reach-trans r q) s

  -- Every run of the machine is a run of the pool's step relation.
  pub run-Led :
      (clock : ℕ) (w : World) (s : TargetManager b) (es : List Event)
      → AreTimely clock es
      → Follows clock w s
      → (late : ℕ) × Led late w (run b config s es)
  unfolding run
  run-Led clock w s [] t h = (clock, (w, here, h))
  run-Led clock w s (e ∷ es) t h =
      let (v, r, k) = step-Led clock w s e t.0 h in
      let (late, led) = run-Led (time_after clock e) v (step b config s e) es t.1 k in
      (late, (led.0, Reach-trans r led.1, led.2))
