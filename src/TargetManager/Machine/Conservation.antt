-- ===== src/TargetManager/Machine/Conservation.antt =====
-- Where the addresses of a target are, at any time after its start.
use proxy_hopper_v.Common.{true, ◌+◌, ◌≡◌, none, some, List, [], bit, count, Text, IsNodup}
use native.Mathlib.Nat.{le_refl}
use proxy_hopper_v.Config.{TargetConfig}
use proxy_hopper_v.Backend.{Backend, Contract, View, is_some}
use proxy_hopper_v.Pool.Rotation.Copies.{count_cooling}
use proxy_hopper_v.Pool.Refinement.{Shows}
use proxy_hopper_v.Pool.Steps.{seeded}
use proxy_hopper_v.Pool.Steps.Conservation.{Reach-copies}
use proxy_hopper_v.TargetManager.{TargetManager}
use proxy_hopper_v.TargetManager.Machine.{Event, run}
use proxy_hopper_v.TargetManager.Machine.Following.{addresses_of, AreTimely, run-Led}

-- A manager whose pool was just seeded, with no request under way.
pub record IsStarted (b : Backend) (c : Contract b) (config : TargetConfig) (as' : List Text)
    (s : TargetManager b) : Type 0 where
  pub shows : Shows b c config s.pool (seeded as').rotation
  pub no_flight : s.in_flight ≡ []
  pub no_wait : s.waiting ≡ none
  pub running : s.running ≡ true

-- From the start on, over any backend that keeps its contract and whatever happens to the requests,
-- each configured address is in exactly one place: in the queue, asleep, in the quarantine, or used
-- by one flight; if the list has no repetitions and the times of the events never go back. No other
-- address comes up.
pub run-conserves :
    (b : Backend) (c : Contract b) (config : TargetConfig) (as' : List Text) (s : TargetManager b)
    (es : List Event)
    → IsNodup as'
    → IsStarted b c config as' s
    → AreTimely 0 es
    → let t = run b config s es in
      (v : View) × (c.view t.pool.store config.name ≡ some v)
      × ((x : Text)
          → count x v.queue
              + count_cooling x t.pool.cooling
              + bit (is_some (v.release x))
              + count x (addresses_of t.in_flight)
            ≡ count x as')
unfolding addresses_of
run-conserves b c config as' s es once h t =
    let (late, led) =
      run-Led b c config 0 (seeded as') s es t
        (record { shows = h.shows; leased = rw h.no_flight; clock_at = le_refl 0 }) in
    let (w, r, k) = led in
    (
      w.rotation.view,
      k.shows.view,
      λ x. rw (k.shows.cooling, ← k.leased) (Reach-copies config as' w x once r),
    )
