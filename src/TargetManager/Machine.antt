-- ===== src/TargetManager/Machine.antt =====
-- The tasks of a `TargetManager` and its pool as a machine that the event loop drives: each event is
-- one task's turn, in any order.
pub mod Dispatch
pub mod Effects
pub mod Following
pub mod Conservation
pub mod Carried
pub mod Retries
pub mod Starting
pub mod Settling
use proxy_hopper_v.Common.{ℕ, zero, suc, ◌+◌, Option, none, some, List, [], ◌∷◌, ◌++◌, Result, Text}
use proxy_hopper_v.Config.{TargetConfig}
use proxy_hopper_v.Backend.{Backend}
use proxy_hopper_v.Models.{PendingRequest, ProxyResponse, cancelled, settle}
use proxy_hopper_v.Pool
use proxy_hopper_v.Pool.{extract}
use proxy_hopper_v.TargetManager.{
  TargetManager, Flight, Outbound, on_pool, submit, take_request, end_wait, execute_request,
}

pub data Event : Type 0 where
  -- a client's handler calls `submit`
  submits : PendingRequest → Event
  -- the dispatcher's `get` returns; the clock is read twice
  takes : ℕ → ℕ → Event
  -- the dispatcher's `acquire` returns
  ends_wait : Event
  -- the exchange of the `i`-th flight, with its start and its end
  executes : (Outbound → Result ProxyResponse) → ℕ → ℕ → ℕ → Event
  -- the `i`-th sleeping task of the pool gets its turn
  wakes : ℕ → ℕ → Event
  sweeps : ℕ → Event
  -- the time limit of a client's handler cancels its future
  cancels : ℕ → Event

module _ (b : Backend) (config : TargetConfig) where
  unfoldable pub land :
      (Outbound → Result ProxyResponse)
      → ℕ
      → ℕ
      → Option (Flight × List Flight)
      → TargetManager b
      → TargetManager b
  land session start now none s = s
  land session start now (some (f, rest)) s =
      (execute_request b config session start now f (record s { in_flight = rest })).1

  unfoldable pub step : TargetManager b → Event → TargetManager b
  unfolding land
  step s (submits r) = (submit b r s).1
  step s (takes now later) = (take_request b now later s).1
  step s ends_wait = (end_wait b config s).1
  step s (executes session start now i) = land session start now (extract i s.in_flight) s
  step s (wakes now i) = (on_pool b (Pool.return_after_cooldown b config now i) s).1
  step s (sweeps now) = (on_pool b (Pool.sweep_quarantine b config now) s).1
  step s (cancels f) = record s { futures = settle f cancelled s.futures }

  unfoldable pub run : TargetManager b → List Event → TargetManager b
  run s [] = s
  run s (e ∷ es) = run (step s e) es
