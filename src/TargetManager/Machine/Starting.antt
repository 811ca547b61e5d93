-- ===== src/TargetManager/Machine/Starting.antt =====
-- What `start` of a target manager leads to.
use proxy_hopper_v.Common.{◌≡◌, refl, none, List, Text, ok}
use proxy_hopper_v.Config.{TargetConfig}
use proxy_hopper_v.Backend.{Backend, Contract}
use proxy_hopper_v.Pool
use proxy_hopper_v.Pool.Refinement.Start.{start-Ran_first}
use proxy_hopper_v.TargetManager
use proxy_hopper_v.TargetManager.{start}
use proxy_hopper_v.TargetManager.Machine.Conservation.{IsStarted}

-- A new manager on a store that has not seen its target, whose name it can hold, starts without an exception, and then its
-- queue holds each address it was made with, in their order, its tasks run, and no request is under
-- way.
pub start-IsStarted :
    (b : Backend) (c : Contract b) (config : TargetConfig) (as' : List Text) (store : b.Store)
    → c.IsName config.name
    → c.IsValid store
    → c.view store config.name ≡ none
    → let out = start b config as' (TargetManager.new b store) in
      (out.0 ≡ ok tt) × IsStarted b c config as' out.1
unfolding start
start-IsStarted b c config as' store n v e =
    let h = start-Ran_first b c config as' (Pool.new b store) n v e in
    rw h.0 (refl, record { shows = h.1; no_flight = refl; no_wait = refl; running = refl })
