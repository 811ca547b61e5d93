-- ===== src/Server/Http/Answered.antt =====
-- A request of `_handle_http` from its submission to a quiet manager to the answer.
use proxy_hopper_v.Common.{ℕ, ◌≡◌, true, none, []}
use proxy_hopper_v.Config.{TargetConfig}
use proxy_hopper_v.Backend.{Backend, Contract}
use proxy_hopper_v.Models.{pending, Futures}
use proxy_hopper_v.Models.{FutureState, pending, resolved, raised, cancelled, Futures}
use proxy_hopper_v.Pool.Rotation.{Rotation}
use proxy_hopper_v.Pool.Refinement.{Shows}
use proxy_hopper_v.TargetManager.{TargetManager}
use proxy_hopper_v.Server.Head.{Head}

-- What the handler sees when its wait is over: a future that is not done is cancelled.
abbrev pub at_limit : FutureState → FutureState
at_limit pending = cancelled
at_limit (resolved resp) = resolved resp
at_limit (raised e) = raised e
at_limit cancelled = cancelled

module _ (b : Backend) (c : Contract b) (config : TargetConfig) where
  -- A running manager that has nothing to do, but for its flights, and a future that is not done.
  pub record IsQuiet (s : TargetManager b) (rotation : Rotation) (f : ℕ) : Type 0 where
    pub shows : Shows b c config s.pool rotation
    pub running : s.running ≡ true
    pub waiting : s.waiting ≡ none
    pub queue : s.request_queue ≡ []
    pub unsettled : s.futures f ≡ pending
