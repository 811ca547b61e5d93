-- ===== src/TargetManager/Machine/Retries.antt =====
-- A request is sent at most once more than it has retries.
use proxy_hopper_v.Common.{
  ℕ, suc, ◌+◌, ◌-◌, ◌≤◌, ◌≡◌, refl, Option, none, some, List, [], ◌∷◌, arith, ◌==◌, if◌then◌else◌,
  Result,
}
use proxy_hopper_v.Config.{TargetConfig}
use proxy_hopper_v.Backend.{Backend, Contract}
use proxy_hopper_v.Models.{PendingRequest, ProxyResponse, can_retry, clone_for_retry}
use proxy_hopper_v.Pool.{extract}
use proxy_hopper_v.TargetManager.{TargetManager, Flight, Outbound}
use proxy_hopper_v.TargetManager.Machine.{Event, submits, executes, land, step}
use proxy_hopper_v.TargetManager.Machine.Dispatch.{IsSound, step-IsSound}
use proxy_hopper_v.TargetManager.Machine.Effects.{
  total, Effect, same, drops, abandons, lands, Landed, again, over, total-submits, step-Effect,
  land-Landed,
}
use proxy_hopper_v.TargetManager.Machine.Carried.{carries, IsFresh, AreFresh}

-- The exchanges that a request may still come to, if it is one for the future `f`.
abbrev pub budget : ℕ → PendingRequest → ℕ
budget f r = if r.future == f then suc (r.num_retries - r.failure_count) else 0

module _ (b : Backend) (config : TargetConfig) (f : ℕ) where
  abbrev exchanged_by : Option (Flight × List Flight) → ℕ
  exchanged_by none = 0
  exchanged_by (some (fl, rest)) = carries f fl.request

  -- Whether an event is an exchange for the future `f`.
  abbrev pub exchanged : TargetManager b → Event → ℕ
  exchanged s (executes session start now i) = exchanged_by (extract i s.in_flight)
  exchanged s _ = 0

  -- The number of exchanges for the future `f` during a run.
  pub exchanges : TargetManager b → List Event → ℕ
  exchanges s [] = 0
  exchanges s (e ∷ es) = exchanged s e + exchanges (step b config s e) es

module _ (b : Backend) (c : Contract b) (config : TargetConfig) (f : ℕ) where
  Effect-budget :
      (s t : TargetManager b) → Effect b s t → total b (budget f) t ≤ total b (budget f) s
  unfolding can_retry clone_for_retry
  Effect-budget s t (same m e) = omega (arith, m (budget f))
  Effect-budget s t (drops r x d m e) = omega (arith, m (budget f))
  Effect-budget s t (abandons g m e) = omega (arith, m (budget f))
  Effect-budget s t (lands r (again can m e)) = ground (arith, m (budget f))
  Effect-budget s t (lands r (over x d m e)) = omega (arith, m (budget f))

  Landed-budget :
      (r : PendingRequest) (s t : TargetManager b)
      → Landed b r s t
      → carries f r + total b (budget f) t ≤ total b (budget f) s
  unfolding can_retry clone_for_retry
  Landed-budget r s t (again can m e) = ground (arith, m (budget f))
  Landed-budget r s t (over x d m e) = ground (arith, m (budget f))

  land-budget :
      (session : Outbound → Result ProxyResponse) (start now i : ℕ)
      (o : Option (Flight × List Flight)) (s : TargetManager b)
      → IsSound b c config s
      → extract i s.in_flight ≡ o
      → exchanged_by b config f o + total b (budget f) (land b config session start now o s)
        ≤ total b (budget f) s
  land-budget session start now i none s h e = unfold land in omega arith
  land-budget session start now i (some (fl, rest)) s h e =
      Landed-budget fl.request s _ (land-Landed b c config session start now i fl rest s h e)

  -- An event that submits nothing for `f` pays for its exchange out of the budget.
  step-budget :
      (s : TargetManager b) (e : Event)
      → IsFresh f e
      → IsSound b c config s
      → exchanged b config f s e + total b (budget f) (step b config s e) ≤ total b (budget f) s
  unfolding step
  step-budget s (submits r) n h = ground (arith, total-submits b c config s r (budget f))
  step-budget s (executes session start now i) n h =
      land-budget session start now i (extract i s.in_flight) s h refl
  step-budget s e n h = omega (arith, Effect-budget s _ (step-Effect b c config s e refl h))

  exchanges-le-budget :
      (s : TargetManager b) (es : List Event)
      → AreFresh f es
      → IsSound b c config s
      → exchanges b config f s es ≤ total b (budget f) s
  unfolding exchanges
  exchanges-le-budget s [] n h = omega arith
  exchanges-le-budget s (e ∷ es) n h = omega (
    arith,
    step-budget s e n.0 h,
    exchanges-le-budget (step b config s e) es n.1 (step-IsSound b c config s e h),
  )

-- In a manager whose pool shows a rotation:
-- after the submission of a request with a new future, which no later submission uses, and no
-- failures yet, whatever happens and in
-- whatever order, at most `num_retries + 1` exchanges are made for that future.
pub submitted-exchanges-le :
    (b : Backend) (c : Contract b) (config : TargetConfig) (s : TargetManager b)
    (r : PendingRequest) (es : List Event)
    → IsSound b c config s
    → total b (budget r.future) s ≡ 0
    → r.failure_count ≡ 0
    → AreFresh r.future es
    → exchanges b config r.future s (submits r ∷ es) ≤ r.num_retries + 1
unfolding exchanges
submitted-exchanges-le b c config s r es h none_yet new n = ground (
  arith,
  total-submits b c config s r (budget r.future),
  exchanges-le-budget b c config r.future (step b config s (submits r)) es n
      (step-IsSound b c config s (submits r) h),
)
