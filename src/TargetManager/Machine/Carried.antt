-- ===== src/TargetManager/Machine/Carried.antt =====
-- No request is lost: until its future is done, the manager carries it.
use proxy_hopper_v.Common.{
  ℕ, ◌+◌, ◌≤◌, ◌≡◌, ◌≢◌, refl, ap, ◌⊎◌, true, List, [], ◌∷◌, arith, ◌==◌, bit,
}
use proxy_hopper_v.Config.{TargetConfig}
use proxy_hopper_v.Backend.{Backend, Contract}
use proxy_hopper_v.Models.{PendingRequest, clone_for_retry, FutureState, Futures, done, settle}
use proxy_hopper_v.TargetManager.{TargetManager}
use proxy_hopper_v.TargetManager.Machine.{Event, submits, step, run}
use proxy_hopper_v.TargetManager.Machine.Dispatch.{IsSound, step-IsSound}
use proxy_hopper_v.TargetManager.Machine.Effects.{
  total, Effect, same, drops, abandons, lands, Landed, again, over, total-submits, futures-submits,
  step-Effect,
}

-- The weight of a request that would settle the future `f`.
abbrev pub carries : ℕ → PendingRequest → ℕ
carries f r = bit (r.future == f)

-- No later submission uses the future `f`.
abbrev pub IsFresh : ℕ → Event → Type 0
IsFresh f (submits r) = r.future ≢ f
IsFresh f _ = Unit {0}

abbrev pub AreFresh : ℕ → List Event → Type 0
AreFresh f [] = Unit {0}
AreFresh f (e ∷ es) = IsFresh f e × AreFresh f es

-- The future is done, or exactly one request that will settle it is under way; never two are.
pub record IsCarried (b : Backend) (f : ℕ) (s : TargetManager b) : Type 0 where
  pub once : total b (carries f) s ≤ 1
  pub kept : (done (s.futures f) ≡ true) ⊎ (total b (carries f) s ≡ 1)

module _ (b : Backend) (f : ℕ) where
  clone_future : (r : PendingRequest) → carries f (clone_for_retry r) ≡ carries f r
  unfolding clone_for_retry
  clone_future r = refl

  at_f : {all all' : Futures} → all ≡ all' → all f ≡ all' f
  at_f e = ap (λ (all : Futures). all f) e

  over_cases :
      (r : PendingRequest) (x : FutureState) (s t : TargetManager b)
      → done x ≡ true
      → total b (carries f) s ≡ carries f r + total b (carries f) t
      → t.futures ≡ settle r.future x s.futures
      → IsCarried b f s
      → IsCarried b f t
  unfolding settle
  over_cases r x s t d m e h = ground (arith, at_f e)

  Landed-IsCarried :
      (r : PendingRequest) (s t : TargetManager b)
      → Landed b r s t
      → IsCarried b f s
      → IsCarried b f t
  Landed-IsCarried r s t (again _ m e) h = ground (arith, m (carries f), clone_future r, at_f e)
  Landed-IsCarried r s t (over x d m e) h = over_cases r x s t d (m (carries f)) e h

  Effect-IsCarried : (s t : TargetManager b) → Effect b s t → IsCarried b f s → IsCarried b f t
  unfolding settle
  Effect-IsCarried s t (same m e) h = ground (arith, m (carries f), at_f e)
  Effect-IsCarried s t (drops r x d m e) h = over_cases r x s t d (m (carries f)) e h
  Effect-IsCarried s t (abandons g m e) h = ground (arith, m (carries f), at_f e)
  Effect-IsCarried s t (lands r l) h = Landed-IsCarried r s t l h

module _ (b : Backend) (c : Contract b) (config : TargetConfig) (f : ℕ) where
  submits-IsCarried :
      (s : TargetManager b) (r : PendingRequest)
      → r.future ≢ f
      → IsCarried b f s
      → IsCarried b f (step b config s (submits r))
  submits-IsCarried s r n h =
      ground
        (arith, total-submits b c config s r (carries f), at_f b f (futures-submits b c config s r))

  step-IsCarried :
      (s : TargetManager b) (e : Event)
      → IsFresh f e
      → IsSound b c config s
      → IsCarried b f s
      → IsCarried b f (step b config s e)
  step-IsCarried s (submits r) n k h = submits-IsCarried s r n h
  step-IsCarried s e n k h = Effect-IsCarried b f s _ (step-Effect b c config s e refl k) h

  pub run-IsCarried :
      (s : TargetManager b) (es : List Event)
      → AreFresh f es
      → IsSound b c config s
      → IsCarried b f s
      → IsCarried b f (run b config s es)
  unfolding run
  run-IsCarried s [] n k h = h
  run-IsCarried s (e ∷ es) n k h =
      run-IsCarried (step b config s e) es n.1 (step-IsSound b c config s e k)
        (step-IsCarried s e n.0 k h)

-- In a manager whose pool shows a rotation:
-- from the submission of a request with a new future on, which no later submission uses, whatever
-- the other tasks do and in whatever order: the future is done, or exactly one request that will
-- settle it is in the queue, with the dispatcher or in flight. There are never two.
pub submitted-IsCarried :
    (b : Backend) (c : Contract b) (config : TargetConfig) (s : TargetManager b)
    (r : PendingRequest) (es : List Event)
    → IsSound b c config s
    → total b (carries r.future) s ≡ 0
    → AreFresh r.future es
    → IsCarried b r.future (run b config s (submits r ∷ es))
unfolding run
submitted-IsCarried b c config s r es k none_yet n =
    run-IsCarried b c config r.future (step b config s (submits r)) es n
      (step-IsSound b c config s (submits r) k)
      (ground (arith, total-submits b c config s r (carries r.future)))
