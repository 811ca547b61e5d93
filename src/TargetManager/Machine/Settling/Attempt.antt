-- ===== src/TargetManager/Machine/Settling/Attempt.antt =====
-- What a round that serves a request comes to, and one attempt of the plain loop.
use proxy_hopper_v.Common.{
  ℕ, suc, ◌+◌, ◌≡◌, refl, sym, ◌∙◌, ap, inl, inr, Bool, true, false, List, [], ◌∷◌, leb,
  if◌then◌else◌, Bool-cases, Text, Result,
}
use proxy_hopper_v.Config.{TargetConfig}
use proxy_hopper_v.Backend.{Backend, Contract}
use proxy_hopper_v.Models.{
  PendingRequest, ProxyResponse, clone_for_retry, done, FutureState, raised, is_expired,
}
use proxy_hopper_v.Pool.Rotation.{Rotation, succeeded, failed}
use proxy_hopper_v.TargetManager.{TargetManager, Flight, expired_in_queue, Outbound, outbound}
use proxy_hopper_v.TargetManager.Execution.{Verdict, verdict}
use proxy_hopper_v.TargetManager.Machine.Settling.{Serving, IsResting, Clock, served, judge}

pub served-old :
    (r : PendingRequest) (turns : ℕ → Clock) (session : ℕ → Outbound → Result ProxyResponse)
    (l : List Text)
    → is_expired (turns 0).taken r ≡ true
    → (n : ℕ) → served turns session (suc n) l r ≡ raised expired_in_queue
served-old r turns session [] old n = rw old refl
served-old r turns session (a ∷ rest) old n = rw old refl

pub served-fresh :
    (r : PendingRequest) (addresses : List Text) (turns : ℕ → Clock)
    (session : ℕ → Outbound → Result ProxyResponse) (a : Text) (rest : List Text) (v : Verdict)
    (n : ℕ)
    → a ∷ rest ≡ addresses
    → is_expired (turns 0).taken r ≡ false
    → verdict r (session 0 (outbound (turns 0).started a r)) ≡ v
    → served turns session (suc n) addresses r
      ≡ judge v (served (λ i. turns (suc i)) (λ i. session (suc i)) n rest (clone_for_retry r))
served-fresh r addresses turns session a rest v n p new e =
    ap (λ l. served turns session (suc n) l r) (sym p) ∙ rw (new, e) refl

module _ (b : Backend) (c : Contract b) (config : TargetConfig) (fs : List Flight) where
  pub queue-recorded :
      (good : Bool) (now : ℕ) (a : Text) (r : Rotation)
      → (if good then succeeded config now a r else failed config now a r).view.queue ≡ r.view.queue
  queue-recorded true now a r = refl
  queue-recorded false now a r =
      elim (Bool-cases (leb config.ip_failures_until_quarantine (r.view.failures a + 1))) [
        | inl e ↦ rw e refl
        | inr e ↦ rw e refl
      ]

  -- What a round that ends in `t` has done for the request, and what that is for the plain loop.
  pub data Turned (t : TargetManager b) (r : PendingRequest) (addresses : List Text) (k : ℕ)
      (turns : ℕ → Clock) (session : ℕ → Outbound → Result ProxyResponse) : Type 0 where
    over :
        (y : FutureState)
        → ((n : ℕ) → served turns session (suc n) addresses r ≡ y)
        → t.futures r.future ≡ y
        → done y ≡ true
        → IsResting b c config fs t
        → Turned t r addresses k turns session
    again :
        (rest : List Text) (k' : ℕ)
        → ((n : ℕ)
            → served turns session (suc n) addresses r
              ≡ served (λ i. turns (suc i)) (λ i. session (suc i)) n rest (clone_for_retry r))
        → k ≡ suc k'
        → Serving b c config fs t (clone_for_retry r) rest k'
        → Turned t r addresses k turns session
