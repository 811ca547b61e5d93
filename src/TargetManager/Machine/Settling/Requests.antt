-- ===== src/TargetManager/Machine/Settling/Requests.antt =====
-- Requests between two rounds: the verdict on an exchange, and what a retry has left.
use proxy_hopper_v.Common.{
  ℕ, zero, suc, ◌+◌, ◌≤◌, ◌≡◌, refl, true, none, some, List, [], ◌∷◌, ◌++◌, arith, length, Result,
  ok, err, client_error,
}
use proxy_hopper_v.Models.{
  PendingRequest, ProxyResponse, is_expired, deadline, can_retry, clone_for_retry, done, settle,
  FutureState, Futures, pending,
}
use proxy_hopper_v.Pool.{extract}
use proxy_hopper_v.TargetManager.Execution.{retry, finish, verdict}

pub extract-append :
    {A : Type 0} (xs : List A) (x : A) → extract (length xs) (xs ++ x ∷ []) ≡ some (x, xs)
unfolding extract
extract-append [] x = refl
extract-append (y ∷ ys) x = rw (extract-append ys x) refl

pub extract-end : {A : Type 0} (xs : List A) → extract (length xs) xs ≡ none
unfolding extract
extract-end [] = refl
extract-end (y ∷ ys) = rw (extract-end ys) refl

pub settle-pending :
    (f : ℕ) (y : FutureState) (all : Futures) → all f ≡ pending → settle f y all f ≡ y
unfolding settle
settle-pending f y all h = ground (arith, h)

pub finish-done :
    (r : PendingRequest) (result : Result ProxyResponse) (y : FutureState)
    → verdict r result ≡ finish y
    → done y ≡ true
finish-done r (ok resp) y e = ground (arith, e)
finish-done r (err (client_error late why)) y e = ground (arith, e)
finish-done r (err x) y e = ground (arith, e)

pub retry-can_retry :
    (r : PendingRequest) (result : Result ProxyResponse)
    → verdict r result ≡ retry
    → can_retry r ≡ true
retry-can_retry r (ok resp) e = ground (arith, e)
retry-can_retry r (err (client_error late why)) e = ground (arith, e)
retry-can_retry r (err x) e = ground (arith, e)

pub some_left :
    (r : PendingRequest) (k : ℕ)
    → can_retry r ≡ true
    → r.num_retries ≤ r.failure_count + k
    → (k' : ℕ) × (k ≡ suc k')
unfolding can_retry
some_left r zero h l = absurd (ground (arith, h, l))
some_left r (suc k') h l = (k', refl)

pub clone-expired :
    (now : ℕ) (r : PendingRequest) → is_expired now (clone_for_retry r) ≡ is_expired now r
unfolding is_expired deadline clone_for_retry
clone-expired now r = refl

pub clone_left :
    (r : PendingRequest) (k k' : ℕ)
    → k ≡ suc k'
    → r.num_retries ≤ r.failure_count + k
    → (clone_for_retry r).num_retries ≤ (clone_for_retry r).failure_count + k'
unfolding clone_for_retry
clone_left r k k' e h = omega (arith, e, h)

pub clone_future : (r : PendingRequest) → (clone_for_retry r).future ≡ r.future
unfolding clone_for_retry
clone_future r = refl
