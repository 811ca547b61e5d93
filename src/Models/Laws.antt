-- ===== src/Models/Laws.antt =====
-- Laws of the requests and futures of models.py.
use proxy_hopper_v.Common.{ℕ, ◌≡◌, ◌↔◌, true, arith}
use proxy_hopper_v.Models.{
  PendingRequest, is_expired, time_remaining, FutureState, Futures, done, settle,
}

-- A request is expired exactly when it has no time left.
pub is_expired-time_remaining :
    (now : ℕ) (r : PendingRequest) → (is_expired now r ≡ true) ↔ (time_remaining now r ≡ 0)
unfolding is_expired time_remaining
is_expired-time_remaining now r = ground arith

-- A future that is done keeps its outcome.
pub settle-done :
    (f g : ℕ) (x : FutureState) (all : Futures) → done (all g) ≡ true → settle f x all g ≡ all g
unfolding settle
settle-done f g x all h = ground arith
