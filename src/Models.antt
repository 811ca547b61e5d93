-- ===== src/Models.antt =====
-- models.py: the data that the parts of the program exchange. Times are milliseconds, and the
-- reading of the clock is the argument `now`.
pub mod Laws
use proxy_hopper_v.Common.{
  ℕ, ◌+◌, ◌-◌, Bool, true, false, Option, none, some, List, [], ◌∷◌, ◌++◌, ltb, leb, ◌==◌,
  if◌then◌else◌, max, Text, codes, Dict, Error,
}
use proxy_hopper_v.Strings.Ints.{ℤ, show_int}

pub record IpState : Type 0 where
  pub host : Text
  pub port : ℤ
  pub consecutive_failures : ℕ
  pub last_used_at : ℕ
  pub quarantined_until : ℕ

unfoldable pub ip_address : IpState → Text
ip_address s = s.host ++ b':' ∷ show_int s.port

unfoldable pub reset_failures : IpState → IpState
reset_failures s = record s { consecutive_failures = 0 }

unfoldable pub record_failure : IpState → IpState
record_failure s = record s { consecutive_failures = s.consecutive_failures + 1 }

unfoldable pub record_success : ℕ → IpState → IpState
record_success now s = record s { consecutive_failures = 0; last_used_at = now }

-- `future` names the `asyncio.Future`, which a request shares with its retries.
pub record PendingRequest : Type 0 where
  pub method : Text
  pub url : Text
  pub headers : Dict Text
  pub body : Option Text
  pub future : ℕ
  pub arrival_time : ℕ
  pub max_queue_wait : ℕ
  pub num_retries : ℕ
  pub failure_count : ℕ

unfoldable pub deadline : PendingRequest → ℕ
deadline r = r.arrival_time + r.max_queue_wait

unfoldable pub is_expired : ℕ → PendingRequest → Bool
unfolding deadline
is_expired now r = leb (deadline r) now

-- The difference stops at 0, as `max(0.0, …)` does.
unfoldable pub time_remaining : ℕ → PendingRequest → ℕ
unfolding deadline
time_remaining now r = deadline r - now

unfoldable pub can_retry : PendingRequest → Bool
can_retry r = ltb r.failure_count r.num_retries

unfoldable pub clone_for_retry : PendingRequest → PendingRequest
clone_for_retry r = record {
  method = r.method;
  url = r.url;
  headers = r.headers;
  body = r.body;
  future = r.future;
  arrival_time = r.arrival_time;
  max_queue_wait = r.max_queue_wait;
  num_retries = r.num_retries;
  failure_count = r.failure_count + 1;
}

pub record ProxyResponse : Type 0 where
  pub status : ℕ
  pub headers : Dict Text
  pub body : Text

pub data ReturnReason : Type 0 where
  success rate_limited server_error connection_error from_quarantine : ReturnReason

-- What is known of an `asyncio.Future`.
pub data FutureState : Type 0 where
  pending : FutureState
  resolved : ProxyResponse → FutureState
  raised : Error → FutureState
  -- by the time limit of the client's handler
  cancelled : FutureState

abbrev pub done : FutureState → Bool
done pending = false
done _ = true

-- All futures, by their names.
abbrev pub Futures : Type 0
Futures = ℕ → FutureState

-- if not future.done(): future.set_result(…), future.set_exception(…) or future.cancel()
unfoldable pub settle : ℕ → FutureState → Futures → Futures
settle f x all g = if g == f then (if done (all f) then all f else x) else all g
