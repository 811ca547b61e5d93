-- ===== src/Samples.antt =====
-- A small configuration over the in-process backend, for the tests of several parts.
use proxy_hopper_v.Common.{
  ℕ, ◌≡◌, ◌≢◌, refl, List, [], ◌∷◌, none, arith, Text, codes, count, text_eq, text_eq_iff, IsNodup,
  lookup, false, true,
}
use proxy_hopper_v.Strings.Ints.{pos}
use proxy_hopper_v.Config.{TargetConfig}
use proxy_hopper_v.Backend.Memory.{Memory}
use proxy_hopper_v.Backend.Memory
use proxy_hopper_v.Backend.Memory.Stored.{view}
use proxy_hopper_v.Backend.Memory.Promises.{memory, memory_contract, new-IsValid}
use proxy_hopper_v.Models.{PendingRequest, ProxyResponse, pending}
use proxy_hopper_v.Pool.{IpPool}
use proxy_hopper_v.Pool
use proxy_hopper_v.Pool.Rotation.{Rotation}
use proxy_hopper_v.Pool.Refinement.{Shows}
use proxy_hopper_v.Pool.Refinement.Start.{start-Ran_first}
use proxy_hopper_v.Pool.Steps.{seeded}
use proxy_hopper_v.TargetManager.{TargetManager}
use proxy_hopper_v.TargetManager.Machine.Dispatch.{IsSound}
use proxy_hopper_v.TargetManager.Machine.Conservation.{IsStarted}

abbrev pub ip1 : Text
ip1 = codes "a:80"

abbrev pub ip2 : Text
ip2 = codes "b:80"

abbrev pub ips : List Text
ips = ip1 ∷ ip2 ∷ []

abbrev pub config : TargetConfig
config = record {
  name = codes "t";
  regex = codes ".*";
  ip_list = ips;
  min_request_interval = 1000;
  max_queue_wait = 30000;
  num_retries = 1;
  ip_failures_until_quarantine = 2;
  quarantine_time = 120000;
  default_proxy_port = pos 8080;
}

ips_differ-text_eq : text_eq ip1 ip2 ≡ false
unfolding text_eq
ips_differ-text_eq = refl

ips_differ : ip1 ≢ ip2
ips_differ = λ e. cc (ips_differ-text_eq, (text_eq_iff ip1 ip2).1 e)

pub ips-IsNodup : IsNodup ips
unfolding count
ips-IsNodup a = ground (arith, text_eq_iff a ip1, text_eq_iff a ip2, ips_differ)

-- The pool after `start`.
abbrev pub pool : IpPool memory
pool = (Pool.start memory config ips (Pool.new memory Memory.new)).1

abbrev pub rotation : Rotation
rotation = (seeded ips).rotation

pub nothing_stored : view Memory.new config.name ≡ none
unfolding view lookup
nothing_stored = refl

pub pool-Shows : Shows memory memory_contract config pool rotation
pool-Shows =
    (start-Ran_first memory memory_contract config ips (Pool.new memory Memory.new) tt new-IsValid
      nothing_stored).1

abbrev pub manager : TargetManager memory
manager = record {
  pool = pool;
  request_queue = [];
  waiting = none;
  in_flight = [];
  futures = λ f. pending;
  running = true;
  outcomes = [];
}

pub manager-IsStarted : IsStarted memory memory_contract config ips manager
manager-IsStarted = record { shows = pool-Shows; no_flight = refl; no_wait = refl; running = refl }

pub manager-IsSound : IsSound memory memory_contract config manager
manager-IsSound = record { rotation = rotation; shows = pool-Shows }

-- A client's request, for the future 7, that arrives at the time 100.
abbrev pub request : PendingRequest
request = record {
  method = codes "GET";
  url = codes "http://example.com/";
  headers = (codes "Host", codes "example.com") ∷ (codes "Connection", codes "close") ∷ [];
  body = none;
  future = 7;
  arrival_time = 100;
  max_queue_wait = 30000;
  num_retries = 1;
  failure_count = 0;
}

abbrev pub answer : ℕ → ProxyResponse
answer status = record { status = status; headers = []; body = codes "body" }
