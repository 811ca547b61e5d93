-- ===== src/Backend/Redis/Promises.antt =====
-- proxy_hopper_redis/backend.py as an implementation of the abstract class of backend/base.py.
use proxy_hopper_v.Common.{inr, ◌≡◌, refl, true, ok, codes, List, Text}
use proxy_hopper_v.Backend.{Backend, Contract}
use proxy_hopper_v.Backend.Memory.{Memory}
use proxy_hopper_v.Backend.Memory.Stored
use proxy_hopper_v.Backend.Memory.Promises.{memory, memory_contract}
use proxy_hopper_v.Backend.Agreement.{Call, calls, Known, Agreed, calls-Agreed}
use proxy_hopper_v.Backend.Redis.{
  init_key, init_target, push_ip, pop_ip, pool_size, increment_failures, reset_failures,
  get_failures, quarantine_add, quarantine_pop_expired, quarantine_list,
}
use proxy_hopper_v.Backend.Redis.Commands.{Client, IsDocumented}
use proxy_hopper_v.Backend.Redis.Keys.{IsName}
use proxy_hopper_v.Backend.Redis.Stored.{view, IsValid}
use proxy_hopper_v.Backend.Redis.Expiry.{quarantine_pop_expired-Done_scan}
use proxy_hopper_v.Backend.Redis.Laws.{
  to_count, init_target-Done_first, init_target-Done_again, push_ip-Done, pop_ip-Done_empty,
  pop_ip-Done_next, pool_size-Done, increment_failures-Done, reset_failures-Done, get_failures-Done,
  quarantine_add-Done, quarantine_list-Done,
}

-- A negative counter, which no method writes, is no result of the abstract class.
abbrev pub redis_backend : Client → Backend
redis_backend redis = record {
  Store = redis.Server;
  init_target = init_target redis;
  push_ip = push_ip redis;
  pop_ip = pop_ip redis;
  pool_size = pool_size redis;
  increment_failures = increment_failures redis;
  reset_failures = reset_failures redis;
  get_failures = λ t a s. to_count (get_failures redis t a s);
  quarantine_add = quarantine_add redis;
  quarantine_pop_expired = quarantine_pop_expired redis;
  quarantine_list = quarantine_list redis;
}

-- The Redis backend keeps every promise of the abstract class, for targets with no colon in their
-- name, if the commands do what the documentation says.
abbrev pub redis_contract : (redis : Client) → IsDocumented redis → Contract (redis_backend redis)
redis_contract redis d = record {
  view = view redis d;
  IsValid = IsValid redis d;
  IsName = IsName;
  init_first = λ s t n h e. init_target-Done_first redis d s t n h e;
  init_again = λ s t v h e. init_target-Done_again redis d s t v h e;
  push = λ s t a v h e. push_ip-Done redis d s t v h e a;
  pop_empty = λ s t timeout v h e q. pop_ip-Done_empty redis d s t v h e timeout q;
  pop_next = λ s t timeout v a rest h e q p. pop_ip-Done_next redis d s t v h e timeout a rest q;
  pop_late = λ s t v a rest h e q. inr (pop_ip-Done_next redis d s t v h e 0 a rest q);
  size = λ s t v h e. pool_size-Done redis d s t v h e;
  increment = λ s t a v h e. increment_failures-Done redis d s t v h e a;
  reset = λ s t a v h e. reset_failures-Done redis d s t v h e a;
  failures = λ s t a v h e. get_failures-Done redis d s t v h e a;
  add = λ s t a r v h e. quarantine_add-Done redis d s t v h e a r;
  pop_expired = λ s t now v h e. quarantine_pop_expired-Done_scan redis d t s now v h e;
  list = λ s t v h e. quarantine_list-Done redis d s t v h e;
}

-- Once the key that claims a target is gone, `init_target` claims the target anew.
init_target-lapsed :
    (redis : Client) (d : IsDocumented redis) (t : Text) (s : redis.Server)
    → (init_target redis t (redis.lapse (init_key t) s)).0 ≡ ok true
unfolding init_target
init_target-lapsed redis d t s =
    let gone = (d.lapse s (init_key t)).0 in
    let s1 = redis.lapse (init_key t) s in
    let (w, _) = d.setnx_new s1 (init_key t) (codes "1") gone in
    let lasting = d.expire (redis.setnx (init_key t) (codes "1") s1).1 (init_key t) 86400 in
    rw (w.returned, lasting.returned) refl

-- The in-process backend and the Redis backend, over valid stores that hold the same for every
-- target, answer any sequence of calls for initialised targets, with positive timeouts, without an
-- exception and alike, as long as no key expires by which `init_target` claimed a target, which
-- happens after 86,400 seconds: only the order of the addresses of a sweep or of the listing of the
-- quarantine may differ. Then they hold the same again. Once the key of a target has expired,
-- `init_target` of the Redis backend gives true for it, as if it were new. The commands of Redis do
-- what its documentation says.
pub redis_backend-Agreed :
    (redis : Client) (d : IsDocumented redis) (cs : List (Text × Call)) (s : Memory)
    (s' : redis.Server) (t : Text)
    → Stored.IsValid s
    → IsValid redis d s'
    → ((u : Text) → Stored.view s u ≡ view redis d s' u)
    → Known (Stored.view s) cs
    → Agreed memory memory_contract
        (redis_backend redis)
        (redis_contract redis d)
        (calls memory cs s)
        (calls (redis_backend redis) cs s')
      × ((init_target redis t (redis.lapse (init_key t) (calls (redis_backend redis) cs s').1)).0
          ≡ ok true)
redis_backend-Agreed redis d cs s s' t h h' same known = (
  calls-Agreed memory memory_contract (redis_backend redis) (redis_contract redis d) cs s s' h h'
      same known,
  init_target-lapsed redis d t (calls (redis_backend redis) cs s').1,
)
