-- ===== src/Backend/Memory/Promises.antt =====
-- backend/memory.py as an implementation of the abstract class of backend/base.py.
use proxy_hopper_v.Common.{inl, refl, lookup}
use proxy_hopper_v.Backend.{Backend, Contract}
use proxy_hopper_v.Backend.Memory.{
  Memory, new, member, init_target, push_ip, pop_ip, pool_size, increment_failures, reset_failures,
  get_failures, quarantine_add, quarantine_pop_expired, quarantine_list,
}
use proxy_hopper_v.Backend.Memory.Stored.{view, IsValid}
use proxy_hopper_v.Backend.Memory.Claiming.{init_target-Done_first}
use proxy_hopper_v.Backend.Memory.Laws.{
  init_target-Done_again, pop_ip-Done_late, push_ip-Done, pop_ip-Done_empty, pop_ip-Done_next,
  pool_size-Done, increment_failures-Done, reset_failures-Done, get_failures-Done,
  quarantine_add-Done, quarantine_pop_expired-Done, quarantine_list-Done,
}

-- No target is initialised in a new store.
pub new-IsValid : IsValid new
unfolding member lookup
new-IsValid = record {
  pools = λ t. refl;
  failures = λ t. refl;
  quarantine = λ t. refl;
  unique = λ t d e. cc;
}

abbrev pub memory : Backend
memory = record {
  Store = Memory;
  init_target = init_target;
  push_ip = push_ip;
  pop_ip = pop_ip;
  pool_size = pool_size;
  increment_failures = increment_failures;
  reset_failures = reset_failures;
  get_failures = get_failures;
  quarantine_add = quarantine_add;
  quarantine_pop_expired = quarantine_pop_expired;
  quarantine_list = quarantine_list;
}

-- The in-process backend keeps every promise of the abstract class.
abbrev pub memory_contract : Contract memory
memory_contract = record {
  view = view;
  IsValid = IsValid;
  IsName = λ t. Unit;
  init_first = λ s t n. init_target-Done_first s t;
  init_again = init_target-Done_again;
  push = λ s t a v h e. push_ip-Done s t v h e a;
  pop_empty = λ s t timeout v h e q. pop_ip-Done_empty s t v h e timeout q;
  pop_next = λ s t timeout v a rest h e q p. pop_ip-Done_next s t v h e timeout a rest q p;
  pop_late = λ s t v a rest h e q. inl (pop_ip-Done_late s t v h e);
  size = pool_size-Done;
  increment = λ s t a v h e. increment_failures-Done s t v h e a;
  reset = λ s t a v h e. reset_failures-Done s t v h e a;
  failures = λ s t a v h e. get_failures-Done s t v h e a;
  add = λ s t a r v h e. quarantine_add-Done s t v h e a r;
  pop_expired = λ s t now v h e. quarantine_pop_expired-Done s t v h e now;
  list = quarantine_list-Done;
}
