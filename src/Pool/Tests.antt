-- ===== src/Pool/Tests.antt =====
-- The theorems on pool.py at runs of a small pool.
use proxy_hopper_v.Common.{
  ℕ, ◌+◌, ◌≤◌, ◌≡◌, refl, some, List, [], ◌∷◌, arith, true, Text, count, bit, ok, lookup, insert,
  delete, delete_all, text_eq,
}
use proxy_hopper_v.Backend.{View, Claims, swept, is_some}
use proxy_hopper_v.Backend.Memory.{Memory}
use proxy_hopper_v.Backend.Memory
use proxy_hopper_v.Backend.Memory.Promises.{memory, memory_contract}
use proxy_hopper_v.Backend.Memory.Stored.{view}
use proxy_hopper_v.Pool.{
  IpPool, extract, acquire, record_success, record_failure, return_after_cooldown, sweep_quarantine,
  start, seed, finish_cooldown, release, release_all,
}
use proxy_hopper_v.Pool.Rotation.{Rotation, succeeded, failed, released_all}
use proxy_hopper_v.Pool.Rotation.Copies.{count_cooling}
use proxy_hopper_v.Pool.Refinement.{Ran, Shows}
use proxy_hopper_v.Pool.Refinement.Methods.{
  record_success-Ran, record_failure-Ran, sweep_quarantine-Ran,
}
use proxy_hopper_v.Pool.Refinement.Start.{start-Ran_again}
use proxy_hopper_v.Pool.Callers.{
  Callers, Call, acquires, succeeds, fails, wakes, sweeps, call_all, fresh,
}
use proxy_hopper_v.Pool.Callers.Following.{call_all-conserves, acquire-ready}
use proxy_hopper_v.Samples.{config, ips, ip1, ip2, ips-IsNodup, pool, pool-Shows, rotation}

-- Both addresses are taken, one succeeds, the other fails twice and is quarantined.
abbrev calls : List (ℕ × Call)
calls =
    (0, acquires 10)
    ∷ (5, acquires 10)
    ∷ (100, succeeds 0)
    ∷ (0, fails 0)
    ∷ (1000, wakes 1)
    ∷ (0, acquires 10)
    ∷ (10, fails 0)
    ∷ (0, wakes 0)
    ∷ (5000, sweeps)
    ∷ []

abbrev after : Callers memory
after = call_all memory config calls (fresh pool)

call_all-conserves_example :
    (v : View) × (view after.pool.store config.name ≡ some v)
    × (count ip2 v.queue
          + count_cooling ip2 after.pool.cooling
          + bit (is_some (v.release ip2))
          + count ip2 after.leased
        ≡ count ip2 ips)
call_all-conserves_example =
    call_all-conserves memory memory_contract config ips pool calls ip2 ips-IsNodup pool-Shows

handed_out : (acquire memory config 11 after.pool).0 ≡ ok (some ip1)
unfolding acquire record_success record_failure return_after_cooldown sweep_quarantine start seed
    finish_cooldown release release_all extract Memory.pop_ip Memory.reads
    Memory.quarantine_pop_expired Memory.init_target Memory.member Memory.push_ip
    Memory.increment_failures Memory.reset_failures Memory.quarantine_add Memory.expired lookup
    insert delete delete_all text_eq
handed_out = refl

acquire-ready_example : after.ready_at ip1 ≤ after.clock
acquire-ready_example =
    acquire-ready memory memory_contract config ips pool calls 10 ip1 ips-IsNodup (omega arith)
      pool-Shows handed_out

record_success-Ran_example :
    Ran memory memory_contract config pool
      (record_success memory config 500 ip1 pool)
      tt
      (succeeded config 500 ip1 rotation)
record_success-Ran_example =
    record_success-Ran memory memory_contract config 500 ip1 pool rotation pool-Shows

record_failure-Ran_example :
    Ran memory memory_contract config pool
      (record_failure memory config 500 ip1 pool)
      tt
      (failed config 500 ip1 rotation)
record_failure-Ran_example =
    record_failure-Ran memory memory_contract config 500 ip1 pool rotation pool-Shows

-- A pool in which `ip1` sleeps until 1500, and the rotation it shows.
abbrev sleeping : IpPool memory
sleeping = (record_success memory config 500 ip1 pool).1

-- `ip1` fails for the second time.
abbrev pub failed_once : Rotation
failed_once = failed config 500 ip1 rotation

abbrev pub failed_twice : Rotation
failed_twice = failed config 600 ip1 failed_once

abbrev pub holding : IpPool memory
holding = (record_failure memory config 600 ip1 (record_failure memory config 500 ip1 pool).1).1

pub holding-Shows : Shows memory memory_contract config holding failed_twice
holding-Shows =
    (record_failure-Ran memory memory_contract config 600 ip1 _ failed_once
      record_failure-Ran_example.shows).shows

sweep_quarantine-Ran_example :
    (xs : List Text) × Claims 200000 failed_twice.view xs
    × Ran memory memory_contract config holding
        (sweep_quarantine memory config 200000 holding)
        tt
        (released_all xs (record failed_twice { view = swept 200000 failed_twice.view }))
sweep_quarantine-Ran_example =
    sweep_quarantine-Ran memory memory_contract config 200000 holding failed_twice holding-Shows

start-Ran_again_example :
    let out = start memory config ips pool in
    (out.0 ≡ ok tt) × Shows memory memory_contract config out.1 rotation × (out.1.running ≡ true)
start-Ran_again_example = start-Ran_again memory memory_contract config ips pool rotation pool-Shows
