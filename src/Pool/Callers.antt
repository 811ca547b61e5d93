-- ===== src/Pool/Callers.antt =====
-- The callers of pool.py, its sleeping tasks and its sweep task in any order: the two managers of
-- requests and of CONNECT tunnels take addresses by `acquire`, hold them, and record them.
pub mod Following
use proxy_hopper_v.Common.{
  ℕ, suc, ◌+◌, Option, none, some, List, [], ◌∷◌, ◌++◌, Text, Result, ok, err,
}
use proxy_hopper_v.Config.{TargetConfig}
use proxy_hopper_v.Backend.{Backend, update}
use proxy_hopper_v.Pool.{
  IpPool, extract, acquire, record_success, record_failure, return_after_cooldown, sweep_quarantine,
}

pub record Callers (b : Backend) : Type 0 where
  pub pool : IpPool b
  -- the addresses that callers hold and have not recorded yet
  pub leased : List Text
  pub clock : ℕ
  -- the time of the last record of an address with the interval added, 0 if there is none
  pub ready_at : Text → ℕ

pub data Call : Type 0 where
  -- The timeout is one more than the number, in milliseconds; a timeout of 0 is not covered.
  acquires : ℕ → Call
  -- the caller that holds the `i`-th of the addresses
  succeeds fails : ℕ → Call
  -- the `i`-th sleeping task
  wakes : ℕ → Call
  sweeps : Call

module _ (b : Backend) (config : TargetConfig) where
  -- The caller of `acquire` holds what it gets.
  abbrev pub lease : Result (Option Text) × IpPool b → Callers b → Callers b
  lease (ok (some a), p) s = record s { pool = p; leased = s.leased ++ a ∷ [] }
  lease (_, p) s = record s { pool = p }

  -- A caller records the address that it holds, and holds it no more.
  abbrev pub settle_lease :
      (ℕ → Text → IpPool b → Result (Unit {0}) × IpPool b)
      → Option (Text × List Text)
      → Callers b
      → Callers b
  settle_lease f none s = s
  settle_lease f (some (a, rest)) s = record s {
    pool = (f s.clock a s.pool).1;
    leased = rest;
    ready_at = update s.ready_at a (s.clock + config.min_request_interval);
  }

  abbrev pub later : ℕ → Callers b → Callers b
  later elapsed s = record s { clock = s.clock + elapsed }

  abbrev pub call_now : Call → Callers b → Callers b
  call_now (acquires t) s = lease (acquire b config (suc t) s.pool) s
  call_now (succeeds i) s = settle_lease (record_success b config) (extract i s.leased) s
  call_now (fails i) s = settle_lease (record_failure b config) (extract i s.leased) s
  call_now (wakes i) s = record s { pool = (return_after_cooldown b config s.clock i s.pool).1 }
  call_now sweeps s = record s { pool = (sweep_quarantine b config s.clock s.pool).1 }

  -- The calls, each with the time since the one before.
  abbrev pub call_all : List (ℕ × Call) → Callers b → Callers b
  call_all [] s = s
  call_all ((elapsed, k) ∷ rest) s = call_all rest (call_now k (later elapsed s))

-- Nobody has called yet.
abbrev pub fresh : {b : Backend} → IpPool b → Callers b
fresh pool = record { pool = pool; leased = []; clock = 0; ready_at = λ a. 0 }
