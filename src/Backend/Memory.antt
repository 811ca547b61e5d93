-- ===== src/Backend/Memory.antt =====
-- backend/memory.py: the class `MemoryIPPoolBackend`. The queue of a target is the list of what
-- `asyncio.Queue` holds, the next item first; a missing target raises KeyError.
pub mod Expiry
pub mod Stored
pub mod Laws
pub mod Claiming
pub mod Promises
mod Tests
use proxy_hopper_v.Common.{
  ℕ, ◌+◌, ◌≡◌, Bool, true, false, Option, none, some, List, [], ◌∷◌, ◌++◌, arith, leb, ◌==◌,
  if◌then◌else◌, Text, text_eq, length, Dict, lookup, insert, delete_all, keys, Error, key_error,
  Result, ok, err, Exec, pure, raise, ◌>>=◌,
}

pub record Memory : Type 0 where
  pub pools : Dict (List Text)
  pub failures : Dict (Dict ℕ)
  pub quarantine : Dict (Dict ℕ)
  pub initialised : List Text

-- __init__
abbrev pub new : Memory
new = record { pools = []; failures = []; quarantine = []; initialised = [] }

-- target in self._initialised
unfoldable pub member : Text → List Text → Bool
member t [] = false
member t (x ∷ xs) = if text_eq t x then true else member t xs

-- `d[key]`, which raises KeyError
abbrev pub at : {V : Type 0} → Text → Dict V → Result V
at k d = elim (lookup k d) [ none ↦ err (key_error k) | some v ↦ ok v ]

unfoldable pub reads : {V : Type 0} → (Memory → Dict V) → Text → Exec Memory V
reads field t s = (at t (field s), s)

pub reads_found :
    {V : Type 0} (field : Memory → Dict V) (t : Text) (s : Memory) {v : V}
    → lookup t (field s) ≡ some v
    → reads field t s ≡ (ok v, s)
unfolding reads
reads_found field t s h = ground arith

pub reads_missing :
    {V : Type 0} (field : Memory → Dict V) (t : Text) (s : Memory)
    → lookup t (field s) ≡ none
    → reads field t s ≡ (err (key_error t), s)
unfolding reads
reads_missing field t s h = ground arith

unfoldable pub init_target : Text → Exec Memory Bool
init_target target s = if member target s.initialised then (ok false, s) else (
  ok true,
  record {
    pools = insert target [] s.pools;
    failures = insert target [] s.failures;
    quarantine = insert target [] s.quarantine;
    initialised = target ∷ s.initialised;
  },
)

unfoldable pub push_ip : Text → Text → Exec Memory (Unit {0})
push_ip target address = do
  pool ← reads (λ s. s.pools) target
  λ s. (ok tt, record s { pools = insert target (pool ++ address ∷ []) s.pools })

-- The store is the one at the moment at which the wait ends. `asyncio.wait_for` with no time left
-- cancels the read before it starts.
unfoldable pub pop_ip : Text → ℕ → Exec Memory (Option Text)
pop_ip target timeout = do
  pool ← reads (λ s. s.pools) target
  λ s. elim pool [
    | [] ↦ (ok none, s)
    | address ∷ rest ↦
        if timeout == 0
        then (ok none, s)
        else (ok (some address), record s { pools = insert target rest s.pools })
  ]

unfoldable pub pool_size : Text → Exec Memory ℕ
pool_size target = do pool ← reads (λ s. s.pools) target; pure (length pool)

abbrev pub or_zero : Option ℕ → ℕ
or_zero none = 0
or_zero (some n) = n

unfoldable pub increment_failures : Text → Text → Exec Memory ℕ
increment_failures target address = do
  counts ← reads (λ s. s.failures) target
  λ s. (
    ok (or_zero (lookup address counts) + 1),
    record s {
      failures =
          insert target (insert address (or_zero (lookup address counts) + 1) counts) s.failures;
    },
  )

unfoldable pub reset_failures : Text → Text → Exec Memory (Unit {0})
reset_failures target address = do
  counts ← reads (λ s. s.failures) target
  λ s. (ok tt, record s { failures = insert target (insert address 0 counts) s.failures })

unfoldable pub get_failures : Text → Text → Exec Memory ℕ
get_failures target address = do
  counts ← reads (λ s. s.failures) target
  pure (or_zero (lookup address counts))

unfoldable pub quarantine_add : Text → Text → ℕ → Exec Memory (Unit {0})
quarantine_add target address release_at = do
  held ← reads (λ s. s.quarantine) target
  λ s.
      (ok tt, record s { quarantine = insert target (insert address release_at held) s.quarantine })

-- The comprehension over `.items()`.
unfoldable pub expired : ℕ → Dict ℕ → List Text
expired now [] = []
expired now ((a, release_at) ∷ d) =
    let rest = expired now d in if leb release_at now then a ∷ rest else rest

unfoldable pub quarantine_pop_expired : Text → ℕ → Exec Memory (List Text)
quarantine_pop_expired target now = do
  held ← reads (λ s. s.quarantine) target
  λ s. (
    ok (expired now held),
    record s { quarantine = insert target (delete_all (expired now held) held) s.quarantine },
  )

unfoldable pub quarantine_list : Text → Exec Memory (List Text)
quarantine_list target = do held ← reads (λ s. s.quarantine) target; pure (keys held)
