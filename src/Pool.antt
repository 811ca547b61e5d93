-- ===== src/Pool.antt =====
-- pool.py: the class `IPPool`, over any backend. A method runs to its end in one step, at the time
-- `now` of its clock; a task of `_return_after_cooldown` that still sleeps is an entry of `cooling`.
pub mod Rotation
pub mod Refinement
pub mod Steps
pub mod Callers
pub mod Tests
use proxy_hopper_v.Common.{
  ℕ, zero, suc, ◌+◌, Bool, true, false, Option, none, some, List, [], ◌∷◌, ◌++◌, map, leb,
  if◌then◌else◌, Text, Result, ok, err, Exec, pure, ◌>>=◌, ◌>>◌,
}
use proxy_hopper_v.Strings.Ints.{ℤ}
use proxy_hopper_v.Config.{TargetConfig, resolved_ip_list, address}
use proxy_hopper_v.Backend.{Backend}

-- A sleeping task of `_return_after_cooldown`: its address, and when the sleep ends.
pub record Cooldown : Type 0 where
  pub address : Text
  pub due : ℕ

pub record IpPool (b : Backend) : Type 0 where
  -- self._backend, which the pools of all targets share
  pub store : b.Store
  pub cooling : List Cooldown
  -- self._running, with the sweep task
  pub running : Bool

pub record Status : Type 0 where
  pub name : Text
  pub available_ips : ℕ
  pub quarantined_ips : List Text

-- The `i`-th entry of a list and the others, if it is there.
unfoldable pub extract {ℓ} : {A : Type ℓ} → ℕ → List A → Option (A × List A)
extract i [] = none
extract zero (x ∷ xs) = some (x, xs)
extract (suc i) (x ∷ xs) = elim (extract i xs) [ none ↦ none | some (y, ys) ↦ some (y, x ∷ ys) ]

module _ (b : Backend) where
  -- A call of a method of the backend.
  abbrev pub on_store : {A : Type 0} → Exec b.Store A → Exec (IpPool b) A
  on_store m p = ((m p.store).0, record p { store = (m p.store).1 })

  -- asyncio.create_task(self._return_after_cooldown(address, delay))
  abbrev pub create_cooldown : Text → ℕ → Exec (IpPool b) (Unit {0})
  create_cooldown a due p =
      (ok tt, record p { cooling = p.cooling ++ (record { address = a; due = due }) ∷ [] })

abbrev pub texts_of : Result (List (Text × ℤ)) → Result (List Text)
texts_of (err e) = err e
texts_of (ok hps) = ok (map address hps)

-- self._addresses, of `__init__`
unfoldable pub addresses_of : TargetConfig → Result (List Text)
addresses_of config = texts_of (resolved_ip_list config)

-- __init__ with the shared backend
abbrev pub new : (b : Backend) → b.Store → IpPool b
new b store = record { store = store; cooling = []; running = false }

module _ (b : Backend) (config : TargetConfig) where
  -- the loop of `start`
  unfoldable pub seed : List Text → Exec (IpPool b) (Unit {0})
  seed [] p = (ok tt, p)
  seed (a ∷ as') p =
      let rest = λ (_ : Unit {0}). seed as' in (on_store b (b.push_ip config.name a) >>= rest) p

  -- The addresses are those that `__init__` makes of the configuration.
  unfoldable pub start : List Text → Exec (IpPool b) (Unit {0})
  unfolding seed
  start addresses = do
    first ← on_store b (b.init_target config.name)
    (if first then seed addresses else pure tt)
    λ p. (ok tt, record p { running = true })

  -- Sleeping tasks of `_return_after_cooldown` go on.
  unfoldable pub stop : Exec (IpPool b) (Unit {0})
  stop p = (ok tt, record p { running = false })

  unfoldable pub acquire : ℕ → Exec (IpPool b) (Option Text)
  acquire timeout = on_store b (b.pop_ip config.name timeout)

  unfoldable pub record_success : ℕ → Text → Exec (IpPool b) (Unit {0})
  record_success now a = do
    on_store b (b.reset_failures config.name a)
    create_cooldown b a (now + config.min_request_interval)

  unfoldable pub record_failure : ℕ → Text → Exec (IpPool b) (Unit {0})
  record_failure now a = do
    failures ← on_store b (b.increment_failures config.name a)
    if leb config.ip_failures_until_quarantine failures
        then on_store b (b.quarantine_add config.name a (now + config.quarantine_time))
        else create_cooldown b a (now + config.min_request_interval)

  unfoldable pub get_status : Exec (IpPool b) Status
  get_status = do
    available ← on_store b (b.pool_size config.name)
    held ← on_store b (b.quarantine_list config.name)
    pure (record { name = config.name; available_ips = available; quarantined_ips = held })

  -- What `_return_after_cooldown` does once its sleep is over, for a task and the others.
  unfoldable pub finish_cooldown :
      ℕ → Option (Cooldown × List Cooldown) → Exec (IpPool b) (Unit {0})
  finish_cooldown now none p = (ok tt, p)
  finish_cooldown now (some (c, rest)) p =
      if leb c.due now
      then on_store b (b.push_ip config.name c.address) (record p { cooling = rest })
      else (ok tt, p)

  -- The `i`-th sleeping task gets its turn.
  unfoldable pub return_after_cooldown : ℕ → ℕ → Exec (IpPool b) (Unit {0})
  unfolding finish_cooldown
  return_after_cooldown now i p = finish_cooldown now (extract i p.cooling) p

  -- the body of the loop of `_sweep_quarantine`
  unfoldable pub release : Text → Exec (IpPool b) (Unit {0})
  release a = do on_store b (b.reset_failures config.name a); on_store b (b.push_ip config.name a)

  unfoldable pub release_all : List Text → Exec (IpPool b) (Unit {0})
  unfolding release
  release_all [] p = (ok tt, p)
  release_all (a ∷ as') p = let rest = λ (_ : Unit {0}). release_all as' in (release a >>= rest) p

  -- A round of `_quarantine_sweep_loop` after its sleep.
  unfoldable pub sweep_quarantine : ℕ → Exec (IpPool b) (Unit {0})
  unfolding release_all
  sweep_quarantine now = do
    expired ← on_store b (b.quarantine_pop_expired config.name now)
    release_all expired
