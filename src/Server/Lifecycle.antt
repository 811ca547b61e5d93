-- ===== src/Server/Lifecycle.antt =====
-- The life of `ProxyServer` in server.py: its managers share the store of one backend.
pub mod Opening
pub mod Closing
use proxy_hopper_v.Common.{
  Bool, true, false, List, [], ◌∷◌, Text, Error, Result, ok, err, Exec, pure, ◌>>=◌, ◌>>◌,
}
use proxy_hopper_v.Config.{TargetConfig}
use proxy_hopper_v.Backend.{Backend}
use proxy_hopper_v.Pool
use proxy_hopper_v.TargetManager
use proxy_hopper_v.TargetManager.{TargetManager}

-- A manager with what its `__init__` made of the configuration.
pub record Managed (b : Backend) : Type 0 where
  pub config : TargetConfig
  pub addresses : List Text
  pub manager : TargetManager b

pub record ProxyServer (b : Backend) : Type 0 where
  -- the store of the backend of all managers
  pub store : b.Store
  pub managers : List (Managed b)
  -- self._server is set
  pub listening : Bool

abbrev pub if_listening : Bool → Result (Unit {0}) → Result (Unit {0})
if_listening true r = r
if_listening false r = ok tt

module _ (b : Backend) where
  -- The manager sees what the others did to the store.
  abbrev pub with_store : b.Store → TargetManager b → TargetManager b
  with_store st m = record m { pool = record m.pool { store = st } }

  -- A method of every manager, one after the other; an exception ends the loop.
  abbrev pub Step : Type 0
  Step = Managed b → Exec (TargetManager b) (Unit {0})

  abbrev pub replaced : Managed b → TargetManager b → Managed b
  replaced m t = record m { manager = t }

  abbrev pub rest_of :
      Managed b
      → Result (Unit {0}) × List (Managed b) × b.Store
      → Result (Unit {0}) × List (Managed b) × b.Store
  rest_of m (r, ms, st) = (r, m ∷ ms, st)

  abbrev pub after_one :
      (b.Store → Result (Unit {0}) × List (Managed b) × b.Store)
      → Managed b
      → List (Managed b)
      → Result (Unit {0}) × TargetManager b
      → Result (Unit {0}) × List (Managed b) × b.Store
  after_one more m ms (err e, t) = (err e, replaced m t ∷ ms, t.pool.store)
  after_one more m ms (ok x, t) = rest_of (replaced m t) (more t.pool.store)

  unfoldable pub for_each :
      Step → List (Managed b) → b.Store → Result (Unit {0}) × List (Managed b) × b.Store
  for_each step [] st = (ok tt, [], st)
  for_each step (m ∷ ms) st = after_one (for_each step ms) m ms (step m (with_store st m.manager))

  abbrev pub start_manager : Step
  start_manager m = TargetManager.start b m.config m.addresses

  abbrev pub stop_manager : Step
  stop_manager m = TargetManager.stop b m.config

  abbrev pub opened :
      Result (Unit {0})
      → Result (Unit {0}) × List (Managed b) × b.Store
      → Result (Unit {0}) × ProxyServer b
  opened listen (err e, ms, st) = (err e, record { store = st; managers = ms; listening = false })
  opened (err e) (ok x, ms, st) = (err e, record { store = st; managers = ms; listening = false })
  opened (ok x) (ok y, ms, st) = (ok tt, record { store = st; managers = ms; listening = true })

  -- `listen` is the result of `asyncio.start_server`.
  unfoldable pub start : Result (Unit {0}) → Exec (ProxyServer b) (Unit {0})
  unfolding for_each
  start listen s = opened listen (for_each start_manager s.managers s.store)

  abbrev pub closed :
      ProxyServer b
      → Result (Unit {0}) × List (Managed b) × b.Store
      → Result (Unit {0}) × ProxyServer b
  closed s (r, ms, st) = (r, record s { store = st; managers = ms })

  -- `close` is the result of `wait_closed`, which is not called before the server listens.
  unfoldable pub stop : Result (Unit {0}) → Exec (ProxyServer b) (Unit {0})
  unfolding for_each
  stop close s = elim (if_listening s.listening close) [
    | err e ↦ (err e, s)
    | ok x ↦ closed s (for_each stop_manager s.managers s.store)
  ]
