-- ===== src/Server/Lifecycle/Closing.antt =====
-- What `stop` of `ProxyServer` in server.py leaves.
use proxy_hopper_v.Common.{◌≡◌, refl, Bool, true, false, none, List, [], ◌∷◌, ℕ, All, Result, ok}
use proxy_hopper_v.Backend.{Backend}
use proxy_hopper_v.Pool
use proxy_hopper_v.TargetManager
use proxy_hopper_v.TargetManager.{TargetManager, take_request, end_wait}
use proxy_hopper_v.Server.Lifecycle.{
  Managed, ProxyServer, with_store, stop_manager, for_each, if_listening, stop,
}

module _ (b : Backend) where
  -- The manager and its pool do not run, and the turns of the dispatcher change nothing any more.
  pub record IsStopped (m : Managed b) : Type 0 where
    pub running : m.manager.running ≡ false
    pub pool_running : m.manager.pool.running ≡ false
    pub takes : (now later : ℕ) → (take_request b now later m.manager).1 ≡ m.manager
    pub waits : (end_wait b m.config m.manager).1 ≡ m.manager

  abbrev after_stop : b.Store → Managed b → TargetManager b
  after_stop st m = record m.manager {
    pool = record m.manager.pool { store = st; running = false };
    running = false;
    waiting = none;
  }

  stop_manager_lem :
      (st : b.Store) (m : Managed b)
      → stop_manager b m (with_store b st m.manager) ≡ (ok tt, after_stop st m)
  unfolding TargetManager.stop Pool.stop
  stop_manager_lem st m = refl

  after_stop-IsStopped :
      (st : b.Store) (m : Managed b) → IsStopped (record m { manager = after_stop st m })
  unfolding take_request end_wait
  after_stop-IsStopped st m = record {
    running = refl;
    pool_running = refl;
    takes = λ now later. refl;
    waits = refl;
  }

  -- What a manager keeps in a stop.
  pub record Kept (m m' : Managed b) : Type 0 where
    pub config : m'.config ≡ m.config
    pub queue : m'.manager.request_queue ≡ m.manager.request_queue
    pub flights : m'.manager.in_flight ≡ m.manager.in_flight
    pub cooling : m'.manager.pool.cooling ≡ m.manager.pool.cooling
    pub futures : m'.manager.futures ≡ m.manager.futures

  abbrev pub AllKept : List (Managed b) → List (Managed b) → Type 0
  AllKept [] [] = Unit
  AllKept [] (m ∷ ms) = ⊥
  AllKept (m ∷ ms) [] = ⊥
  AllKept (m ∷ ms) (m' ∷ ms') = Kept m m' × AllKept ms ms'

  abbrev Out : Type 0
  Out = Result (Unit {0}) × List (Managed b) × b.Store

  record Closed (st : b.Store) (ms : List (Managed b)) (out : Out) : Type 0 where
    returned : out.0 ≡ ok tt
    stopped : All IsStopped out.1
    kept : AllKept ms out.1
    store : out.2 ≡ st

  for_each-Closed :
      (ms : List (Managed b)) (st : b.Store) → Closed st ms (for_each b (stop_manager b) ms st)
  unfolding for_each
  for_each-Closed [] st = record { returned = refl; stopped = tt; kept = tt; store = refl }
  for_each-Closed (m ∷ ms) st =
      let more = for_each-Closed ms st in
      rw (stop_manager_lem st m) (record {
        returned = more.returned;
        stopped = (after_stop-IsStopped st m, more.stopped);
        kept = (
          record { config = refl; queue = refl; flights = refl; cooling = refl; futures = refl },
          more.kept,
        );
        store = more.store;
      })

  if_listening_lem : (l : Bool) → if_listening l (ok tt) ≡ ok tt
  if_listening_lem true = refl
  if_listening_lem false = refl

  -- `stop` of a server whose socket closes without an exception: no manager and no pool runs any
  -- more, so no further request is taken from a queue and none that waits gets an address; the store,
  -- the queues, the flights, the sleeping tasks and the futures are as they were.
  pub stop-IsStopped :
      (s : ProxyServer b)
      → let out = stop b (ok tt) s in
        (out.0 ≡ ok tt)
        × All IsStopped out.1.managers
        × AllKept s.managers out.1.managers
        × (out.1.store ≡ s.store)
  unfolding stop
  stop-IsStopped s =
      let k = for_each-Closed s.managers s.store in
      rw (stop, if_listening_lem s.listening) (k.returned, k.stopped, k.kept, k.store)
