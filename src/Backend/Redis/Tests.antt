-- ===== src/Backend/Redis/Tests.antt =====
-- The theorems on proxy_hopper_redis/backend.py at a server with one target.
use proxy_hopper_v.Common.{
  ◌≡◌, refl, none, some, true, false, List, [], ◌∷◌, Text, ok, text_eq, if◌then◌else◌, bit,
  text_eq_refl, lookup,
}
use proxy_hopper_v.Backend.{Done, Claims, View, empty_view, quarantined, swept, is_some}
use proxy_hopper_v.Backend.Memory
use proxy_hopper_v.Backend.Memory.{Memory}
use proxy_hopper_v.Backend.Memory.Stored
use proxy_hopper_v.Backend.Memory.Claiming
use proxy_hopper_v.Backend.Memory.Promises.{memory, memory_contract, new-IsValid}
use proxy_hopper_v.Backend.Agreement.{
  Call, push, pop, increment, add, pop_expired, list, calls, Agreed,
}
use proxy_hopper_v.Backend.Redis.{
  init_target, init_key, quarantine_add, quarantine_pop_expired, pool_key,
}
use proxy_hopper_v.Backend.Redis.Commands.{as_list, list_item}
use proxy_hopper_v.Backend.Redis.Server.{Held, client}
use proxy_hopper_v.Backend.Redis.Server.Laws.{client-IsDocumented}
use proxy_hopper_v.Backend.Redis.Stored.{view, unclaimed_view, IsValid, at}
use proxy_hopper_v.Backend.Redis.Laws.{init_target-Done_first, quarantine_add-Done}
use proxy_hopper_v.Backend.Redis.Expiry.{quarantine_pop_expired-Done_scan}
use proxy_hopper_v.Backend.Redis.Promises.{redis_backend, redis_contract, redis_backend-Agreed}
use proxy_hopper_v.Backend.Redis.Race.{scan, next, Conserved, make_moves, make_moves-claims}
use proxy_hopper_v.Backend.Redis.Lapse.{start-lapsed}
use proxy_hopper_v.Backend.Redis.Samples.{
  empty_server, empty_server-IsValid, config_name, nothing_held, server_backend,
}
use proxy_hopper_v.Pool.{IpPool, start}
use proxy_hopper_v.Samples.{config, ips, ip1, ip2, nothing_stored}

-- Both backends after `init_target`.
abbrev initialised : Memory
initialised = (Memory.init_target config.name Memory.new).1

initialised-Done :
    Done Stored.view Stored.IsValid Memory.new config.name
      (Memory.init_target config.name Memory.new)
      true
      empty_view
initialised-Done =
    Memory.Claiming.init_target-Done_first Memory.new config.name new-IsValid nothing_stored

abbrev claimed_server : Held
claimed_server = (init_target client config.name empty_server).1

claimed_server-Done :
    Done
      (view client client-IsDocumented)
      (IsValid client client-IsDocumented)
      empty_server
      config.name
      (init_target client config.name empty_server)
      true
      empty_view
claimed_server-Done =
    init_target-Done_first client client-IsDocumented empty_server config.name config_name
      empty_server-IsValid nothing_held

nothing_new : (u : Text) → Stored.view Memory.new u ≡ none
unfolding Stored.view lookup
nothing_new u = refl

same_views :
    (u : Text) → Stored.view initialised u ≡ view client client-IsDocumented claimed_server u
same_views u =
    rw
      (
        initialised-Done.views u,
        claimed_server-Done.views u,
        nothing_new u,
        unclaimed_view client client-IsDocumented empty_server u refl,
      )
      refl

abbrev history : List (Text × Call)
history =
    (config.name, push ip1)
    ∷ (config.name, increment ip1)
    ∷ (config.name, add ip2 5)
    ∷ (config.name, pop_expired 7)
    ∷ (config.name, pop 3)
    ∷ (config.name, list)
    ∷ []

there : (v : View) × (Stored.view initialised config.name ≡ some v)
there = (empty_view, rw (initialised-Done.views config.name, text_eq_refl config.name) refl)

redis_backend-Agreed_example :
    Agreed memory memory_contract
      (redis_backend client)
      (redis_contract client client-IsDocumented)
      (calls memory history initialised)
      (calls (redis_backend client) history claimed_server)
    × ((init_target client config.name (
          client.lapse
            (init_key config.name)
            (calls (redis_backend client) history claimed_server).1)).0
        ≡ ok true)
redis_backend-Agreed_example =
    redis_backend-Agreed client client-IsDocumented history initialised claimed_server config.name
      initialised-Done.valid claimed_server-Done.valid same_views
      (there, (there, (there, (there, (there, (there, tt))))))

-- The server with one address in quarantine.
abbrev holding : Held
holding = (quarantine_add client config.name ip1 5 claimed_server).1

claimed_view : view client client-IsDocumented claimed_server config.name ≡ some empty_view
claimed_view = rw (claimed_server-Done.views config.name, text_eq_refl config.name) refl

abbrev held_view : View
held_view = quarantined ip1 5 empty_view

holding-Done :
    Done
      (view client client-IsDocumented)
      (IsValid client client-IsDocumented)
      claimed_server
      config.name
      (quarantine_add client config.name ip1 5 claimed_server)
      tt
      held_view
holding-Done =
    quarantine_add-Done client client-IsDocumented claimed_server config.name empty_view
      claimed_server-Done.valid claimed_view ip1 5

holding_view : view client client-IsDocumented holding config.name ≡ some held_view
holding_view = rw (holding-Done.views config.name, text_eq_refl config.name) refl

quarantine_pop_expired-Done_scan_example :
    (xs : List Text) × Claims 7 held_view xs
    × Done
        (view client client-IsDocumented)
        (IsValid client client-IsDocumented)
        holding
        config.name
        (quarantine_pop_expired client config.name 7 holding)
        xs
        (swept 7 held_view)
quarantine_pop_expired-Done_scan_example =
    quarantine_pop_expired-Done_scan client client-IsDocumented config.name holding 7 held_view
      holding-Done.valid holding_view

make_moves-claims_example :
    Conserved client client-IsDocumented config.name
      (λ a. bit (is_some (held_view.release a)))
      (make_moves client config.name (scan 7 ∷ scan 7 ∷ next 1 ∷ next 0 ∷ []) [] holding)
make_moves-claims_example =
    make_moves-claims client client-IsDocumented config.name
      (scan 7 ∷ scan 7 ∷ next 1 ∷ next 0 ∷ []) holding held_view.release
      (at client client-IsDocumented holding config.name held_view holding-Done.valid
        holding_view).slots.scores

-- A pool whose key has expired: its queue alone is there.
abbrev lapsed : IpPool server_backend
lapsed = record {
  store = λ k. if text_eq k (pool_key config.name) then some (list_item (ip1 ∷ [])) else none;
  cooling = [];
  running = false;
}

start-lapsed_example :
    let out = start server_backend config ips lapsed in
    (out.0 ≡ ok tt) × (as_list (out.1.store (pool_key config.name)) ≡ some (ip1 ∷ ips))
unfolding text_eq
start-lapsed_example =
    start-lapsed client client-IsDocumented config ips lapsed (ip1 ∷ []) config_name refl refl
