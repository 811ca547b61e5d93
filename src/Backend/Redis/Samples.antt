-- ===== src/Backend/Redis/Samples.antt =====
-- The sample pool of Samples over the server of Backend/Redis/Server.
use proxy_hopper_v.Common.{◌≡◌, refl, none}
use proxy_hopper_v.Strings.{has}
use proxy_hopper_v.Backend.{Backend, Contract, empty_view}
use proxy_hopper_v.Pool
use proxy_hopper_v.Pool.{IpPool}
use proxy_hopper_v.Pool.Refinement.{Shows}
use proxy_hopper_v.Pool.Refinement.Start.{start-Ran_first}
use proxy_hopper_v.Samples.{config, ips, rotation}
use proxy_hopper_v.Backend.Redis.Server.{Held, client}
use proxy_hopper_v.Backend.Redis.Server.Laws.{client-IsDocumented}
use proxy_hopper_v.Backend.Redis.Keys.{IsName}
use proxy_hopper_v.Backend.Redis.Stored.{view, unclaimed_view, IsValid}
use proxy_hopper_v.Backend.Redis.Promises.{redis_backend, redis_contract}

abbrev pub empty_server : Held
empty_server = λ k. none

pub empty_server-IsValid : IsValid client client-IsDocumented empty_server
empty_server-IsValid t n =
    (empty_view, record { pool = refl; counts = λ a. refl; scores = refl }, λ e. refl)

pub config_name : IsName config.name
unfolding has
config_name = refl

pub nothing_held : view client client-IsDocumented empty_server config.name ≡ none
nothing_held = unclaimed_view client client-IsDocumented empty_server config.name refl

abbrev pub server_backend : Backend
server_backend = redis_backend client

abbrev pub server_contract : Contract server_backend
server_contract = redis_contract client client-IsDocumented

abbrev pub server_pool : IpPool server_backend
server_pool = (Pool.start server_backend config ips (Pool.new server_backend empty_server)).1

pub server_pool-Shows : Shows server_backend server_contract config server_pool rotation
server_pool-Shows =
    (start-Ran_first server_backend server_contract config ips
      (Pool.new server_backend empty_server) config_name empty_server-IsValid nothing_held).1
