-- ===== src/Config/Addresses.antt =====
-- Addresses of config.py, and their way back to a host and a port.
use proxy_hopper_v.Common.{◌≡◌, refl, map, List, [], ◌∷◌, Text, ok}
use proxy_hopper_v.Strings.Ints.{ℤ, show_int}
use proxy_hopper_v.Strings.Laws.{
  has-append_sep, parse_int-show_int, has-show_int, rpartition-append,
}
use proxy_hopper_v.Config.{TargetConfig, resolve, resolve_all, resolved_ip_list, address}
use proxy_hopper_v.Pool.{addresses_of}

resolve-address : (default : ℤ) (hp : Text × ℤ) → resolve default (address hp) ≡ ok hp
unfolding resolve address
resolve-address default (host, port) = rw (
  has-append_sep b':' host (show_int port),
  rpartition-append b':' host (show_int port) (has-show_int port),
  parse_int-show_int port,
)

resolve_all-address :
    (default : ℤ) (hps : List (Text × ℤ)) → resolve_all default (map address hps) ≡ ok hps
unfolding resolve_all
resolve_all-address default [] = refl
resolve_all-address default (hp ∷ hps) =
    rw (resolve-address default hp, resolve_all-address default hps)

-- Entries of the form host:port that are printed from hosts and ports are read as those, in their
-- order, whatever the host, colons included; so are the addresses of the pool those of the
-- configuration, unchanged.
pub addresses_of-address :
    (config : TargetConfig) (hps : List (Text × ℤ))
    → config.ip_list ≡ map address hps
    → (resolved_ip_list config ≡ ok hps) × (addresses_of config ≡ ok config.ip_list)
unfolding resolved_ip_list addresses_of
addresses_of-address config hps e =
    rw (e, resolve_all-address config.default_proxy_port hps) (refl, refl)
