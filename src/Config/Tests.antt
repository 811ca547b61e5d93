-- ===== src/Config/Tests.antt =====
-- The theorems on config.py at a small list of addresses.
use proxy_hopper_v.Common.{
  Result, ℕ, ◌*◌, Option, some, err, value_error, Dict, ◌≡◌, refl, List, [], ◌∷◌, map, Text, codes,
  ok,
}
use proxy_hopper_v.Strings.Ints.{ℤ, pos}
use proxy_hopper_v.Config.{resolved_ip_list, address}
use proxy_hopper_v.Config.Addresses.{addresses_of-address}
use proxy_hopper_v.Pool.{addresses_of}
use proxy_hopper_v.Strings.Ints.{parse_int}
use proxy_hopper_v.Config.Loading.{Value, text, resolve_pool}
use proxy_hopper_v.Config.Loading.Resolution.{Resolved, resolve_pool-Resolved}
use proxy_hopper_v.Samples.{config}

-- An IPv6 address and a name.
abbrev pairs : List (Text × ℤ)
pairs = (codes "::1", pos 3128) ∷ (codes "proxy", pos 80) ∷ []

addresses_of-address_example :
    let c = record config { ip_list = map address pairs } in
    (resolved_ip_list c ≡ ok pairs) × (addresses_of c ≡ ok (map address pairs))
addresses_of-address_example =
    addresses_of-address (record config { ip_list = map address pairs }) pairs refl

-- Numbers of whole seconds, in place of Python's `float`.
abbrev seconds_of : Option ℤ → Result ℕ
seconds_of (some (pos n)) = ok n
seconds_of _ = err (value_error [])

abbrev seconds : Text → Result ℕ
seconds s = seconds_of (parse_int s)

abbrev pools : Dict (List Text)
pools = (codes "p", codes "a:80" ∷ []) ∷ []

abbrev settings : Dict (Value ℕ)
settings = (codes "name", text (codes "t")) ∷ (codes "ip_pool", text (codes "p")) ∷ []

resolve_pool-Resolved_example :
    Resolved ℕ seconds
      (λ m n. m * n)
      pools
      settings
      (resolve_pool ℕ seconds (λ m n. m * n) pools settings)
resolve_pool-Resolved_example = resolve_pool-Resolved ℕ seconds (λ m n. m * n) pools settings
