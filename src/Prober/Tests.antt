-- ===== src/Prober/Tests.antt =====
-- The theorems on prober.py at two targets that share their addresses.
use proxy_hopper_v.Common.{
  ℕ, ◌+◌, ◌≡◌, refl, List, [], ◌∷◌, ◌++◌, arith, Text, codes, text_eq, count, ok,
}
use proxy_hopper_v.Strings.{has, rpartition, strip, rstrip, lstrip, is_space}
use proxy_hopper_v.Strings.Ints.{parse_int, parse_signed, digits, show_int, show_nat, show_digits}
use proxy_hopper_v.Config.{TargetConfig, resolve, resolve_all, resolved_ip_list, address}
use proxy_hopper_v.Pool.{addresses_of}
use proxy_hopper_v.TargetManager.{is_in}
use proxy_hopper_v.Prober.{
  Probe, answered, IpProber, prober_of, add_unique, all_addresses, new, probe_rounds,
}
use proxy_hopper_v.Prober.Turns.{urls_of, new-turns}
use proxy_hopper_v.Prober.Reports.{all_reported, probe_rounds-reachable}
use proxy_hopper_v.Metrics.{collect_all, ip_reachable}
use proxy_hopper_v.Metrics.Samples.{library, library-IsDocumented, enabled}
use proxy_hopper_v.Samples.{config, ips, ip1}

abbrev targets : List TargetConfig
targets = config ∷ config ∷ []

abbrev urls : List Text
urls = codes "u" ∷ codes "v" ∷ []

abbrev prober : IpProber
prober = prober_of urls ips

all : all_addresses targets ≡ ok (ips ++ ips)
unfolding all_addresses addresses_of resolved_ip_list resolve_all resolve address has rpartition
    parse_int parse_signed digits show_int show_nat show_digits strip rstrip lstrip is_space
all = refl

made : new targets urls ≡ ok prober
unfolding new all_addresses add_unique is_in text_eq addresses_of resolved_ip_list resolve_all
    resolve address has rpartition parse_int parse_signed digits show_int show_nat show_digits strip
    rstrip lstrip is_space
made = refl

-- The ends of the exchanges: each round one status more, 499 first.
abbrev ends : ℕ → Text → Text → Probe
ends n url a = answered (499 + n)

-- After three rounds, the first URL comes again.
new-turns_example :
    (urls_of ip1 (probe_rounds ends 3 prober).made ≡ codes "u" ∷ codes "v" ∷ codes "u" ∷ [])
    × (urls_of ip1 (probe_rounds ends 2 prober).made ≡ urls)
unfolding count text_eq
new-turns_example =
    new-turns ends targets (codes "u") (codes "v" ∷ []) (ips ++ ips) prober ip1 3 made all
      (omega arith)

-- The second round finds the address out of reach.
probe_rounds-reachable_example :
    library-IsDocumented.gauge
      (collect_all library
        (all_reported (λ i. i) (probe_rounds ends 2 prober).outcomes)
        enabled).registry
      ip_reachable
      (ip1 ∷ [])
    ≡ 0
unfolding count text_eq
probe_rounds-reachable_example =
    probe_rounds-reachable library library-IsDocumented enabled (λ i. i) ends targets (codes "u")
      (codes "v" ∷ []) (ips ++ ips) prober ip1 1 refl made all (omega arith)
