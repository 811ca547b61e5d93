-- ===== src/Prober.antt =====
-- prober.py: the task that tests every address of the targets through a list of URLs in turn.
pub mod Addresses
pub mod Turns
pub mod Reports
mod Tests
use proxy_hopper_v.Common.{
  ℕ, zero, suc, Bool, true, false, Option, none, some, List, [], ◌∷◌, ◌++◌, ltb, if◌then◌else◌,
  Text, codes, Dict, lookup, insert, Error, other_error, Result, ok, err,
}
use proxy_hopper_v.Config.{TargetConfig}
use proxy_hopper_v.Pool.{addresses_of}
use proxy_hopper_v.TargetManager.{is_in}

-- What a probe through a proxy comes to: an answer's status, or one of the exceptions.
pub data Probe : Type 0 where
  answered : ℕ → Probe
  timed_out proxy_unreachable connection_error unexpected : Probe

-- What is handed to the metrics.
pub data Outcome : Type 0 where
  success : Outcome
  failure : Text → Outcome

-- A probe that was made: its address and its URL.
pub record Made : Type 0 where
  pub address : Text
  pub url : Text

pub record IpProber : Type 0 where
  pub addresses : List Text
  pub probe_urls : List Text
  -- `itertools.cycle` of each address: the URLs in the order in which they come next
  pub url_cycles : Dict (List Text)
  pub running : Bool
  -- the probes and the calls of the metrics, in their order
  pub made : List Made
  pub outcomes : List (Text × Outcome)

-- The loops that fill `seen` and `unique`, which hold the same addresses.
unfoldable pub add_unique : List Text → List Text → List Text
unfolding is_in
add_unique unique [] = unique
add_unique unique (a ∷ as') =
    let known = add_unique unique as' in
    let new = add_unique (unique ++ a ∷ []) as' in if is_in a unique then known else new

abbrev pub append_result : Result (List Text) → Result (List Text) → Result (List Text)
append_result (err e) _ = err e
append_result (ok xs) (err e) = err e
append_result (ok xs) (ok ys) = ok (xs ++ ys)

-- f"{host}:{port}" of every target, in their order
unfoldable pub all_addresses : List TargetConfig → Result (List Text)
unfolding addresses_of
all_addresses [] = ok []
all_addresses (t ∷ ts) = append_result (addresses_of t) (all_addresses ts)

abbrev pub cycles_of : List Text → List Text → Dict (List Text)
cycles_of urls [] = []
cycles_of urls (a ∷ as') = (a, urls) ∷ cycles_of urls as'

abbrev pub prober_of : List Text → List Text → IpProber
prober_of urls unique = record {
  addresses = unique;
  probe_urls = urls;
  url_cycles = cycles_of urls unique;
  running = false;
  made = [];
  outcomes = [];
}

abbrev pub with_unique : List Text → Result (List Text) → Result IpProber
with_unique urls (err e) = err e
with_unique urls (ok all) = ok (prober_of urls (add_unique [] all))

-- __init__
unfoldable pub new : List TargetConfig → List Text → Result IpProber
unfolding all_addresses add_unique
new targets urls = with_unique urls (all_addresses targets)

-- The task runs if there is something to probe.
unfoldable pub start : IpProber → IpProber
start p = elim p.addresses [
  | [] ↦ p
  | a ∷ as' ↦ elim p.probe_urls [ [] ↦ p | u ∷ us ↦ record p { running = true } ]
]

unfoldable pub stop : IpProber → IpProber
stop p = record p { running = false }

-- The `if` and the `except` clauses: what a probe hands to the metrics, if anything.
abbrev pub outcome_of : Probe → Option Outcome
outcome_of (answered status) =
    some (if ltb status 500 then success else failure (codes "http_error"))
outcome_of timed_out = some (failure (codes "timeout"))
outcome_of proxy_unreachable = some (failure (codes "proxy_unreachable"))
outcome_of connection_error = some (failure (codes "connection_error"))
outcome_of unexpected = none

abbrev pub record_outcome : Text → Option Outcome → IpProber → IpProber
record_outcome a none p = p
record_outcome a (some o) p = record p { outcomes = p.outcomes ++ (a, o) ∷ [] }

-- `session` is the exchange with a URL through the proxy at an address.
module _ (session : Text → Text → Probe) where
  -- With the cycle of the address; an empty one has no next URL, and the task ends with an exception
  -- that `gather` keeps.
  abbrev pub probe_next : Text → Option (List Text) → IpProber → IpProber
  probe_next a none p = p
  probe_next a (some []) p = p
  probe_next a (some (url ∷ urls)) p = record_outcome a (outcome_of (session url a)) (record p {
    url_cycles = insert a (urls ++ url ∷ []) p.url_cycles;
    made = p.made ++ (record { address = a; url = url }) ∷ [];
  })

  -- _probe_address
  unfoldable pub probe_address : Text → IpProber → IpProber
  unfolding lookup
  probe_address a p = probe_next a (lookup a p.url_cycles) p

  -- The probes of a round, one after the other.
  unfoldable pub probe_all : List Text → IpProber → IpProber
  unfolding probe_address
  probe_all [] p = p
  probe_all (a ∷ as') p = probe_all as' (probe_address a p)

-- `_probe_loop`, for a number of rounds; the exchanges of each round have their own ends.
unfoldable pub probe_rounds : (ℕ → Text → Text → Probe) → ℕ → IpProber → IpProber
unfolding probe_all
probe_rounds sessions zero p = p
probe_rounds sessions (suc n) p =
    probe_rounds (λ i. sessions (suc i)) n (probe_all (sessions 0) p.addresses p)
