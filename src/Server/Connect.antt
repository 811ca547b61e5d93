-- ===== src/Server/Connect.antt =====
-- `_handle_connect` of server.py: a tunnel through an address of the pool.
pub mod Trials
pub mod Leases
use proxy_hopper_v.Common.{
  ℕ, zero, suc, ◌+◌, Option, none, some, List, [], ◌∷◌, ◌++◌, Text, codes, Error, value_error,
  Result, ok, err, Exec, pure, ◌>>=◌,
}
use proxy_hopper_v.Strings.{rpartition}
use proxy_hopper_v.Strings.Ints.{ℤ, parse_int}
use proxy_hopper_v.Config.{TargetConfig}
use proxy_hopper_v.Backend.{Backend}
use proxy_hopper_v.Pool.{IpPool, acquire, record_success, record_failure}

-- What the loop over the attempts comes to.
pub data Tunnel : Type 0 where
  no_address : Tunnel
  all_failed : Tunnel
  established : Text → Tunnel

-- The network, as one handler meets it.
pub record Network : Type 0 where
  -- whether the `i`-th attempt, at that host and port, opens a tunnel: `open_connection`, the
  -- CONNECT that is written, the status line and the headers of the answer
  pub opens : ℕ → Text → ℤ → Result (Unit {0})
  -- when the `i`-th attempt is over
  pub over : ℕ → ℕ
  -- whether the client still takes the 200
  pub drained : Result (Unit {0})
  -- when the relay is over
  pub closed : ℕ

module _ (b : Backend) (config : TargetConfig) (net : Network) where
  abbrev at_port : ℕ → Text → Option ℤ → Result (Unit {0})
  at_port i host none = err (value_error host)
  at_port i host (some port) = net.opens i host port

  -- The body of the `try`, for the `i`-th attempt.
  unfoldable pub open_tunnel : ℕ → Text → Result (Unit {0})
  unfolding rpartition parse_int
  open_tunnel i address =
      at_port i (rpartition b':' address).0 (parse_int (rpartition b':' address).1)

  -- What an attempt leads to; the failed ones go on with `more`.
  abbrev pub tried : ℕ → Text → Result (Unit {0}) → Exec (IpPool b) Tunnel → Exec (IpPool b) Tunnel
  tried i address (ok x) more = pure (established address)
  tried i address (err e) more = record_failure b config (net.over i) address >>= λ _. more

  abbrev pub attempt : ℕ → Exec (IpPool b) Tunnel → Option Text → Exec (IpPool b) Tunnel
  attempt i more none = pure no_address
  attempt i more (some address) = tried i address (open_tunnel i address) more

  -- The loop with `n` attempts left, the next of which is the `i`-th.
  unfoldable pub attempts : ℕ → ℕ → Exec (IpPool b) Tunnel
  unfolding open_tunnel
  attempts zero i = pure all_failed
  attempts (suc n) i =
      let more = attempts n (suc i) in acquire b config config.max_queue_wait >>= attempt i more

  -- After the tunnel is there: the 200 to the client, the relay, and the record of the address.
  abbrev pub relayed : Text → Result (Unit {0}) → Exec (IpPool b) (Unit {0})
  relayed address (err e) p = (err e, p)
  relayed address (ok x) p = record_success b config net.closed address p

  abbrev pub conclude : Tunnel → Exec (IpPool b) (Unit {0})
  conclude (established address) = relayed address net.drained
  conclude _ = pure tt

  unfoldable pub handle_connect : Exec (IpPool b) (Unit {0})
  unfolding attempts
  handle_connect = attempts (suc config.num_retries) 0 >>= conclude

-- What is written to the client when no pattern of a target matches.
unfoldable pub no_target_reply : Text → Text
no_target_reply http_version = http_version ++ codes " 502 No target configured\r\n\r\n"

-- What is written to the client after the attempts.
unfoldable pub connect_reply : Text → Tunnel → Text
connect_reply http_version no_address = http_version ++ codes " 504 Gateway Timeout\r\n\r\n"
connect_reply http_version all_failed = http_version ++ codes " 502 All proxies failed\r\n\r\n"
connect_reply http_version (established address) =
    codes "HTTP/1.1 200 Connection Established\r\n\r\n"
