-- ===== src/Server/Tests.antt =====
-- The theorems on server.py at small requests.
use proxy_hopper_v.Common.{
  List, ℕ, ◌++◌, Result, err, connection_closed, if◌then◌else◌, ◌==◌, length, map, some, ◌+◌, ◌≤◌,
  ◌≡◌, refl, true, [], ◌∷◌, arith, Text, codes, text_eq, ok, insert, lookup, count,
}
use proxy_hopper_v.Strings.{
  has, lower, strip, rstrip, lstrip, is_space, split_twice, partition, ends_with,
}
use proxy_hopper_v.Backend.Memory.Promises.{memory, memory_contract}
use proxy_hopper_v.Pool.Rotation.Copies.{copies, count_cooling}
use proxy_hopper_v.Server.Head.{
  Head, lines, flatten, read_request_head, read_headers, overrun, is_blank, add_header,
}
use proxy_hopper_v.Server.Head.Size.{size, read_request_head-size}
use proxy_hopper_v.Server.Head.Print.{head_lines}
use proxy_hopper_v.Server.Connect.{Network, handle_connect}
use proxy_hopper_v.Server.Connect.Trials.{Tried, attempts-Tried}
use proxy_hopper_v.Server.Connect.Leases.{Connected, handle_connect-Connected}
use proxy_hopper_v.Strings.Ints.{pos, parse_int, show_nat}
use proxy_hopper_v.Server.Replies.{utf8, write_error}
use proxy_hopper_v.Server.Replies.Errors.{sent, write_error-lines}
use proxy_hopper_v.Server.Relay.{pipe, pipe-arrived}
use proxy_hopper_v.Server.Http.{pending_request}
use proxy_hopper_v.Models.{PendingRequest, ProxyResponse}
use proxy_hopper_v.TargetManager.{Outbound}
use proxy_hopper_v.TargetManager.Machine.Settling.{Clock}
use proxy_hopper_v.Common.{zero, suc, client_error}
use proxy_hopper_v.Common.{none, false, All, ◌<◌}
use proxy_hopper_v.Server.Relay.{Prefix}
use proxy_hopper_v.Config.{TargetConfig}
use proxy_hopper_v.Backend.Memory
use proxy_hopper_v.Backend.Memory.Stored.{view}
use proxy_hopper_v.Backend.Memory.Promises.{new-IsValid}
use proxy_hopper_v.TargetManager
use proxy_hopper_v.Server.Lifecycle
use proxy_hopper_v.Server.Lifecycle.{Managed, ProxyServer}
use proxy_hopper_v.Server.Lifecycle.Opening.{started_views, start-Started}
use proxy_hopper_v.Server.Lifecycle.Closing.{IsStopped, AllKept, stop-IsStopped}
use proxy_hopper_v.Samples.{config, manager, answer, pool, rotation, pool-Shows, ips-IsNodup}

abbrev head : Head
head = record {
  method = codes "GET";
  target = codes "http://a/";
  version = codes "HTTP/1.1";
  headers = (codes "host", codes "a") ∷ (codes "content-length", codes "2") ∷ [];
}

read_request_head-size_example : size (head_lines head) ≤ 65536
unfolding read_request_head read_headers overrun is_blank add_header ends_with rstrip lstrip strip
    is_space lower split_twice partition has text_eq insert
read_request_head-size_example = read_request_head-size (head_lines head) head [] refl

-- The first attempt is rejected, the second opens a tunnel whose client is gone.
abbrev network : Network
network = record {
  opens = λ i host port. if i == 0 then err connection_closed else ok tt;
  over = λ i. 100 + i;
  drained = err connection_closed;
  closed = 500;
}

once_each : (y : Text) → copies y [] rotation ≤ 1
unfolding copies count count_cooling
once_each y = omega (arith, ips-IsNodup y)

attempts-Tried_example : Tried memory memory_contract config network 2 0 pool rotation
attempts-Tried_example =
    attempts-Tried memory memory_contract config network 2 0 pool rotation pool-Shows

handle_connect-Connected_example :
    Connected memory memory_contract config network [] pool rotation
      (handle_connect memory config network pool)
handle_connect-Connected_example =
    handle_connect-Connected memory memory_contract config network [] pool rotation pool-Shows
      once_each

abbrev accepted : PendingRequest
accepted = pending_request (λ pattern url. true) head (some (codes "ok")) 7 100 config

-- The first exchange fails without an answer, the second gets one.
abbrev exchanges : ℕ → Outbound → Result ProxyResponse
exchanges zero o = err (client_error false (codes "refused"))
exchanges (suc i) o = ok (answer 200)

-- The first exchange ends 40 seconds after the request came, when its deadline is over.
abbrev slow : ℕ → Clock
slow zero = record { taken = 100; asked = 101; started = 102; ended = 40100 }
slow (suc i) = record { taken = 40100; asked = 40101; started = 40102; ended = 40200 }

write_error-lines_example :
    (n : Text) × (lines (write_error 400 (codes "Bad Request"))
      ≡ map sent (
          (codes "HTTP/1.1 " ++ show_nat 400 ++ b' ' ∷ codes "Bad Request")
          ∷ codes "Content-Type: text/plain"
          ∷ (codes "Content-Length: " ++ n)
          ∷ codes "Connection: close"
          ∷ []
          ∷ [])
        ++ lines (utf8 (codes "Bad Request")))
    × (flatten (lines (utf8 (codes "Bad Request"))) ≡ utf8 (codes "Bad Request"))
    × (parse_int n ≡ some (pos (length (utf8 (codes "Bad Request")))))
write_error-lines_example = write_error-lines 400 (codes "Bad Request") (ground arith)

-- Two chunks arrive, and the second cannot be sent on.
abbrev reads : List (Result Text)
reads = ok (codes "ab") ∷ ok (codes "cd") ∷ ok [] ∷ []

abbrev second_fails : ℕ → Result (Unit {0})
second_fails i = if i == 1 then err connection_closed else ok tt

first_drain : (j : ℕ) → j < 1 → second_fails (0 + j) ≡ ok tt
first_drain j l = ground (arith, l)

pipe-arrived_example :
    Prefix (pipe second_fails 0 reads).written (codes "abcd")
    × Prefix (codes "ab") (pipe second_fails 0 reads).written
    × ((pipe second_fails 0 reads).closed ≡ true)
pipe-arrived_example = pipe-arrived second_fails 0 reads 1 first_drain

-- Two targets, with a proxy each.
abbrev second_config : TargetConfig
second_config = record config { name = codes "u" }

abbrev servers : ProxyServer memory
servers = record {
  store = Memory.new;
  managers =
      (record {
        config = config;
        addresses = codes "a:80" ∷ [];
        manager = TargetManager.new memory Memory.new;
      })
      ∷ (record {
        config = second_config;
        addresses = codes "b:80" ∷ [];
        manager = TargetManager.new memory Memory.new;
      })
      ∷ [];
  listening = false;
}

nothing_new : (t : Text) → view Memory.new t ≡ none
unfolding view lookup
nothing_new t = refl

names_apart : text_eq (codes "t") (codes "u") ≡ false
unfolding text_eq
names_apart = refl

start-Started_example :
    let out = Lifecycle.start memory (ok tt) servers in
    (out.0 ≡ ok tt)
    × (out.1.listening ≡ true)
    × All (λ (m : Managed memory). m.manager.running ≡ true) out.1.managers
    × ((u : Text)
        → memory_contract.view out.1.store u
          ≡ started_views memory memory_contract servers.managers
              (memory_contract.view servers.store)
              u)
start-Started_example =
    start-Started memory memory_contract servers new-IsValid ((names_apart, tt), (tt, tt))
      ((tt, nothing_new (codes "t")), ((tt, nothing_new (codes "u")), tt))

stop-IsStopped_example :
    let out = Lifecycle.stop memory (ok tt) servers in
    (out.0 ≡ ok tt)
    × All (IsStopped memory) out.1.managers
    × AllKept memory servers.managers out.1.managers
    × (out.1.store ≡ servers.store)
stop-IsStopped_example = stop-IsStopped memory servers
