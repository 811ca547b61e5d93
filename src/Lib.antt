-- ===== src/Lib.antt =====
-- Proxy Hopper, a proxy server that sends each request of its clients through one of many upstream
-- proxies and limits how often each of these is used.
--
-- The parts (paths below python_modules/proxy-hopper/src/proxy_hopper/) and their models:
--   models.py           Models         the requests, futures and answers
--   config.py           Config         a target's configuration and its resolved addresses;
--                                      Config/Loading is the loading of the file,
--                                      Config/Settings the settings of the server
--   backend/base.py     Backend        the abstract class as a record of operations over a store, and
--                                      its promises as the record `Contract`
--   backend/memory.py   Backend/Memory the operations of the in-process backend
--   python_modules/proxy-hopper-redis/src/proxy_hopper_redis/backend.py
--                       Backend/Redis  the operations of the Redis backend over the commands of
--                                      Redis-py; Backend/Redis/Race has several instances sweep
--                                      one server, Backend/Agreement compares two backends
--   pool.py             Pool           `IPPool`, over any backend; Pool/Rotation is what it promises
--                                      with no backend in sight, Pool/Steps and Pool/Callers any
--                                      order of its callers and tasks
--   target_manager.py   TargetManager  the queue of requests, the dispatcher and the execution of a
--                                      request; TargetManager/Machine runs them in any order, and
--                                      its Settling compares a request that nobody holds up, at
--                                      any times of the clock, with a plain loop of retries
--   server.py           Server         Server/Head reads a request, Server/Client chooses its handler,
--                                      Server/Http and Server/Connect are the two handlers,
--                                      Server/Http/Answered follows a request to its answer,
--                                      Server/Relay is a tunnel, Server/Replies writes answers, and
--                                      Server/Lifecycle starts and stops the managers
--   prober.py           Prober         the probes of all addresses through a list of URLs;
--                                      Prober/Reports hands their ends to the metrics
--   metrics.py          Metrics        the collectors, over prometheus_client
--   logging_config.py   Logging        the root logger and the records as JSON
--   cli.py              Cli            the commands, and what `_run` starts and stops
-- Common holds the shared helpers, Strings what the code uses of `str`, Samples a small
-- configuration for the modules called Tests.
--
-- A method that changes state takes the state and gives a result with the new state. A client's
-- handler submits a request to the manager of its target; the dispatcher takes it from the queue,
-- waits for an address of the pool and starts a flight; the flight records the address as a success
-- or a failure, and settles the future of the request or puts a retry into the queue. The pool keeps
-- its addresses in the store of the backend, which all targets share, and its sleeping tasks itself.
--
-- Times are numbers of milliseconds on one clock; the code reads `time.time` for the quarantine and
-- `time.monotonic` for the requests. A task runs alone from one point where it waits to the next. The
-- methods of the in-process backend wait nowhere but in `pop_ip`, which is evaluated at the moment
-- its wait ends. A CONNECT handler runs its attempts with no other task between them; Pool/Callers
-- has its calls of the pool in any order with those of others. Loops are recursion on a list or on
-- the number of their rounds, and what runs for ever is one turn of the machine for each event. Only
-- the printing of a number has fuel, one more than the number, which the round trip of Strings/Laws
-- shows to be enough.
--
-- Not modelled: the HTTP exchange (aiohttp), which is a parameter with any answer or exception;
-- what is logged; the parsing of options by click; the limit of `int` on the number of digits; the
-- regular expressions of the targets, which are a parameter; the 64 bits of a counter in Redis. The
-- commands of Redis are a parameter, with what its documentation says of them as the record
-- `IsDocumented` of Backend/Redis/Commands, where `lapse` is the end of a key's time to live, and a
-- server of one process in Backend/Redis/Server that shows it can hold. Errors of the connection to
-- Redis are left out of that record.
pub mod Common
pub mod Strings
pub mod Config
pub mod Backend
pub mod Pool
pub mod Models
pub mod TargetManager
pub mod Server
pub mod Prober
pub mod Cli
pub mod Metrics
pub mod Logging
pub mod Samples
