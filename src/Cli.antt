-- ===== src/Cli.antt =====
-- cli.py: the command line. What a run does to the world is a log of actions, each of which comes to
-- an end that the world decides.
pub mod Cleanup
pub mod Validation
mod Tests
use proxy_hopper_v.Common.{
  ℕ, Bool, true, false, Option, none, some, List, [], ◌∷◌, ◌++◌, if◌then◌else◌, Text, codes,
  text_eq, Error, Result, ok, err, length,
}
use proxy_hopper_v.Strings.Ints.{ℤ}
use proxy_hopper_v.Config.{TargetConfig, resolved_ip_list}
use proxy_hopper_v.Config.Settings.{ServerConfig, comma_split}
use proxy_hopper_v.Pool.{addresses_of}

-- The options of `run`, as click hands them over.
pub record Options (F : Type 0) : Type 0 where
  pub host : Option Text
  pub port : Option ℤ
  pub log_level : Option Text
  pub log_format : Option Text
  pub log_file : Option Text
  pub metrics : Option Bool
  pub metrics_port : Option ℤ
  pub backend : Option Text
  pub redis_url : Option Text
  pub probe : Option Bool
  pub probe_interval : Option F
  pub probe_timeout : Option F
  pub probe_urls : Option Text

-- `if option is not None: setting = option`
abbrev pub override : {A : Type 0} → Option A → A → A
override none setting = setting
override (some option) setting = option

-- The same for the log file, which can be None itself.
abbrev pub override_file : Option Text → Option Text → Option Text
override_file none setting = setting
override_file (some option) setting = some option

abbrev pub split_option : Option Text → Option (List Text)
split_option none = none
split_option (some s) = some (comma_split s)

unfoldable pub apply_options : {F : Type 0} → Options F → ServerConfig F → ServerConfig F
apply_options o s = record {
  host = override o.host s.host;
  port = override o.port s.port;
  log_level = override o.log_level s.log_level;
  log_format = override o.log_format s.log_format;
  log_file = override_file o.log_file s.log_file;
  backend = override o.backend s.backend;
  redis_url = override o.redis_url s.redis_url;
  metrics = override o.metrics s.metrics;
  metrics_port = override o.metrics_port s.metrics_port;
  probe = override o.probe s.probe;
  probe_interval = override o.probe_interval s.probe_interval;
  probe_timeout = override o.probe_timeout s.probe_timeout;
  probe_urls = override (split_option o.probe_urls) s.probe_urls;
}

-- How a step ends: `interrupted` is KeyboardInterrupt or asyncio.CancelledError, and `exited` is
-- sys.exit(1).
pub data End : Type 0 where
  finished : End
  raised : Error → End
  interrupted : End
  exited : End

-- The steps of the program that reach outside of this module.
pub data Action (F : Type 0) : Type 0 where
  -- click.echo(…, err=True)
  echo_error : Action F
  configure_logging : Text → Option Text → Text → Action F
  start_metrics_server : ℤ → Action F
  import_redis : Action F
  -- the URL of the Redis backend, none for the in-process backend
  start_backend : Option Text → Action F
  -- the constructors of the managers, of which the prober's may raise too
  create_managers : List TargetConfig → Action F
  create_prober : List TargetConfig → Action F
  start_prober : List Text → F → F → Action F
  start_proxy : Text → ℤ → Action F
  serve_forever : Action F
  stop_proxy : Action F
  stop_prober : Action F
  stop_backend : Action F

-- An exception of a `finally` block takes the place of an earlier one.
abbrev pub ending : End → End → End
ending e finished = e
ending e (raised e') = raised e'
ending e interrupted = interrupted
ending e exited = exited

-- A part of the program, from the log before it to its end and the log after it.
abbrev pub Effect : Type 0 → Type 0
Effect F = List (Action F) → End × List (Action F)

module _ {F : Type 0} where
  -- A step, whose end `world` tells.
  abbrev pub act : (Action F → End) → Action F → Effect F
  act world a log = (world a, log ++ a ∷ [])

  -- One step after the other, unless the first raises.
  abbrev pub next : Effect F → End × List (Action F) → End × List (Action F)
  next n (finished, log) = n log
  next n (raised e, log) = (raised e, log)
  next n (interrupted, log) = (interrupted, log)
  next n (exited, log) = (exited, log)

  infixl 5 ◌▷◌
  abbrev pub ◌▷◌ : Effect F → Effect F → Effect F
  (m ▷ n) log = next n (m log)

  abbrev pub skip : Effect F
  skip log = (finished, log)

  -- except (KeyboardInterrupt, asyncio.CancelledError)
  abbrev pub swallow : End × List (Action F) → End × List (Action F)
  swallow (interrupted, log) = (finished, log)
  swallow (finished, log) = (finished, log)
  swallow (raised e, log) = (raised e, log)
  swallow (exited, log) = (exited, log)

  abbrev pub finally_after : Effect F → End × List (Action F) → End × List (Action F)
  finally_after cleanup (e, log) = (ending e (cleanup log).0, (cleanup log).1)

  -- except ImportError: log.error(…); return
  abbrev pub imported : Effect F → End × List (Action F) → End × List (Action F)
  imported n (finished, log) = n log
  imported n (raised e, log) = (finished, log)
  imported n (interrupted, log) = (interrupted, log)
  imported n (exited, log) = (exited, log)

module _ (F : Type 0) (world : Action F → End) where
  -- the `try` statement of `_run`
  unfoldable pub serve : ServerConfig F → Effect F
  serve server log =
      finally_after
        (act world stop_proxy
          ▷ (if server.probe then act world stop_prober else skip)
          ▷ act world stop_backend)
        (swallow ((act world (start_proxy server.host server.port) ▷ act world serve_forever) log))

  -- What `_run` does once it has its backend.
  unfoldable pub run_on : Option Text → List TargetConfig → ServerConfig F → Effect F
  unfolding serve
  run_on url targets server =
      act world (start_backend url)
      ▷ act world (create_managers targets)
      ▷ (if server.probe
          then act world (create_prober targets)
            ▷ act world (start_prober server.probe_urls server.probe_interval server.probe_timeout)
          else skip)
      ▷ serve server

  unfoldable pub run_server : List TargetConfig → ServerConfig F → Effect F
  unfolding run_on
  run_server targets server log =
      if text_eq server.backend (codes "redis")
      then imported (run_on (some server.redis_url) targets server) (act world import_redis log)
      else run_on none targets server log

  -- The command `run` with the loaded configuration, none if --config is missing.
  unfoldable pub run : Options F → Option (Result (List TargetConfig × ServerConfig F)) → Effect F
  unfolding run_server apply_options
  run o none log = next (λ log. (exited, log)) (act world echo_error log)
  run o (some (err e)) log = (raised e, log)
  run o (some (ok (targets, config))) log =
      let server = apply_options o config in
      (act world (configure_logging server.log_level server.log_file server.log_format)
          ▷ (if server.metrics then act world (start_metrics_server server.metrics_port) else skip)
          ▷ run_server targets server)
        log

-- A line that `validate` writes, in the order of what it says.
pub data Line : Type 0 where
  config_ok : ℕ → Line
  -- the name, the number of addresses and the pattern
  target_ok : Text → ℕ → Text → Line
  server_defaults : Text → ℤ → Text → Line
  config_error : Error → Line

-- What `validate` writes, and its exit status.
pub record Verdict : Type 0 where
  pub output : List Line
  pub status : ℕ

abbrev pub said : Line → Verdict → Verdict
said line v = record v { output = line ∷ v.output }

abbrev pub target_checked : TargetConfig → Verdict → Result (List (Text × ℤ)) → Verdict
target_checked t more (ok ips) = said (target_ok t.name (length ips) t.regex) more
target_checked t more (err e) = record { output = config_error e ∷ []; status = 1 }

-- The loop over the targets, and what follows it.
unfoldable pub check_targets : {F : Type 0} → ServerConfig F → List TargetConfig → Verdict
check_targets s [] = record { output = server_defaults s.host s.port s.backend ∷ []; status = 0 }
check_targets s (t ∷ ts) = target_checked t (check_targets s ts) (resolved_ip_list t)

unfoldable pub validate : {F : Type 0} → Result (List TargetConfig × ServerConfig F) → Verdict
unfolding check_targets
validate (err e) = record { output = config_error e ∷ []; status = 1 }
validate (ok (targets, server)) = said (config_ok (length targets)) (check_targets server targets)
