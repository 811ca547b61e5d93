-- ===== src/Cli/Cleanup.antt =====
-- What `_run` of cli.py starts, it stops, whatever ends the server.
use proxy_hopper_v.Common.{
  ◌≡◌, refl, ap, ◌∙◌, subst, Bool-cases, inl, inr, Bool, true, false, Option, none, some, List, [],
  ◌∷◌, ◌++◌, append_assoc, append-nil, if◌then◌else◌, Text, codes, text_eq,
}
use proxy_hopper_v.Config.{TargetConfig}
use proxy_hopper_v.Config.Settings.{ServerConfig}
use proxy_hopper_v.Cli.{
  act, ◌▷◌, skip, swallow, Action, End, finished, raised, interrupted, exited, import_redis,
  start_backend, create_managers, create_prober, start_prober, start_proxy, serve_forever,
  stop_proxy, stop_prober, stop_backend, serve, run_on, run_server,
}

module _ (F : Type 0) (world : Action F → End) (targets : List TargetConfig)
    (server : ServerConfig F) where
  abbrev pub Finishes : Action F → Type 0
  Finishes a = world a ≡ finished

  -- The end of the server, and what it did.
  abbrev after_start : End → End
  after_start finished = world serve_forever
  after_start (raised e) = raised e
  after_start interrupted = interrupted
  after_start exited = exited

  abbrev pub server_end : End
  server_end = after_start (world (start_proxy server.host server.port))

  abbrev served : End → List (Action F)
  served finished = serve_forever ∷ []
  served (raised e) = []
  served interrupted = []
  served exited = []

  -- The proxy is started, and if that goes well, it serves.
  abbrev pub server_log : List (Action F)
  server_log =
      start_proxy server.host server.port ∷ served (world (start_proxy server.host server.port))

  -- KeyboardInterrupt and CancelledError end the program as usual.
  abbrev pub concluded : End → End
  concluded interrupted = finished
  concluded finished = finished
  concluded (raised e) = raised e
  concluded exited = exited

  abbrev prober_started : Bool → List (Action F)
  prober_started false = []
  prober_started true =
      create_prober targets
      ∷ start_prober server.probe_urls server.probe_interval server.probe_timeout
      ∷ []

  abbrev prober_stopped : Bool → List (Action F)
  prober_stopped false = []
  prober_stopped true = stop_prober ∷ []

  abbrev pub backend_url : Bool → Option Text
  backend_url true = some server.redis_url
  backend_url false = none

  abbrev backend_imported : Bool → List (Action F)
  backend_imported true = import_redis ∷ []
  backend_imported false = []

  abbrev pub is_redis : Bool
  is_redis = text_eq server.backend (codes "redis")

  -- What is started before the server, and what is stopped after it.
  abbrev pub opened_for : Bool → List (Action F)
  opened_for redis =
      backend_imported redis
      ++ start_backend (backend_url redis) ∷ create_managers targets ∷ prober_started server.probe

  abbrev pub opened : List (Action F)
  opened = opened_for is_redis

  abbrev pub closed : List (Action F)
  closed = stop_proxy ∷ prober_stopped server.probe ++ stop_backend ∷ []

  abbrev AllFinish : List (Action F) → Type 0
  AllFinish [] = Unit
  AllFinish (a ∷ as') = Finishes a × AllFinish as'

  two_more :
      (log : List (Action F)) (a a' : Action F) (rest : List (Action F))
      → log ++ a ∷ [] ++ a' ∷ [] ++ rest ≡ log ++ a ∷ a' ∷ rest
  two_more log a a' rest =
      append_assoc (log ++ a ∷ []) (a' ∷ []) rest ∙ append_assoc log (a ∷ []) (a' ∷ rest)

  abbrev tries : List (Action F) → End × List (Action F)
  tries = act world (start_proxy server.host server.port) ▷ act world serve_forever

  tries_lem :
      (log : List (Action F)) (e : End)
      → world (start_proxy server.host server.port) ≡ e
      → tries log ≡ (server_end, log ++ server_log)
  tries_lem log finished h =
      rw (h, append_assoc log (start_proxy server.host server.port ∷ []) (serve_forever ∷ [])) refl
  tries_lem log (raised e) h = rw h refl
  tries_lem log interrupted h = rw h refl
  tries_lem log exited h = rw h refl

  swallow_lem : (e : End) (log : List (Action F)) → swallow (e, log) ≡ (concluded e, log)
  swallow_lem finished log = refl
  swallow_lem (raised e) log = refl
  swallow_lem interrupted log = refl
  swallow_lem exited log = refl

  cleanup_lem :
      (p : Bool) (log : List (Action F))
      → AllFinish (stop_proxy ∷ prober_stopped p ++ stop_backend ∷ [])
      → (act world stop_proxy
            ▷ (if p then act world stop_prober else skip)
            ▷ act world stop_backend)
          log
        ≡ (finished, log ++ (stop_proxy ∷ prober_stopped p ++ stop_backend ∷ []))
  cleanup_lem true log (h, (g, (k, _))) =
      rw
        (
          h,
          g,
          k,
          append_assoc (log ++ stop_proxy ∷ []) (stop_prober ∷ []) (stop_backend ∷ []),
          append_assoc log (stop_proxy ∷ []) (stop_prober ∷ stop_backend ∷ []),
        )
        refl
  cleanup_lem false log (h, (k, _)) =
      rw (h, k, append_assoc log (stop_proxy ∷ []) (stop_backend ∷ [])) refl

  serve_lem :
      (log : List (Action F))
      → AllFinish closed
      → serve F world server log ≡ (concluded server_end, log ++ (server_log ++ closed))
  unfolding serve
  serve_lem log h =
      rw
        (
          tries_lem log _ refl,
          swallow_lem server_end (log ++ server_log),
          cleanup_lem server.probe (log ++ server_log) h,
          append_assoc log server_log closed,
        )
        refl

  prober_lem :
      (p : Bool) (log : List (Action F))
      → AllFinish (prober_started p)
      → (if p
            then act world (create_prober targets)
              ▷ act world
                  (start_prober server.probe_urls server.probe_interval server.probe_timeout)
            else skip)
          log
        ≡ (finished, log ++ prober_started p)
  prober_lem true log (h, (g, _)) = rw (h, g, append_assoc log (create_prober targets ∷ []) _) refl
  prober_lem false log h = rw (append-nil log) refl

  run_on_lem :
      (url : Option Text) (log : List (Action F))
      → AllFinish (start_backend url ∷ create_managers targets ∷ prober_started server.probe)
      → AllFinish closed
      → run_on F world url targets server log ≡ (
        concluded server_end,
        log
            ++ (start_backend url ∷ create_managers targets ∷ prober_started server.probe)
            ++ (server_log ++ closed),
      )
  unfolding run_on
  run_on_lem url log (h, (g, k)) c =
      let before = log ++ start_backend url ∷ [] ++ create_managers targets ∷ [] in
      rw
        (
          h,
          g,
          prober_lem server.probe before k,
          serve_lem (before ++ prober_started server.probe) c,
        )
        (ap (λ l. (concluded server_end, l ++ (server_log ++ closed)))
          (two_more log (start_backend url) (create_managers targets)
            (prober_started server.probe)))

  -- Whatever ends the server, what was started is stopped. If everything that `_run` does before
  -- its `try` and every stop finishes, then the proxy, the prober and the backend are stopped, once
  -- each and in this order, after the proxy was started and, if that went well, has served. An
  -- interrupt counts as an end as usual, and any other exception is raised on.
  pub run_server-Cleaned :
      (log : List (Action F))
      → AllFinish opened
      → AllFinish closed
      → run_server F world targets server log
        ≡ (concluded server_end, log ++ opened ++ (server_log ++ closed))
  unfolding run_server
  run_server-Cleaned log o c = elim (Bool-cases is_redis) [
    | inl e ↦
        let (h, k) = subst (λ r. AllFinish (opened_for r)) e o in
        rw (e, h, run_on_lem (some server.redis_url) (log ++ import_redis ∷ []) k c)
          (ap (λ l. (concluded server_end, l ++ (server_log ++ closed)))
            (append_assoc log (import_redis ∷ []) _))
    | inr e ↦ rw (e, run_on_lem none log (subst (λ r. AllFinish (opened_for r)) e o) c) refl
  ]
