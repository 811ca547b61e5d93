-- ===== src/Cli/Tests.antt =====
-- The theorems on cli.py and on the settings of config.py at small inputs.
use proxy_hopper_v.Common.{ℕ, ◌≡◌, refl, ◌↔◌, true, [], ◌∷◌, ◌++◌, arith, codes, ok, text_eq}
use proxy_hopper_v.Strings.{has, strip, lstrip, rstrip, is_space}
use proxy_hopper_v.Config.Settings.{ServerConfig, defaults, comma_split}
use proxy_hopper_v.Config.Settings.Commas.{comma_join, comma_split-comma_join}
use proxy_hopper_v.Cli.{Action, End, finished, interrupted, run_server, validate, serve_forever}
use proxy_hopper_v.Cli.Cleanup.{
  run_server-Cleaned, concluded, server_end, opened, server_log, closed,
}
use proxy_hopper_v.Cli.Validation.{validate-accepts, IsLoaded}
use proxy_hopper_v.Samples.{config}

-- A server with the prober on, over Redis.
abbrev server : ServerConfig ℕ
server = record (defaults 60 10) { probe = true; backend = codes "redis" }

-- The server runs until a KeyboardInterrupt.
abbrev world : Action ℕ → End
world serve_forever = interrupted
world _ = finished

run_server-Cleaned_example : run_server ℕ world (config ∷ []) server [] ≡ (
  concluded ℕ world (config ∷ []) server (server_end ℕ world (config ∷ []) server),
  []
      ++ opened ℕ world (config ∷ []) server
      ++ (server_log ℕ world (config ∷ []) server ++ closed ℕ world (config ∷ []) server),
)
unfolding text_eq
run_server-Cleaned_example =
    run_server-Cleaned ℕ world (config ∷ []) server [] (refl, (refl, (refl, (refl, (refl, tt)))))
      (refl, (refl, (refl, tt)))

validate-accepts_example :
    ((validate (ok (config ∷ [], server))).status ≡ 0) ↔ IsLoaded (ok (config ∷ [], server))
validate-accepts_example = validate-accepts (ok (config ∷ [], server))

comma_split-comma_join_example :
    comma_split (comma_join (codes "http://a" ∷ codes "http://b" ∷ []))
    ≡ codes "http://a" ∷ codes "http://b" ∷ []
unfolding has strip lstrip rstrip is_space
comma_split-comma_join_example = comma_split-comma_join (codes "http://a") (codes "http://b" ∷ []) (
  record { no_comma = refl; no_space = refl; some_text = λ e. ground (arith, e) },
  (record { no_comma = refl; no_space = refl; some_text = λ e. ground (arith, e) }, tt),
)
