-- ===== src/Config/Loading.antt =====
-- The loading of the configuration in config.py: the names of the settings, the durations and the
-- pools that targets refer to. YAML, `float` and pydantic are parameters.
pub mod Resolution
pub mod Durations
use proxy_hopper_v.Common.{
  ℕ, Bool, true, false, Option, none, some, List, [], ◌∷◌, ◌++◌, if◌then◌else◌, Text, codes,
  text_eq, Dict, lookup, insert, delete, Error, value_error, other_error, Result, ok, err,
}
use proxy_hopper_v.Strings.{strip, ends_with}

-- A value that YAML reads, with `F` for the numbers; `mapping` is a mapping or another list.
pub data Value (F : Type 0) : Type 0 where
  null : Value F
  flag : Bool → Value F
  number : F → Value F
  text : Text → Value F
  texts : List Text → Value F
  mapping : Value F

-- A table of names: table.get(key, key)
unfoldable pub renamed : Dict Text → Text → Text
unfolding lookup
renamed table key = elim (lookup key table) [ none ↦ key | some name ↦ name ]

abbrev pub target_names : Dict Text
target_names =
    (codes "ipList", codes "ip_list")
    ∷ (codes "ipPool", codes "ip_pool")
    ∷ (codes "minRequestInterval", codes "min_request_interval")
    ∷ (codes "maxRequestTimeInQueue", codes "max_queue_wait")
    ∷ (codes "maxQueueWait", codes "max_queue_wait")
    ∷ (codes "numRetries", codes "num_retries")
    ∷ (codes "ipFailuresUntilQuarantine", codes "ip_failures_until_quarantine")
    ∷ (codes "quarantineTime", codes "quarantine_time")
    ∷ (codes "defaultProxyPort", codes "default_proxy_port")
    ∷ []

abbrev pub pool_names : Dict Text
pool_names = (codes "ipList", codes "ip_list") ∷ []

abbrev pub server_names : Dict Text
server_names =
    (codes "logLevel", codes "log_level")
    ∷ (codes "logFormat", codes "log_format")
    ∷ (codes "logFile", codes "log_file")
    ∷ (codes "redisUrl", codes "redis_url")
    ∷ (codes "metricsPort", codes "metrics_port")
    ∷ (codes "probeInterval", codes "probe_interval")
    ∷ (codes "probeTimeout", codes "probe_timeout")
    ∷ (codes "probeUrls", codes "probe_urls")
    ∷ []

-- The loop that fills `out`.
unfoldable pub rename_all : {V : Type 0} → Dict Text → Dict V → Dict V → Dict V
unfolding renamed insert
rename_all table [] out = out
rename_all table ((key, v) ∷ raw) out = rename_all table raw (insert (renamed table key) v out)

abbrev pub ip_pool_key : Text
ip_pool_key = codes "ip_pool"

abbrev pub ip_list_key : Text
ip_list_key = codes "ip_list"

module _ (F : Type 0) (float : Text → Result F) (times : F → ℕ → F) where
  abbrev pub scaled : ℕ → Result F → Result F
  scaled n (ok x) = ok (times x n)
  scaled n (err e) = err e

  -- _parse_duration of a text that is stripped
  unfoldable pub parse_stripped : Text → Result F
  unfolding ends_with
  parse_stripped s = elim (ends_with b'h' s) [
    | some front ↦ scaled 3600 (float front)
    | none ↦ elim (ends_with b'm' s) [
      | some front ↦ scaled 60 (float front)
      | none ↦ elim (ends_with b's' s) [ some front ↦ float front | none ↦ float s ]
    ]
  ]

  -- _parse_duration of a text
  unfoldable pub parse_duration : Text → Result F
  unfolding parse_stripped strip
  parse_duration s = parse_stripped (strip s)

  abbrev pub with_number : Text → Dict (Value F) → Result F → Result (Dict (Value F))
  with_number field out (ok x) = ok (insert field (number x) out)
  with_number field out (err e) = err e

  abbrev pub parse_found : Text → Dict (Value F) → Option (Value F) → Result (Dict (Value F))
  parse_found field out (some (text s)) = with_number field out (parse_duration s)
  parse_found field out _ = ok out

  abbrev pub parse_then :
      (Dict (Value F) → Result (Dict (Value F))) → Result (Dict (Value F)) → Result (Dict (Value F))
  parse_then f (ok out) = f out
  parse_then f (err e) = err e

  -- The loop over the fields that are durations.
  unfoldable pub parse_fields : List Text → Dict (Value F) → Result (Dict (Value F))
  unfolding parse_duration lookup
  parse_fields [] out = ok out
  parse_fields (field ∷ fields) out =
      parse_then (parse_fields fields) (parse_found field out (lookup field out))

  abbrev pub duration_fields : List Text
  duration_fields =
      codes "min_request_interval" ∷ codes "max_queue_wait" ∷ codes "quarantine_time" ∷ []

  unfoldable pub normalise_target : Dict (Value F) → Result (Dict (Value F))
  unfolding parse_fields rename_all
  normalise_target raw = parse_fields duration_fields (rename_all target_names raw [])

  unfoldable pub normalise_pool : Dict (Value F) → Dict (Value F)
  unfolding rename_all
  normalise_pool raw = rename_all pool_names raw []

  unfoldable pub normalise_server : Dict (Value F) → Result (Dict (Value F))
  unfolding parse_fields rename_all
  normalise_server raw =
      parse_fields (codes "probe_interval" ∷ codes "probe_timeout" ∷ [])
        (rename_all server_names raw [])

  -- The pool that a target refers to, with the rest of its settings.
  abbrev pub both_given : Error
  both_given = value_error (codes "specifies both ipPool and ipList")

  abbrev pub unknown_pool : Text → Error
  unknown_pool name = value_error (codes "references unknown ipPool " ++ name)

  abbrev pub put_pool : Text → Dict (Value F) → Option (List Text) → Result (Dict (Value F))
  put_pool name rest none = err (unknown_pool name)
  put_pool name rest (some ips) = ok (insert ip_list_key (texts ips) rest)

  -- A reference that is no text is the name of no pool; a list or a mapping is not hashable.
  abbrev pub no_name : Value F → Error
  no_name (texts ips) = other_error (codes "TypeError")
  no_name mapping = other_error (codes "TypeError")
  no_name _ = unknown_pool []

  -- The tests of `pool_ref` and of the key `ip_list`, with what `pop` left.
  abbrev pub refer :
      Dict (List Text)
      → Dict (Value F)
      → Option (Value F)
      → Option (Value F)
      → Result (Dict (Value F))
  refer pools rest none given = ok rest
  refer pools rest (some null) given = ok rest
  refer pools rest (some (text name)) none = put_pool name rest (lookup name pools)
  refer pools rest (some v) none = err (no_name v)
  refer pools rest (some v) (some given) = err both_given

  -- The pool reference of a normalised target.
  unfoldable pub resolve_pool : Dict (List Text) → Dict (Value F) → Result (Dict (Value F))
  unfolding lookup delete
  resolve_pool pools normalised =
      refer pools (delete ip_pool_key normalised) (lookup ip_pool_key normalised)
        (lookup ip_list_key normalised)

-- The loops of `load_config`, with the constructors of pydantic as parameters.
module _ (F : Type 0) (float : Text → Result F) (times : F → ℕ → F) {T : Type 0}
    (make_pool : Dict (Value F) → Result (Text × List Text))
    (make_target : Dict (Value F) → Result T) where
  abbrev pub add_pool :
      (Dict (List Text) → Result (Dict (List Text)))
      → Dict (List Text)
      → Result (Text × List Text)
      → Result (Dict (List Text))
  add_pool more pools (ok (name, ips)) = more (insert name ips pools)
  add_pool more pools (err e) = err e

  unfoldable pub load_pools : List (Dict (Value F)) → Dict (List Text) → Result (Dict (List Text))
  unfolding normalise_pool insert
  load_pools [] pools = ok pools
  load_pools (raw ∷ raws) pools =
      add_pool (load_pools raws) pools (make_pool (normalise_pool F float times raw))

  abbrev pub then_make : Result (Dict (Value F)) → Result T
  then_make (ok d) = make_target d
  then_make (err e) = err e

  abbrev pub then_resolve : Dict (List Text) → Result (Dict (Value F)) → Result T
  then_resolve pools (ok d) = then_make (resolve_pool F float times pools d)
  then_resolve pools (err e) = err e

  unfoldable pub load_target : Dict (List Text) → Dict (Value F) → Result T
  unfolding normalise_target resolve_pool
  load_target pools raw = then_resolve pools (normalise_target F float times raw)

  abbrev pub add_target : Result T → Result (List T) → Result (List T)
  add_target (err e) rest = err e
  add_target (ok t) (err e) = err e
  add_target (ok t) (ok ts) = ok (t ∷ ts)

  unfoldable pub load_targets : Dict (List Text) → List (Dict (Value F)) → Result (List T)
  unfolding load_target
  load_targets pools [] = ok []
  load_targets pools (raw ∷ raws) = add_target (load_target pools raw) (load_targets pools raws)

  abbrev pub with_pools : List (Dict (Value F)) → Result (Dict (List Text)) → Result (List T)
  with_pools targets (ok pools) = load_targets pools targets
  with_pools targets (err e) = err e

  -- The pools and the targets of `load_config`.
  unfoldable pub load_config : List (Dict (Value F)) → List (Dict (Value F)) → Result (List T)
  unfolding load_pools load_targets
  load_config pools targets = with_pools targets (load_pools pools [])
