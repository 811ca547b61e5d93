-- ===== src/Logging/Tests.antt =====
-- The theorems on logging_config.py at a small record and level.
use proxy_hopper_v.Common.{
  ◌≡◌, refl, none, some, ◌||◌, [], ◌∷◌, ◌++◌, if◌then◌else◌, Text, codes, text_eq, ok, Result,
}
use proxy_hopper_v.Strings.{upper, lower}
use proxy_hopper_v.Logging.{
  LogRecord, format, Root, configure_logging, json_formatter, text_formatter, trace,
}
use proxy_hopper_v.Logging.OneLine.{IsOneLine, format-IsOneLine}
use proxy_hopper_v.Logging.Levels.{configure_logging-trace}

-- A record with a line break in its message.
abbrev broken : LogRecord
broken = record {
  timestamp = codes "2024-01-01T00:00:00";
  levelname = codes "INFO";
  name = codes "proxy_hopper";
  message = codes "a" ++ 10 ∷ 233 ∷ [];
  exc_info = none;
  stack_info = none;
}

format-IsOneLine_example : IsOneLine (format broken)
format-IsOneLine_example = format-IsOneLine broken

abbrev root : Root
root = record { level = 30; handlers = [] }

abbrev opens : Text → Result (Unit {0})
opens path = ok tt

configure_logging-trace_example :
    let out = configure_logging opens (codes "trace") (some (codes "log")) (codes "json") root in
    (out.0 ≡ ok tt)
    × (out.1.handlers
        ≡ (record {
          file = some (codes "log");
          formatter =
              if text_eq (lower (codes "json")) (codes "json")
              then json_formatter
              else text_formatter;
        })
          ∷ [])
    × (trace out.1 (codes "m") [] ≡ (
        if text_eq (upper (codes "trace")) (codes "TRACE")
          || text_eq (upper (codes "trace")) (codes "NOTSET")
        then [] ++ codes "m" ∷ []
        else []))
configure_logging-trace_example =
    configure_logging-trace opens (codes "trace") (some (codes "log")) (codes "json") root
      (codes "m") [] refl
