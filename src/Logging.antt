-- ===== src/Logging.antt =====
-- logging_config.py: the root logger, its formatters, and the records as JSON. `Root` is what the
-- module changes of Python's `logging`.
pub mod OneLine
pub mod Levels
mod Tests
use Prim.Native.Nat.{◌-◌}
use proxy_hopper_v.Common.{
  ℕ, ◌+◌, ◌/◌, ◌%◌, Bool, true, false, ◌||◌, ◌&&◌, Option, none, some, List, [], ◌∷◌, ◌++◌,
  if◌then◌else◌, ltb, leb, ◌==◌, Text, codes, text_eq, Error, Result, ok, err, Exec, Dict, lookup,
  insert,
}
use proxy_hopper_v.Strings.{upper, lower}

-- TRACE
abbrev pub trace_level : ℕ
trace_level = 5

-- The names that `logging` knows, with the one that is added.
abbrev pub level_names : Dict ℕ
level_names =
    (codes "CRITICAL", 50)
    ∷ (codes "FATAL", 50)
    ∷ (codes "ERROR", 40)
    ∷ (codes "WARN", 30)
    ∷ (codes "WARNING", 30)
    ∷ (codes "INFO", 20)
    ∷ (codes "DEBUG", 10)
    ∷ (codes "NOTSET", 0)
    ∷ (codes "TRACE", trace_level)
    ∷ []

pub data Formatter : Type 0 where
  text_formatter : Formatter
  json_formatter : Formatter

pub record Handler : Type 0 where
  -- the path of a FileHandler, none for stderr
  pub file : Option Text
  pub formatter : Formatter

pub record Root : Type 0 where
  pub level : ℕ
  pub handlers : List Handler

-- logging.getLevelName(…), of which only an `int` counts
unfoldable pub numeric_level : Text → ℕ
unfolding lookup upper
numeric_level level = elim (lookup (upper level) level_names) [ none ↦ 20 | some n ↦ n ]

unfoldable pub choose_formatter : Text → Formatter
unfolding lower text_eq
choose_formatter log_format =
    if text_eq (lower log_format) (codes "json") then json_formatter else text_formatter

-- if log_file: …
abbrev pub file_of : Option Text → Option Text
file_of none = none
file_of (some []) = none
file_of (some (c ∷ path)) = some (c ∷ path)

-- The file is opened by its handler, which may raise.
abbrev pub opened : (Text → Result (Unit {0})) → Option Text → Result (Unit {0})
opened opens none = ok tt
opened opens (some path) = opens path

abbrev pub with_handler : ℕ → Handler → Result (Unit {0}) → Exec Root (Unit {0})
with_handler level handler (err e) root = (err e, root)
with_handler level handler (ok x) root = (ok tt, record { level = level; handlers = handler ∷ [] })

unfoldable pub configure_logging :
    (Text → Result (Unit {0})) → Text → Option Text → Text → Exec Root (Unit {0})
unfolding numeric_level choose_formatter
configure_logging opens level log_file log_format =
    with_handler (numeric_level level)
      (record { file = file_of log_file; formatter = choose_formatter log_format })
      (opened opens (file_of log_file))

-- Logger.trace, of a logger that takes its level from the root; `written` is what was logged.
unfoldable pub trace : Root → Text → List Text → List Text
trace root message written = if leb root.level trace_level then written ++ message ∷ [] else written

-- What a record holds, each part as the text that the formatter makes of it.
pub record LogRecord : Type 0 where
  pub timestamp : Text
  pub levelname : Text
  pub name : Text
  pub message : Text
  pub exc_info : Option Text
  pub stack_info : Option Text

abbrev pub with_entry : Text → Option Text → Dict Text → Dict Text
with_entry key none payload = payload
with_entry key (some value) payload = insert key value payload

unfoldable pub payload : LogRecord → Dict Text
unfolding insert text_eq
payload r = with_entry (codes "stack_info") r.stack_info (
    with_entry (codes "exc_info") r.exc_info (
      (codes "timestamp", r.timestamp)
      ∷ (codes "level", r.levelname)
      ∷ (codes "logger", r.name)
      ∷ (codes "message", r.message)
      ∷ []))

-- A hexadecimal digit, and the four of a code.
abbrev pub hex_digit : ℕ → ℕ
hex_digit d = if ltb d 10 then 48 + d else 87 + d

abbrev pub hex4 : ℕ → Text
hex4 n =
    hex_digit (n / 4096 % 16)
    ∷ hex_digit (n / 256 % 16)
    ∷ hex_digit (n / 16 % 16)
    ∷ hex_digit (n % 16)
    ∷ []

-- \uXXXX, of which a code above 0xffff takes two.
unfoldable pub unicode_escape : ℕ → Text
unicode_escape c =
    if ltb c 65536
    then b'\\' ∷ b'u' ∷ hex4 c
    else b'\\' ∷ b'u' ∷ hex4 (55296 + (c - 65536) / 1024 % 1024)
      ++ b'\\' ∷ b'u' ∷ hex4 (56320 + (c - 65536) % 1024)

-- A character in a string of `json.dumps`.
unfoldable pub escape : ℕ → Text
unfolding unicode_escape
escape c =
    if c == 34 || c == 92
    then 92 ∷ c ∷ []
    else if c == 10
    then 92 ∷ 110 ∷ []
    else if c == 13
    then 92 ∷ 114 ∷ []
    else if c == 9
    then 92 ∷ 116 ∷ []
    else if c == 12
    then 92 ∷ 102 ∷ []
    else if c == 8
    then 92 ∷ 98 ∷ []
    else if leb 32 c && leb c 126
    then c ∷ []
    else unicode_escape c

unfoldable pub escape_all : Text → Text
unfolding escape
escape_all [] = []
escape_all (c ∷ s) = escape c ++ escape_all s

unfoldable pub dump_string : Text → Text
unfolding escape_all
dump_string s = 34 ∷ (escape_all s ++ 34 ∷ [])

-- The entries of an object, after the first with a comma before them.
unfoldable pub dump_entries : Bool → Dict Text → Text
unfolding dump_string
dump_entries first [] = []
dump_entries first ((k, v) ∷ d) =
    (if first then [] else codes ", ")
    ++ (dump_string k ++ (codes ": " ++ (dump_string v ++ dump_entries false d)))

-- json.dumps of a dict of texts
unfoldable pub dumps : Dict Text → Text
unfolding dump_entries
dumps d = 123 ∷ (dump_entries true d ++ 125 ∷ [])

-- _JsonFormatter.format
unfoldable pub format : LogRecord → Text
unfolding dumps payload
format r = dumps (payload r)
