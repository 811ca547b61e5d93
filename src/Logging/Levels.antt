-- ===== src/Logging/Levels.antt =====
-- The level that `configure_logging` of logging_config.py sets.
use proxy_hopper_v.Common.{
  ℕ, ◌≡◌, refl, ap, Bool, true, ◌||◌, Option, none, some, List, [], ◌∷◌, ◌++◌, arith, if◌then◌else◌,
  leb, Text, codes, text_eq, text_eq_iff, lookup, Result, ok, Dict, Bool-cases, Option-cases, inl,
  inr,
}
use proxy_hopper_v.Strings.{upper, lower}
use proxy_hopper_v.Logging.{
  Root, numeric_level, level_names, trace_level, configure_logging, opened, file_of, trace,
  choose_formatter, json_formatter, text_formatter,
}

-- The names of the levels at which `trace` writes.
abbrev is_low : Text → Bool
is_low name = text_eq name (codes "TRACE") || text_eq name (codes "NOTSET")

abbrev Agrees : Dict ℕ → Type 0
Agrees [] = Unit
Agrees ((name, n) ∷ d) = (leb n trace_level ≡ is_low name) × Agrees d

lookup-is_low :
    (u : Text) (d : Dict ℕ) (n : ℕ) → Agrees d → lookup u d ≡ some n → leb n trace_level ≡ is_low u
unfolding lookup
lookup-is_low u [] n h e = cc
lookup-is_low u ((name, m) ∷ d) n h e = elim (Bool-cases (text_eq u name)) [
  | inl p ↦ ground (arith, text_eq_iff u name, h.0)
  | inr p ↦ lookup-is_low u d n h.1 (ground (arith, e, p))
]

names-Agree : Agrees level_names
unfolding text_eq
names-Agree = (refl, (refl, (refl, (refl, (refl, (refl, (refl, (refl, (refl, tt)))))))))

known : (u : Text) → is_low u ≡ true → (n : ℕ) × (lookup u level_names ≡ some n)
unfolding lookup text_eq
known u h = elim (Bool-cases (text_eq u (codes "TRACE"))) [
  | inl e ↦ (5, rw ((text_eq_iff u (codes "TRACE")).0 e) refl)
  | inr e ↦
      let p : text_eq u (codes "NOTSET") ≡ true = ground (arith, h, e) in
      (0, rw ((text_eq_iff u (codes "NOTSET")).0 p) refl)
]

abbrev or_info : Option ℕ → ℕ
or_info none = 20
or_info (some n) = n

numeric_level-lookup :
    (level : Text) (o : Option ℕ)
    → lookup (upper level) level_names ≡ o
    → numeric_level level ≡ or_info o
unfolding numeric_level lookup
numeric_level-lookup level o e = ap or_info e

numeric_level_lem : (level : Text) → leb (numeric_level level) trace_level ≡ is_low (upper level)
numeric_level_lem level = elim (Option-cases (lookup (upper level) level_names)) [
  | inl e ↦ elim (Bool-cases (is_low (upper level))) [
    | inl p ↦ absurd (ground (arith, e, (known (upper level) p).1))
    | inr p ↦ rw (numeric_level-lookup level none e, p) refl
  ]
  | inr (n, e) ↦
      rw (numeric_level-lookup level (some n) e)
        (lookup-is_low (upper level) level_names n names-Agree e)
]

-- The file that is asked for: a path that is not empty.
abbrev pub asked_file : Option Text → Option Text
asked_file none = none
asked_file (some []) = none
asked_file (some (c ∷ path)) = some (c ∷ path)

file_of-asked_file : (log_file : Option Text) → file_of log_file ≡ asked_file log_file
file_of-asked_file none = refl
file_of-asked_file (some []) = refl
file_of-asked_file (some (c ∷ path)) = refl

choose_formatter_lem :
    (log_format : Text)
    → choose_formatter log_format
      ≡ (if text_eq (lower log_format) (codes "json") then json_formatter else text_formatter)
unfolding choose_formatter
choose_formatter_lem log_format = refl

-- Whatever the root logger was set to before: after `configure_logging`, whose log file can be
-- opened, it has one handler, which writes to that file, or to stderr if none or an empty path was
-- given, in JSON exactly if the format is "json", in letters of any case, and otherwise as text; and a
-- message of `trace` is written exactly if the level is TRACE or NOTSET, in letters of any case.
pub configure_logging-trace :
    (opens : Text → Result (Unit {0})) (level : Text) (log_file : Option Text) (log_format : Text)
    (root : Root) (message : Text) (written : List Text)
    → opened opens (asked_file log_file) ≡ ok tt
    → let out = configure_logging opens level log_file log_format root in
      (out.0 ≡ ok tt)
      × (out.1.handlers
          ≡ (record {
            file = asked_file log_file;
            formatter =
                if text_eq (lower log_format) (codes "json")
                then json_formatter
                else text_formatter;
          })
            ∷ [])
      × (trace out.1 message written ≡ (
          if text_eq (upper level) (codes "TRACE") || text_eq (upper level) (codes "NOTSET")
          then written ++ message ∷ []
          else written))
unfolding configure_logging trace
configure_logging-trace opens level log_file log_format root message written h =
    rw (file_of-asked_file log_file, h, numeric_level_lem level, choose_formatter_lem log_format)
      (refl, refl, refl)
