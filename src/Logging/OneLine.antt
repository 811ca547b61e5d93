-- ===== src/Logging/OneLine.antt =====
-- A record as JSON is one line of ASCII.
use Prim.Native.Nat.{◌-◌}
use proxy_hopper_v.Common.{
  ℕ, ◌+◌, ◌/◌, ◌%◌, ◌<◌, ◌≡◌, refl, Bool, true, false, ◌&&◌, ◌||◌, [], ◌∷◌, ◌++◌, arith,
  if◌then◌else◌, leb, ltb, ◌==◌, Text, codes, Dict, All, All-append, Bool-cases, inl, inr,
}
use proxy_hopper_v.Logging.{
  LogRecord, payload, hex_digit, hex4, unicode_escape, escape, escape_all, dump_string,
  dump_entries, dumps, format,
}

-- A printable character of ASCII.
abbrev pub is_printable : ℕ → Bool
is_printable c = leb 32 c && leb c 126

abbrev pub IsOneLine : Text → Type 0
IsOneLine = All (λ c. is_printable c ≡ true)

append : (s t : Text) → IsOneLine s → IsOneLine t → IsOneLine (s ++ t)
append = All-append (λ c. is_printable c ≡ true)

hex_digit_lem : (d : ℕ) → d < 16 → is_printable (hex_digit d) ≡ true
hex_digit_lem d h = ground arith

hex4-IsOneLine : (n : ℕ) → IsOneLine (hex4 n)
hex4-IsOneLine n = (
  hex_digit_lem (n / 4096 % 16) (omega arith),
  (
    hex_digit_lem (n / 256 % 16) (omega arith),
    (hex_digit_lem (n / 16 % 16) (omega arith), (hex_digit_lem (n % 16) (omega arith), tt)),
  ),
)

unicode_escape-IsOneLine : (c : ℕ) → IsOneLine (unicode_escape c)
unfolding unicode_escape
unicode_escape-IsOneLine c = elim (Bool-cases (ltb c 65536)) [
  | inl e ↦ rw e (refl, (refl, hex4-IsOneLine c))
  | inr e ↦ rw e (
    refl,
    (
      refl,
      append (hex4 (55296 + (c - 65536) / 1024 % 1024))
          (92 ∷ 117 ∷ hex4 (56320 + (c - 65536) % 1024))
          (hex4-IsOneLine (55296 + (c - 65536) / 1024 % 1024))
          (refl, (refl, hex4-IsOneLine (56320 + (c - 65536) % 1024))),
    ),
  )
]

either :
    (b : Bool) (s t : Text)
    → (b ≡ true → IsOneLine s)
    → IsOneLine t
    → IsOneLine (if b then s else t)
either true s t h k = h refl
either false s t h k = k

escape-IsOneLine : (c : ℕ) → IsOneLine (escape c)
unfolding escape
escape-IsOneLine c =
    either (c == 34 || c == 92) _ _ (λ e. (refl, (ground arith, tt)))
      (either (c == 10) _ _ (λ e. (refl, (refl, tt)))
        (either (c == 13) _ _ (λ e. (refl, (refl, tt)))
          (either (c == 9) _ _ (λ e. (refl, (refl, tt)))
            (either (c == 12) _ _ (λ e. (refl, (refl, tt)))
              (either (c == 8) _ _ (λ e. (refl, (refl, tt)))
                (either (leb 32 c && leb c 126) _ _ (λ e. (e, tt))
                  (unicode_escape-IsOneLine c)))))))

escape_all-IsOneLine : (s : Text) → IsOneLine (escape_all s)
unfolding escape_all
escape_all-IsOneLine [] = tt
escape_all-IsOneLine (c ∷ s) =
    append (escape c) (escape_all s) (escape-IsOneLine c) (escape_all-IsOneLine s)

dump_string-IsOneLine : (s : Text) → IsOneLine (dump_string s)
unfolding dump_string
dump_string-IsOneLine s =
    (refl, append (escape_all s) (34 ∷ []) (escape_all-IsOneLine s) (refl, tt))

dump_entries-IsOneLine : (first : Bool) (d : Dict Text) → IsOneLine (dump_entries first d)
unfolding dump_entries
dump_entries-IsOneLine first [] = tt
dump_entries-IsOneLine first ((k, v) ∷ d) =
    append (if first then [] else codes ", ") _ (separator first) (
      append (dump_string k) _ (dump_string-IsOneLine k) (
        refl,
        (refl, append (dump_string v) _ (dump_string-IsOneLine v) (dump_entries-IsOneLine false d)),
      ))
  where
    separator : (first : Bool) → IsOneLine (if first then [] else codes ", ")
    separator true = tt
    separator false = (refl, (refl, tt))

-- What the JSON formatter writes of a record, whatever its parts hold, is printable ASCII: no line
-- break is in it, so a record is one line of the log.
pub format-IsOneLine : (r : LogRecord) → IsOneLine (format r)
unfolding format dumps
format-IsOneLine r = (
  refl,
  append (dump_entries true (payload r)) (125 ∷ []) (dump_entries-IsOneLine true (payload r))
      (refl, tt),
)
