-- ===== src/Config/Loading/Durations.antt =====
-- The durations of config.py.
use proxy_hopper_v.Common.{
  ℕ, ◌≡◌, refl, none, some, [], ◌∷◌, ◌++◌, arith, ◌==◌, if◌then◌else◌, Text, Result,
}
use proxy_hopper_v.Strings.{strip, ends_with}
use proxy_hopper_v.Config.Loading.{scaled, parse_stripped, parse_duration}

ends_with-append :
    (c : ℕ) (s : Text) (x : ℕ) → ends_with c (s ++ x ∷ []) ≡ (if x == c then some s else none)
unfolding ends_with
ends_with-append c [] x = refl
ends_with-append c (a ∷ []) x = ground arith
ends_with-append c (a ∷ b ∷ s) x = ground (arith, ends_with-append c (b ∷ s) x)

-- A duration without spaces around it: the unit is its last character, hours and minutes are scaled
-- to seconds, an "s" is taken off, and without a unit the whole text is the number.
pub parse_duration-unit :
    (F : Type 0) (float : Text → Result F) (times : F → ℕ → F) (s : Text) (unit : ℕ)
    → strip (s ++ unit ∷ []) ≡ s ++ unit ∷ []
    → parse_duration F float times (s ++ unit ∷ []) ≡ (
        if unit == b'h'
        then scaled F float times 3600 (float s)
        else if unit == b'm'
        then scaled F float times 60 (float s)
        else if unit == b's'
        then float s
        else float (s ++ unit ∷ []))
unfolding parse_duration parse_stripped
parse_duration-unit F float times s unit h = ground (
  arith,
  h,
  ends_with-append b'h' s unit,
  ends_with-append b'm' s unit,
  ends_with-append b's' s unit,
)
