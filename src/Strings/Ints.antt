-- ===== src/Strings/Ints.antt =====
-- Python's `int` and `str` between texts and whole numbers.
use Prim.Native.Nat.{◌-◌}
use proxy_hopper_v.Common.{
  ℕ, zero, suc, ◌+◌, ◌*◌, ◌/◌, ◌%◌, Bool, true, false, ◌&&◌, Option, none, some, [], ◌∷◌, ltb, ◌==◌,
  if◌then◌else◌, Text,
}
use proxy_hopper_v.Strings.{between, strip}

-- `negsuc n` is -(n + 1).
pub data ℤ : Type 0 where
  pos : ℕ → ℤ
  negsuc : ℕ → ℤ

abbrev pub is_digit : ℕ → Bool
is_digit c = between 48 57 c

-- Digits with single underscores between them; `seen` says that a digit stands before.
unfoldable pub digits : Bool → ℕ → Text → Option ℕ
digits seen n [] = if seen then some n else none
digits seen n (c ∷ s) =
    let next = digits true (n * 10 + (c - 48)) s in
    let gap = digits false n s in
    if is_digit c then next else if c == b'_' && seen then gap else none

abbrev negate : ℕ → ℤ
negate zero = pos 0
negate (suc n) = negsuc n

abbrev signed : (ℕ → ℤ) → Option ℕ → Option ℤ
signed f none = none
signed f (some n) = some (f n)

unfoldable pub parse_signed : Text → Option ℤ
unfolding digits
parse_signed [] = none
parse_signed (c ∷ s) =
    if c == b'-'
    then signed negate (digits false 0 s)
    else if c == b'+'
    then signed pos (digits false 0 s)
    else signed pos (digits false 0 (c ∷ s))

-- int(s); `none` is ValueError
unfoldable pub parse_int : Text → Option ℤ
unfolding parse_signed strip
parse_int s = parse_signed (strip s)

-- str(n), with fuel; what is bound by `let` waits.
unfoldable pub show_digits : ℕ → ℕ → Text → Text
show_digits zero n rest = rest
show_digits (suc fuel) n rest =
    let more = show_digits fuel (n / 10) ((48 + n % 10) ∷ rest) in
    if ltb n 10 then (48 + n) ∷ rest else more

unfoldable pub show_nat : ℕ → Text
unfolding show_digits
show_nat n = show_digits (suc n) n []

unfoldable pub show_int : ℤ → Text
unfolding show_nat
show_int (pos n) = show_nat n
show_int (negsuc n) = b'-' ∷ show_nat (suc n)
