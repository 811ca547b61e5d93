-- ===== src/Strings/Laws.antt =====
-- Laws of the text methods: printing and reading of numbers, and the split at the last separator.
use proxy_hopper_v.Common.{
  ℕ, zero, suc, ◌+◌, ◌/◌, ◌%◌, ◌<◌, ◌≡◌, refl, ◌∙◌, true, false, some, [], ◌∷◌, ◌++◌, arith, ltb,
  Bool-cases, inl, inr, Text, All, All-append,
}
use mathlib.Core.List.{reverse, reverse-cons, reverse-reverse}
use proxy_hopper_v.Strings.{is_space, lstrip, rstrip, strip, has, rpartition}
use proxy_hopper_v.Strings.Ints.{
  ℤ, pos, negsuc, is_digit, digits, parse_signed, parse_int, show_digits, show_nat, show_int,
}

abbrev pub AllDigits : Text → Type 0
AllDigits = All (λ c. is_digit c ≡ true)

show_digits-AllDigits :
    (fuel n : ℕ) (rest : Text) → AllDigits rest → AllDigits (show_digits fuel n rest)
unfolding show_digits
show_digits-AllDigits zero n rest h = h
show_digits-AllDigits (suc fuel) n rest h = elim (Bool-cases (ltb n 10)) [
  | inl e ↦ rw e (ground arith, h)
  | inr e ↦ rw e (show_digits-AllDigits fuel (n / 10) _ (ground arith, h))
]

-- Reading what was printed, with the digits that follow.
digits-show_digits :
    (fuel n : ℕ) (rest : Text)
    → n < fuel
    → digits false 0 (show_digits fuel n rest) ≡ digits true n rest
unfolding digits show_digits
digits-show_digits zero n rest h = absurd (omega arith)
digits-show_digits (suc fuel) n rest h = elim (Bool-cases (ltb n 10)) [
  | inl e ↦ rw e (ground arith)
  | inr e ↦
      rw e (digits-show_digits fuel (n / 10) ((48 + n % 10) ∷ rest) (ground arith) ∙ ground arith)
]

pub show_nat-AllDigits : (n : ℕ) → AllDigits (show_nat n)
unfolding show_nat
show_nat-AllDigits n = show_digits-AllDigits (suc n) n [] tt

digits-show_nat : (n : ℕ) → digits false 0 (show_nat n) ≡ some n
unfolding show_nat digits
digits-show_nat n = digits-show_digits (suc n) n [] (omega arith)

abbrev NoSpace : Text → Type 0
NoSpace = All (λ c. is_space c ≡ false)

lstrip-NoSpace : (s : Text) → NoSpace s → lstrip is_space s ≡ s
unfolding lstrip
lstrip-NoSpace [] h = refl
lstrip-NoSpace (c ∷ s) h = rw h.0

All-reverse : (P : ℕ → Type 0) (s : Text) → All P s → All P (reverse s)
All-reverse P [] h = tt
All-reverse P (c ∷ s) h =
    rw (reverse-cons c s) (All-append P (reverse s) (c ∷ []) (All-reverse P s h.1) (h.0, tt))

strip-NoSpace : (s : Text) → NoSpace s → strip s ≡ s
unfolding strip rstrip
strip-NoSpace s h =
    rw (lstrip-NoSpace s h, lstrip-NoSpace (reverse s) (All-reverse _ s h)) (reverse-reverse s)

digit_no_space : (c : ℕ) → is_digit c ≡ true → is_space c ≡ false
unfolding is_space
digit_no_space c h = ground arith

AllDigits-NoSpace : (s : Text) → AllDigits s → NoSpace s
AllDigits-NoSpace [] h = tt
AllDigits-NoSpace (c ∷ s) h = (digit_no_space c h.0, AllDigits-NoSpace s h.1)

parse_signed-AllDigits :
    (s : Text) {n : ℕ} → AllDigits s → digits false 0 s ≡ some n → parse_signed s ≡ some (pos n)
unfolding parse_signed digits
parse_signed-AllDigits [] h e = cc
parse_signed-AllDigits (c ∷ s) h e = ground arith

minus_no_space : is_space b'-' ≡ false
unfolding is_space
minus_no_space = refl

-- A printed number is read back.
pub parse_int-show_int : (z : ℤ) → parse_int (show_int z) ≡ some z
unfolding parse_int show_int parse_signed
parse_int-show_int (pos n) =
    rw (strip-NoSpace (show_nat n) (AllDigits-NoSpace _ (show_nat-AllDigits n)))
      (parse_signed-AllDigits (show_nat n) (show_nat-AllDigits n) (digits-show_nat n))
parse_int-show_int (negsuc n) = rw (
  strip-NoSpace (b'-' ∷ show_nat (suc n))
      (minus_no_space, AllDigits-NoSpace _ (show_nat-AllDigits (suc n))),
  digits-show_nat (suc n),
)

has-AllDigits : (s : Text) → AllDigits s → has b':' s ≡ false
unfolding has
has-AllDigits [] h = refl
has-AllDigits (c ∷ s) h = ground (arith, has-AllDigits s h.1)

-- A printed number holds no colon.
pub has-show_int : (z : ℤ) → has b':' (show_int z) ≡ false
unfolding show_int has
has-show_int (pos n) = has-AllDigits (show_nat n) (show_nat-AllDigits n)
has-show_int (negsuc n) = has-AllDigits (show_nat (suc n)) (show_nat-AllDigits (suc n))

pub has-append_sep : (sep : ℕ) (s t : Text) → has sep (s ++ sep ∷ t) ≡ true
unfolding has
has-append_sep sep [] t = ground arith
has-append_sep sep (c ∷ s) t = ground (arith, has-append_sep sep s t)

-- The split is at the last separator.
pub rpartition-append :
    (sep : ℕ) (s t : Text) → has sep t ≡ false → rpartition sep (s ++ sep ∷ t) ≡ (s, t)
unfolding rpartition
rpartition-append sep [] t h = ground arith
rpartition-append sep (c ∷ s) t h = rw (has-append_sep sep s t, rpartition-append sep s t h)
