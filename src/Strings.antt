-- ===== src/Strings.antt =====
-- The methods of Python's `str` that the program calls, over lists of code points.
pub mod Ints
pub mod Laws
use Prim.Native.Nat.{◌-◌}
use proxy_hopper_v.Common.{
  ℕ, ◌+◌, Bool, true, false, ◌&&◌, ◌||◌, Option, none, some, List, [], ◌∷◌, ◌++◌, leb, ◌==◌,
  if◌then◌else◌, Text,
}
use mathlib.Core.List.{reverse}

abbrev pub between : ℕ → ℕ → ℕ → Bool
between lo hi c = leb lo c && leb c hi

-- c.isspace()
unfoldable pub is_space : ℕ → Bool
is_space c =
    between 9 13 c
    || between 28 32 c
    || c == 0x85
    || c == 0xa0
    || c == 0x1680
    || between 0x2000 0x200a c
    || c == 0x2028
    || c == 0x2029
    || c == 0x202f
    || c == 0x205f
    || c == 0x3000

-- s.lstrip() for the characters that `p` accepts
unfoldable pub lstrip : (ℕ → Bool) → Text → Text
lstrip p [] = []
lstrip p (c ∷ s) = let rest = lstrip p s in if p c then rest else c ∷ s

-- s.rstrip(…)
unfoldable pub rstrip : (ℕ → Bool) → Text → Text
unfolding lstrip
rstrip p s = reverse (lstrip p (reverse s))

-- s.strip()
unfoldable pub strip : Text → Text
unfolding is_space rstrip
strip s = rstrip is_space (lstrip is_space s)

-- s.lower(), for the letters of Latin-1
unfoldable pub lower : Text → Text
lower [] = []
lower (c ∷ s) =
    (if between 65 90 c || (between 192 222 c && (if c == 215 then false else true))
      then c + 32
      else c)
    ∷ lower s

-- s.upper(), for the letters of ASCII
unfoldable pub upper : Text → Text
upper [] = []
upper (c ∷ s) = (if between 97 122 c then c - 32 else c) ∷ upper s

-- sep in s, for one character
unfoldable pub has : ℕ → Text → Bool
has sep [] = false
has sep (c ∷ s) = if c == sep then true else has sep s

-- s.partition(sep)[0] and [2]
unfoldable pub partition : ℕ → Text → Text × Text
partition sep [] = ([], [])
partition sep (c ∷ s) =
    let rest = partition sep s in if c == sep then ([], s) else (c ∷ rest.0, rest.1)

-- s.rpartition(sep)[0] and [2]; a text without the separator is all tail.
unfoldable pub rpartition : ℕ → Text → Text × Text
unfolding has
rpartition sep [] = ([], [])
rpartition sep (c ∷ s) =
    let rest = rpartition sep s in
    if has sep s then (c ∷ rest.0, rest.1) else if c == sep then ([], s) else ([], c ∷ s)

-- s.split(sep)
abbrev pub onto : ℕ → List Text → List Text
onto c [] = (c ∷ []) ∷ []
onto c (w ∷ ws) = (c ∷ w) ∷ ws

unfoldable pub split : ℕ → Text → List Text
split sep [] = [] ∷ []
split sep (c ∷ s) = let rest = split sep s in if c == sep then [] ∷ rest else onto c rest

-- s.split(sep, 2) of a text that has both separators: its three parts.
unfoldable pub split_twice : ℕ → Text → Option (Text × Text × Text)
unfolding has partition
split_twice sep s =
    let rest = (partition sep s).1 in
    if has sep s && has sep rest
    then some ((partition sep s).0, (partition sep rest).0, (partition sep rest).1)
    else none

-- s.endswith(…) of one character, with s[:-1]
unfoldable pub ends_with : ℕ → Text → Option Text
ends_with c [] = none
ends_with c (x ∷ []) = if x == c then some [] else none
ends_with c (x ∷ y ∷ s) = elim (ends_with c (y ∷ s)) [ none ↦ none | some front ↦ some (x ∷ front) ]
