-- ===== src/Server/Client/Routes.antt =====
-- From what a client writes to the handler that serves it.
use proxy_hopper_v.Common.{ℕ, ◌≡◌, refl, List, [], ◌∷◌, arith, Text}
use proxy_hopper_v.Strings.{onto}
use proxy_hopper_v.Server.Head.{Head, lines, flatten}

flatten-onto : (c : ℕ) (ls : List Text) → flatten (onto c ls) ≡ c ∷ flatten ls
flatten-onto c [] = refl
flatten-onto c (l ∷ ls) = refl

pub flatten-lines : (s : Text) → flatten (lines s) ≡ s
unfolding lines
flatten-lines [] = refl
flatten-lines (c ∷ s) = ground (arith, flatten-lines s, flatten-onto c (lines s))
