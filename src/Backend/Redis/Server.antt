-- ===== src/Backend/Redis/Server.antt =====
-- A server of one process that does what the documentation of Redis says of the commands.
pub mod Laws
use proxy_hopper_v.Common.{
  ℕ, suc, ◌+◌, ◌≡◌, refl, sym, ◌∙◌, ap, subst, ◌&&◌, ◌++◌, not, fun_ext, inl, inr, Bool, true,
  false, Option, none, some, List, [], ◌∷◌, arith, leb, if◌then◌else◌, ◌==◌, Bool-cases,
  Option-cases, bit, length, Text, codes, text_eq, text_eq_iff, text_eq_refl, count, Result, ok,
  err, other_error, Exec, Dict, lookup, insert, delete, keys, HasUniqueKeys, lookup-insert,
  lookup-delete, insert-HasUniqueKeys,
}
use proxy_hopper_v.Strings.Ints.{ℤ, pos, negsuc, show_nat}
use proxy_hopper_v.Backend.{update, is_some}
use proxy_hopper_v.Backend.Memory.Expiry.{count-keys}
use proxy_hopper_v.Backend.Redis.Commands.{
  Client, IsDocumented, Item, string_item, list_item, sorted_set, Wrote, Read, as_list, as_count,
  as_scores, as_string, in_range,
}

abbrev pub Held : Type 0
Held = Text → Option Item

-- The state with another item at `k`.
unfoldable pub store : {A : Type 0} → Text → Item → A → Held → Result A × Held
store k i r s = (ok r, update s k (some i))

-- The same state, with the result `r`.
abbrev pub answer : {A : Type 0} → A → Held → Result A × Held
answer r s = (ok r, s)

-- A command on a value of another type.
abbrev pub wrong_type : {A : Type 0} → Held → Result A × Held
wrong_type s = (err (other_error (codes "WRONGTYPE")), s)

abbrev pub typed : {A B : Type 0} → Option A → (A → Held → Result B × Held) → Held → Result B × Held
typed none f s = wrong_type s
typed (some a) f s = f a s

unfoldable pub setnx : Text → Text → Exec Held Bool
setnx k x s = elim (s k) [ none ↦ store k (string_item x) true s | some i ↦ answer false s ]

unfoldable pub expire : Text → ℕ → Exec Held Bool
expire k seconds s = answer (is_some (s k)) s

unfoldable pub lapse : Text → Held → Held
lapse k s = update s k none

unfoldable pub rpush : Text → Text → Exec Held ℕ
rpush k a s =
    typed (as_list (s k)) (λ xs. store k (list_item (xs ++ a ∷ [])) (length (xs ++ a ∷ []))) s

unfoldable pub blpop : Text → ℕ → Exec Held (Option (Text × Text))
blpop k seconds s =
    typed (as_list (s k))
      (λ xs. elim xs [ [] ↦ answer none | a ∷ rest ↦ store k (list_item rest) (some (k, a)) ]) s

unfoldable pub llen : Text → Exec Held ℕ
llen k s = typed (as_list (s k)) (λ xs. answer (length xs)) s

unfoldable pub incr : Text → Exec Held ℕ
incr k s = typed (as_count (s k)) (λ n. store k (string_item (show_nat (n + 1))) (n + 1)) s

unfoldable pub put : Text → Text → Exec Held (Unit {0})
put k x s = store k (string_item x) tt s

unfoldable pub get : Text → Exec Held (Option Text)
get k s = typed (as_string (s k)) answer s

-- The entries of a sorted set, each member once.
unfoldable pub unique : Dict ℕ → Dict ℕ
unique [] = []
unique ((a, n) ∷ d) = insert a n (unique d)

abbrev pub entries : Option Item → Option (Dict ℕ)
entries none = some []
entries (some (sorted_set d)) = some (unique d)
entries (some (string_item x)) = none
entries (some (list_item xs)) = none

unfoldable pub zadd : Text → Text → ℕ → Exec Held ℕ
zadd k a n s =
    typed (entries (s k))
      (λ d. store k (sorted_set (insert a n d)) (bit (not (is_some (lookup a d))))) s

unfoldable pub within : ℕ → ℕ → Dict ℕ → List Text
within lo hi [] = []
within lo hi ((a, n) ∷ d) =
    let rest = within lo hi d in if leb lo n && leb n hi then a ∷ rest else rest

unfoldable pub zrangebyscore : Text → ℕ → ℕ → Exec Held (List Text)
zrangebyscore k lo hi s = typed (entries (s k)) (λ d. answer (within lo hi d)) s

unfoldable pub zrem : Text → Text → Exec Held ℕ
zrem k a s =
    typed (entries (s k)) (λ d. store k (sorted_set (delete a d)) (bit (is_some (lookup a d)))) s

-- Of all entries, the only range that is asked for.
unfoldable pub zrange : Text → ℤ → ℤ → Exec Held (List Text)
zrange k first last s = typed (entries (s k)) (λ d. answer (keys d)) s

abbrev pub client : Client
client = record {
  Server = Held;
  setnx = setnx;
  expire = expire;
  lapse = lapse;
  rpush = rpush;
  blpop = blpop;
  llen = llen;
  incr = incr;
  put = put;
  get = get;
  zadd = zadd;
  zrangebyscore = zrangebyscore;
  zrem = zrem;
  zrange = zrange;
}
