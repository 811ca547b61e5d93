-- ===== src/Backend/Redis/Commands.antt =====
-- The commands of redis-py that proxy_hopper_redis/backend.py calls, and what the documentation of
-- Redis says of them for a key that holds a value of the command's type.
use proxy_hopper_v.Common.{
  ℕ, ◌+◌, ◌<◌, ◌≡◌, Bool, true, false, not, ◌&&◌, Option, none, some, List, [], ◌∷◌, ◌++◌, leb, bit,
  Text, text_eq, length, count, Dict, lookup, Result, ok, Exec,
}
use proxy_hopper_v.Strings.Ints.{ℤ, pos, negsuc, parse_int, show_nat}
use proxy_hopper_v.Backend.{update, is_some}

-- The client, over the states of the server that it is connected to.
pub record Client : Type 1 where
  pub Server : Type 0
  pub setnx : Text → Text → Exec Server Bool
  -- seconds
  pub expire : Text → ℕ → Exec Server Bool
  -- no command: the time to live that EXPIRE gave to a key is over
  pub lapse : Text → Server → Server
  pub rpush : Text → Text → Exec Server ℕ
  -- one key, and a timeout in seconds; the key comes with the element
  pub blpop : Text → ℕ → Exec Server (Option (Text × Text))
  pub llen : Text → Exec Server ℕ
  pub incr : Text → Exec Server ℕ
  -- SET
  pub put : Text → Text → Exec Server (Unit {0})
  pub get : Text → Exec Server (Option Text)
  -- one member with its score
  pub zadd : Text → Text → ℕ → Exec Server ℕ
  pub zrangebyscore : Text → ℕ → ℕ → Exec Server (List Text)
  pub zrem : Text → Text → Exec Server ℕ
  pub zrange : Text → ℤ → ℤ → Exec Server (List Text)

-- What a key holds; a sorted set by its members with their scores.
pub data Item : Type 0 where
  string_item : Text → Item
  list_item : List Text → Item
  sorted_set : Dict ℕ → Item

-- A key as a list, a counter, or a sorted set. A missing key is an empty one; none says that the
-- type is another.
abbrev pub as_list : Option Item → Option (List Text)
as_list none = some []
as_list (some (list_item xs)) = some xs
as_list (some (string_item x)) = none
as_list (some (sorted_set d)) = none

abbrev pub natural : Option ℤ → Option ℕ
natural none = none
natural (some (pos n)) = some n
natural (some (negsuc n)) = none

abbrev pub as_count : Option Item → Option ℕ
as_count none = some 0
as_count (some (string_item x)) = natural (parse_int x)
as_count (some (list_item xs)) = none
as_count (some (sorted_set d)) = none

abbrev pub as_scores : Option Item → Option (Text → Option ℕ)
as_scores none = some (λ a. none)
as_scores (some (sorted_set d)) = some (λ a. lookup a d)
as_scores (some (string_item x)) = none
as_scores (some (list_item xs)) = none

abbrev pub as_string : Option Item → Option (Option Text)
as_string none = some none
as_string (some (string_item x)) = some (some x)
as_string (some (list_item xs)) = none
as_string (some (sorted_set d)) = none

abbrev pub in_range : ℕ → ℕ → Option ℕ → Bool
in_range lo hi none = false
in_range lo hi (some n) = leb lo n && leb n hi

module _ {Server : Type 0} (holds : Server → Text → Option Item) where
  -- `out`, reached from `s` by a command on the key `k`, returned `r` and left every other key.
  pub record Wrote {A : Type 0} (s : Server) (k : Text) (out : Result A × Server) (r : A)
      : Type 0 where
    pub returned : out.0 ≡ ok r
    pub others : (u : Text) → text_eq k u ≡ false → holds out.1 u ≡ holds s u

  -- `out`, reached from `s`, returned `r` and left every key.
  pub record Read {A : Type 0} (s : Server) (out : Result A × Server) (r : A) : Type 0 where
    pub returned : out.0 ≡ ok r
    pub same : (u : Text) → holds out.1 u ≡ holds s u

pub record IsDocumented (c : Client) : Type 1 where
  pub holds : c.Server → Text → Option Item
  pub setnx_new :
      (s : c.Server) (k x : Text)
      → holds s k ≡ none
      → Wrote holds s k (c.setnx k x s) true × (holds (c.setnx k x s).1 k ≡ some (string_item x))
  pub setnx_held :
      (s : c.Server) (k x : Text) (i : Item)
      → holds s k ≡ some i
      → Read holds s (c.setnx k x s) false
  -- The key stays until its time is over, and is gone then. Between two such moments nothing but a
  -- command changes what a key holds.
  pub expire :
      (s : c.Server) (k : Text) (seconds : ℕ)
      → Read holds s (c.expire k seconds s) (is_some (holds s k))
  pub lapse :
      (s : c.Server) (k : Text)
      → (holds (c.lapse k s) k ≡ none)
        × ((u : Text) → text_eq k u ≡ false → holds (c.lapse k s) u ≡ holds s u)
  pub rpush :
      (s : c.Server) (k a : Text) (xs : List Text)
      → as_list (holds s k) ≡ some xs
      → Wrote holds s k (c.rpush k a s) (length (xs ++ a ∷ []))
        × (as_list (holds (c.rpush k a s).1 k) ≡ some (xs ++ a ∷ []))
  pub blpop_empty :
      (s : c.Server) (k : Text) (seconds : ℕ)
      → 0 < seconds
      → as_list (holds s k) ≡ some []
      → Read holds s (c.blpop k seconds s) none
  pub blpop_next :
      (s : c.Server) (k : Text) (seconds : ℕ) (a : Text) (rest : List Text)
      → as_list (holds s k) ≡ some (a ∷ rest)
      → Wrote holds s k (c.blpop k seconds s) (some (k, a))
        × (as_list (holds (c.blpop k seconds s).1 k) ≡ some rest)
  pub llen :
      (s : c.Server) (k : Text) (xs : List Text)
      → as_list (holds s k) ≡ some xs
      → Read holds s (c.llen k s) (length xs)
  pub incr :
      (s : c.Server) (k : Text) (n : ℕ)
      → as_count (holds s k) ≡ some n
      → Wrote holds s k (c.incr k s) (n + 1)
        × (holds (c.incr k s).1 k ≡ some (string_item (show_nat (n + 1))))
  pub put :
      (s : c.Server) (k x : Text)
      → Wrote holds s k (c.put k x s) tt × (holds (c.put k x s).1 k ≡ some (string_item x))
  pub get :
      (s : c.Server) (k : Text) (x : Option Text)
      → as_string (holds s k) ≡ some x
      → Read holds s (c.get k s) x
  pub zadd :
      (s : c.Server) (k a : Text) (n : ℕ) (f : Text → Option ℕ)
      → as_scores (holds s k) ≡ some f
      → Wrote holds s k (c.zadd k a n s) (bit (not (is_some (f a))))
        × (as_scores (holds (c.zadd k a n s).1 k) ≡ some (update f a (some n)))
  pub zrangebyscore :
      (s : c.Server) (k : Text) (lo hi : ℕ) (f : Text → Option ℕ)
      → as_scores (holds s k) ≡ some f
      → (xs : List Text) × ((a : Text) → count a xs ≡ bit (in_range lo hi (f a)))
        × Read holds s (c.zrangebyscore k lo hi s) xs
  pub zrem :
      (s : c.Server) (k a : Text) (f : Text → Option ℕ)
      → as_scores (holds s k) ≡ some f
      → Wrote holds s k (c.zrem k a s) (bit (is_some (f a)))
        × (as_scores (holds (c.zrem k a s).1 k) ≡ some (update f a none))
  -- from the first to the last
  pub zrange :
      (s : c.Server) (k : Text) (f : Text → Option ℕ)
      → as_scores (holds s k) ≡ some f
      → (xs : List Text) × ((a : Text) → count a xs ≡ bit (is_some (f a)))
        × Read holds s (c.zrange k (pos 0) (negsuc 0) s) xs
