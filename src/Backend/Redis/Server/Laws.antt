-- ===== src/Backend/Redis/Server/Laws.antt =====
-- The commands of the server in Backend/Redis/Server do what the documentation of Redis says.
use proxy_hopper_v.Common.{
  ℕ, ◌+◌, ◌≡◌, refl, ap, ◌++◌, not, fun_ext, true, false, Option, none, some, List, [], ◌∷◌, arith,
  bit, length, Text, text_eq, text_eq_iff, text_eq_refl, count, ok, Dict, lookup, insert, delete,
  keys, HasUniqueKeys, lookup-insert, lookup-delete, insert-HasUniqueKeys,
}
use proxy_hopper_v.Strings.Ints.{pos, negsuc, show_nat}
use proxy_hopper_v.Backend.{update, is_some}
use proxy_hopper_v.Backend.Memory.Expiry.{count-keys}
use proxy_hopper_v.Backend.Redis.Commands.{
  IsDocumented, Item, string_item, list_item, sorted_set, Wrote, Read, as_list, as_count, as_scores,
  as_string, in_range,
}
use proxy_hopper_v.Backend.Redis.Server.{
  Held, store, setnx, expire, lapse, rpush, blpop, llen, incr, put, get, unique, entries, zadd,
  within, zrangebyscore, zrem, zrange, client,
}

store-Wrote :
    {A : Type 0} (s : Held) (k : Text) (i : Item) (r : A)
    → Wrote (λ (s : Held). s) s k (store k i r s) r × ((store k i r s).1 k ≡ some i)
unfolding store
store-Wrote s k i r = (record { returned = refl; others = λ u e. rw e refl }, rw (text_eq_refl k))

answer-Read : {A : Type 0} (s : Held) (r : A) → Read (λ (s : Held). s) s (ok r, s) r
answer-Read s r = record { returned = refl; same = λ u. refl }

lookup-unique : (a : Text) (d : Dict ℕ) → lookup a (unique d) ≡ lookup a d
unfolding unique lookup
lookup-unique a [] = refl
lookup-unique a ((b, n) ∷ d) =
    ground
      (arith, lookup-insert b a n (unique d), lookup-unique a d, text_eq_iff a b, text_eq_iff b a)

unique-HasUniqueKeys : (d : Dict ℕ) → HasUniqueKeys (unique d)
unfolding unique
unique-HasUniqueKeys [] = tt
unique-HasUniqueKeys ((a, n) ∷ d) = insert-HasUniqueKeys a n (unique d) (unique-HasUniqueKeys d)

count-within :
    (lo hi : ℕ) (a : Text) (d : Dict ℕ)
    → HasUniqueKeys d
    → count a (within lo hi d) ≡ bit (in_range lo hi (lookup a d))
unfolding count within lookup
count-within lo hi a [] h = refl
count-within lo hi a ((b, n) ∷ d) h = ground (arith, text_eq_iff a b, count-within lo hi a d h.1)

-- A key as a sorted set: its entries, each member once.
scored :
    (i : Option Item) (f : Text → Option ℕ)
    → as_scores i ≡ some f
    → (d : Dict ℕ) × (entries i ≡ some d) × HasUniqueKeys d × ((a : Text) → lookup a d ≡ f a)
unfolding lookup
scored none f e = ([], refl, tt, λ a. ground arith)
scored (some (string_item x)) f e = cc
scored (some (list_item x)) f e = cc
scored (some (sorted_set d)) f e =
    (unique d, refl, unique-HasUniqueKeys d, λ a. ground (arith, lookup-unique a d))

same_scores :
    (f g : Text → Option ℕ) (x : Text) (o : Option ℕ)
    → ((a : Text) → g a ≡ f a)
    → (d : Dict ℕ) → ((a : Text) → lookup a d ≡ update g x o a)
    → (λ a. lookup a d) ≡ update f x o
same_scores f g x o h d e = fun_ext λ a. ground (arith, e a, h a)

pub zadd_lem :
    (s : Held) (k a : Text) (n : ℕ) (f : Text → Option ℕ)
    → as_scores (s k) ≡ some f
    → Wrote (λ (s : Held). s) s k (zadd k a n s) (bit (not (is_some (f a))))
      × (as_scores ((zadd k a n s).1 k) ≡ some (update f a (some n)))
unfolding zadd
zadd_lem s k a n f e =
    let (d, p, h, l) = scored (s k) f e in
    let (w, q) = store-Wrote s k (sorted_set (insert a n d)) (bit (not (is_some (lookup a d)))) in
    rw (p, ← l a)
      (
        w,
        rw q (
            ap some (
              same_scores f (λ a. lookup a d) a (some n) l (insert a n d)
                (λ b. lookup-insert a b n d))),
      )

pub zrem_lem :
    (s : Held) (k a : Text) (f : Text → Option ℕ)
    → as_scores (s k) ≡ some f
    → Wrote (λ (s : Held). s) s k (zrem k a s) (bit (is_some (f a)))
      × (as_scores ((zrem k a s).1 k) ≡ some (update f a none))
unfolding zrem
zrem_lem s k a f e =
    let (d, p, h, l) = scored (s k) f e in
    let (w, q) = store-Wrote s k (sorted_set (delete a d)) (bit (is_some (lookup a d))) in
    rw (p, ← l a)
      (
        w,
        rw q (
            ap some
              (same_scores f (λ a. lookup a d) a none l (delete a d) (λ b. lookup-delete a b d))),
      )

pub zrangebyscore_lem :
    (s : Held) (k : Text) (lo hi : ℕ) (f : Text → Option ℕ)
    → as_scores (s k) ≡ some f
    → (xs : List Text) × ((a : Text) → count a xs ≡ bit (in_range lo hi (f a)))
      × Read (λ (s : Held). s) s (zrangebyscore k lo hi s) xs
unfolding zrangebyscore
zrangebyscore_lem s k lo hi f e =
    let (d, p, h, l) = scored (s k) f e in
    (within lo hi d, λ a. rw (← l a) (count-within lo hi a d h), rw p (answer-Read s _))

pub zrange_lem :
    (s : Held) (k : Text) (f : Text → Option ℕ)
    → as_scores (s k) ≡ some f
    → (xs : List Text) × ((a : Text) → count a xs ≡ bit (is_some (f a)))
      × Read (λ (s : Held). s) s (zrange k (pos 0) (negsuc 0) s) xs
unfolding zrange
zrange_lem s k f e =
    let (d, p, h, l) = scored (s k) f e in
    (keys d, λ a. rw (← l a) (count-keys a d h), rw p (answer-Read s _))

pub rpush_lem :
    (s : Held) (k a : Text) (xs : List Text)
    → as_list (s k) ≡ some xs
    → Wrote (λ (s : Held). s) s k (rpush k a s) (length (xs ++ a ∷ []))
      × (as_list ((rpush k a s).1 k) ≡ some (xs ++ a ∷ []))
unfolding rpush
rpush_lem s k a xs e =
    let (w, q) = store-Wrote s k (list_item (xs ++ a ∷ [])) (length (xs ++ a ∷ [])) in
    rw e (w, rw q)

pub blpop_lem :
    (s : Held) (k : Text) (seconds : ℕ) (a : Text) (rest : List Text)
    → as_list (s k) ≡ some (a ∷ rest)
    → Wrote (λ (s : Held). s) s k (blpop k seconds s) (some (k, a))
      × (as_list ((blpop k seconds s).1 k) ≡ some rest)
unfolding blpop
blpop_lem s k seconds a rest e =
    let (w, q) = store-Wrote {A = Option (Text × Text)} s k (list_item rest) (some (k, a)) in
    rw e (w, rw q)

pub incr_lem :
    (s : Held) (k : Text) (n : ℕ)
    → as_count (s k) ≡ some n
    → Wrote (λ (s : Held). s) s k (incr k s) (n + 1)
      × ((incr k s).1 k ≡ some (string_item (show_nat (n + 1))))
unfolding incr
incr_lem s k n e = rw e (store-Wrote s k (string_item (show_nat (n + 1))) (n + 1))

pub setnx_lem :
    (s : Held) (k x : Text)
    → s k ≡ none
    → Wrote (λ (s : Held). s) s k (setnx k x s) true × ((setnx k x s).1 k ≡ some (string_item x))
unfolding setnx
setnx_lem s k x e = rw (setnx, e) (store-Wrote s k (string_item x) true)

module _ (s : Held) (k : Text) where
  pub setnx_held :
      (x : Text) (i : Item) → s k ≡ some i → Read (λ (s : Held). s) s (setnx k x s) false
  unfolding setnx
  setnx_held x i e = rw (setnx, e) (answer-Read s false)

  pub blpop_empty :
      (seconds : ℕ) → as_list (s k) ≡ some [] → Read (λ (s : Held). s) s (blpop k seconds s) none
  unfolding blpop
  blpop_empty seconds e = rw e (answer-Read s none)

  pub llen_lem :
      (xs : List Text) → as_list (s k) ≡ some xs → Read (λ (s : Held). s) s (llen k s) (length xs)
  unfolding llen
  llen_lem xs e = rw e (answer-Read s _)

  pub put_lem :
      (x : Text)
      → Wrote (λ (s : Held). s) s k (put k x s) tt × ((put k x s).1 k ≡ some (string_item x))
  unfolding put
  put_lem x = store-Wrote s k (string_item x) tt

  pub get_lem : (x : Option Text) → as_string (s k) ≡ some x → Read (λ (s : Held). s) s (get k s) x
  unfolding get
  get_lem x e = rw e (answer-Read s x)

  pub expire_lem : (seconds : ℕ) → Read (λ (s : Held). s) s (expire k seconds s) (is_some (s k))
  unfolding expire
  expire_lem seconds = answer-Read s _

  pub lapse_lem : (lapse k s k ≡ none) × ((u : Text) → text_eq k u ≡ false → lapse k s u ≡ s u)
  unfolding lapse
  lapse_lem = (ground (arith, text_eq_refl k), λ u e. ground (arith, e))

-- This server does what the documentation says.
abbrev pub client-IsDocumented : IsDocumented client
client-IsDocumented = record {
  holds = λ s. s;
  setnx_new = setnx_lem;
  setnx_held = setnx_held;
  expire = expire_lem;
  lapse = lapse_lem;
  rpush = rpush_lem;
  blpop_empty = λ s k seconds positive. blpop_empty s k seconds;
  blpop_next = blpop_lem;
  llen = llen_lem;
  incr = incr_lem;
  put = put_lem;
  get = get_lem;
  zadd = zadd_lem;
  zrangebyscore = zrangebyscore_lem;
  zrem = zrem_lem;
  zrange = zrange_lem;
}
