-- ===== src/Config/Loading/Resolution.antt =====
-- The addresses of a target that refers to a pool.
use proxy_hopper_v.Common.{
  ℕ, ◌≡◌, ◌≢◌, refl, Option, none, some, List, arith, if◌then◌else◌, Text, text_eq, text_eq_iff,
  Dict, lookup, insert, delete, lookup-insert, lookup-delete, Result, ok, err,
}
use proxy_hopper_v.Config.Loading.{
  Value, null, flag, number, text, texts, mapping, ip_pool_key, ip_list_key, both_given,
  unknown_pool, no_name, put_pool, refer, resolve_pool,
}

delete-missing :
    {V : Type 0} (key : Text) (d : Dict V)
    → lookup key d ≡ none
    → (k : Text) → lookup k (delete key d) ≡ lookup k d
delete-missing key d h k = ground (arith, lookup-delete key k d, text_eq_iff key k)

module _ (F : Type 0) (float : Text → Result F) (times : F → ℕ → F) (pools : Dict (List Text))
    (d : Dict (Value F)) where
  -- What becomes of the settings `d` of a target, and why.
  pub data Resolved : Result (Dict (Value F)) → Type 0 where
    inline :
        (e : Dict (Value F))
        → lookup ip_pool_key d ≡ none
        → ((k : Text) → lookup k e ≡ lookup k d)
        → Resolved (ok e)
    null_reference :
        (e : Dict (Value F))
        → lookup ip_pool_key d ≡ some null
        → ((k : Text) → lookup k e ≡ (if text_eq ip_pool_key k then none else lookup k d))
        → Resolved (ok e)
    from_pool :
        (name : Text) (ips : List Text) (e : Dict (Value F))
        → lookup ip_pool_key d ≡ some (text name)
        → lookup ip_list_key d ≡ none
        → lookup name pools ≡ some ips
        → ((k : Text)
            → lookup k e ≡ (
                if text_eq ip_list_key k
                then some (texts ips)
                else if text_eq ip_pool_key k
                then none
                else lookup k d))
        → Resolved (ok e)
    twice :
        (v w : Value F)
        → lookup ip_pool_key d ≡ some v
        → v ≢ null
        → lookup ip_list_key d ≡ some w
        → Resolved (err (both_given F float times))
    unknown :
        (name : Text)
        → lookup ip_pool_key d ≡ some (text name)
        → lookup ip_list_key d ≡ none
        → lookup name pools ≡ none
        → Resolved (err (unknown_pool F float times name))
    nameless :
        (v : Value F)
        → lookup ip_pool_key d ≡ some v
        → ((name : Text) → v ≢ text name)
        → v ≢ null
        → lookup ip_list_key d ≡ none
        → Resolved (err (no_name F float times v))

  removed :
      (k : Text)
      → lookup k (delete ip_pool_key d) ≡ (if text_eq ip_pool_key k then none else lookup k d)
  removed k = lookup-delete ip_pool_key k d

  put_pool-Resolved :
      (name : Text) (o : Option (List Text))
      → lookup ip_pool_key d ≡ some (text name)
      → lookup ip_list_key d ≡ none
      → lookup name pools ≡ o
      → Resolved (put_pool F float times name (delete ip_pool_key d) o)
  put_pool-Resolved name none p l e = unknown name p l e
  put_pool-Resolved name (some ips) p l e =
      from_pool name ips (insert ip_list_key (texts ips) (delete ip_pool_key d)) p l e
        (λ k. rw (lookup-insert ip_list_key k (texts ips) (delete ip_pool_key d), removed k) refl)

  refer-Resolved :
      (o given : Option (Value F))
      → lookup ip_pool_key d ≡ o
      → lookup ip_list_key d ≡ given
      → Resolved (refer F float times pools (delete ip_pool_key d) o given)
  refer-Resolved none given p l = inline (delete ip_pool_key d) p (delete-missing ip_pool_key d p)
  refer-Resolved (some null) given p l = null_reference (delete ip_pool_key d) p removed
  refer-Resolved (some (text name)) none p l = put_pool-Resolved name (lookup name pools) p l refl
  refer-Resolved (some (flag x)) none p l = nameless (flag x) p (λ n e. cc) (λ e. cc) l
  refer-Resolved (some (number x)) none p l = nameless (number x) p (λ n e. cc) (λ e. cc) l
  refer-Resolved (some (texts x)) none p l = nameless (texts x) p (λ n e. cc) (λ e. cc) l
  refer-Resolved (some mapping) none p l = nameless mapping p (λ n e. cc) (λ e. cc) l
  refer-Resolved (some (text name)) (some w) p l = twice (text name) w p (λ e. cc) l
  refer-Resolved (some (flag x)) (some w) p l = twice (flag x) w p (λ e. cc) l
  refer-Resolved (some (number x)) (some w) p l = twice (number x) w p (λ e. cc) l
  refer-Resolved (some (texts x)) (some w) p l = twice (texts x) w p (λ e. cc) l
  refer-Resolved (some mapping) (some w) p l = twice mapping w p (λ e. cc) l

  -- A target without a reference to a pool keeps its settings; one that refers to a pool and lists
  -- no addresses gets the addresses of that pool as its list, the reference goes, and all else
  -- stays; both at once, and the name of a pool that is not there, are refused.
  pub resolve_pool-Resolved : Resolved (resolve_pool F float times pools d)
  unfolding resolve_pool
  resolve_pool-Resolved = refer-Resolved (lookup ip_pool_key d) (lookup ip_list_key d) refl refl
