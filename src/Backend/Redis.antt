-- ===== src/Backend/Redis.antt =====
-- python_modules/proxy-hopper-redis/src/proxy_hopper_redis/backend.py: the class
-- `RedisIPPoolBackend`, over the commands of the redis library, which are a parameter.
pub mod Commands
pub mod Keys
pub mod Stored
pub mod Expiry
pub mod Writes
pub mod Laws
pub mod Promises
pub mod Race
pub mod Lapse
pub mod Server
pub mod Samples
pub mod Tests
use proxy_hopper_v.Common.{
  ℕ, ◌/◌, max, Bool, true, false, Option, none, some, List, [], ◌∷◌, ◌++◌, ◌==◌, if◌then◌else◌,
  Text, codes, Error, value_error, Result, ok, err, Exec, pure, raise, ◌>>=◌, ◌>>◌,
}
use proxy_hopper_v.Strings.Ints.{ℤ, pos, negsuc, parse_int, show_int}
use proxy_hopper_v.Backend.{Backend}
use proxy_hopper_v.Backend.Redis.Commands.{Client}

-- f"ph:{target}:{…}"
abbrev pub key : Text → Text → Text
key target slot = codes "ph:" ++ target ++ b':' ∷ slot

abbrev pub pool_key : Text → Text
pool_key target = key target (codes "pool")

abbrev pub failures_key : Text → Text → Text
failures_key target address = key target (codes "failures:" ++ address)

abbrev pub quarantine_key : Text → Text
quarantine_key target = key target (codes "quarantine")

abbrev pub init_key : Text → Text
init_key target = key target (codes "initialized")

-- self._redis_url, and whether self._redis is set.
pub record Connection : Type 0 where
  pub redis_url : Text
  pub connected : Bool

-- `from_url` is the result of the making of the client, which happens once, and `ping` that of the
-- PING; both may raise.
unfoldable pub start : Result (Unit {0}) → Result (Unit {0}) → Exec Connection (Unit {0})
start (err e) ping s = (if s.connected then ping else err e, s)
start (ok x) ping s = (ping, record s { connected = true })

-- `aclose` is the result of the close, which is not called without a connection.
unfoldable pub stop : Result (Unit {0}) → Exec Connection (Unit {0})
stop aclose s = (if s.connected then aclose else ok tt, s)

-- result[1] if result else None
abbrev pub second : Option (Text × Text) → Option Text
second none = none
second (some (_, address)) = some address

-- int(value) if value is not None else 0
unfoldable pub int_of : {S : Type 0} → Option Text → Exec S ℤ
int_of none = pure (pos 0)
int_of (some value) = elim (parse_int value) [ none ↦ raise (value_error value) | some n ↦ pure n ]

-- if removed: claimed.append(address)
abbrev pub claimed : Text → ℕ → List Text → List Text
claimed address removed rest = if removed == 0 then rest else address ∷ rest

module _ (redis : Client) where
  unfoldable pub init_target : Text → Exec redis.Server Bool
  init_target target = do
    acquired ← redis.setnx (init_key target) (codes "1")
    if acquired then redis.expire (init_key target) 86400 >>= (λ _. pure true) else pure false

  unfoldable pub push_ip : Text → Text → Exec redis.Server (Unit {0})
  push_ip target address = do _ ← redis.rpush (pool_key target) address; pure tt

  -- The timeout in milliseconds, for which the command takes whole seconds. The server is the one at
  -- the moment at which the wait ends.
  unfoldable pub pop_ip : Text → ℕ → Exec redis.Server (Option Text)
  pop_ip target timeout = do
    result ← redis.blpop (pool_key target) (max 1 (timeout / 1000))
    pure (second result)

  unfoldable pub pool_size : Text → Exec redis.Server ℕ
  pool_size target = redis.llen (pool_key target)

  unfoldable pub increment_failures : Text → Text → Exec redis.Server ℕ
  increment_failures target address = redis.incr (failures_key target address)

  unfoldable pub reset_failures : Text → Text → Exec redis.Server (Unit {0})
  reset_failures target address = redis.put (failures_key target address) (show_int (pos 0))

  unfoldable pub get_failures : Text → Text → Exec redis.Server ℤ
  unfolding int_of
  get_failures target address = do value ← redis.get (failures_key target address); int_of value

  unfoldable pub quarantine_add : Text → Text → ℕ → Exec redis.Server (Unit {0})
  quarantine_add target address release_at = do
    _ ← redis.zadd (quarantine_key target) address release_at
    pure tt

  -- the loop of `quarantine_pop_expired`
  unfoldable pub claim : Text → List Text → Exec redis.Server (List Text)
  claim target [] s = (ok [], s)
  claim target (address ∷ candidates) s =
      let rest = λ (removed : ℕ).
        claim target candidates >>= (λ more. pure (claimed address removed more)) in
      (redis.zrem (quarantine_key target) address >>= rest) s

  unfoldable pub quarantine_pop_expired : Text → ℕ → Exec redis.Server (List Text)
  unfolding claim
  quarantine_pop_expired target now = do
    candidates ← redis.zrangebyscore (quarantine_key target) 0 now
    claim target candidates

  unfoldable pub quarantine_list : Text → Exec redis.Server (List Text)
  quarantine_list target = redis.zrange (quarantine_key target) (pos 0) (negsuc 0)
