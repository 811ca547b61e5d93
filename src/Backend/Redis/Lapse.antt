-- ===== src/Backend/Redis/Lapse.antt =====
-- What follows when the key that `init_target` of proxy_hopper_redis/backend.py sets has expired.
use proxy_hopper_v.Common.{
  ◌≡◌, refl, ◌∙◌, codes, ◌++◌, none, some, List, [], ◌∷◌, arith, append_assoc, append-nil, Text,
  text_eq, ok,
}
use proxy_hopper_v.Config.{TargetConfig}
use proxy_hopper_v.Pool.{IpPool, seed, start}
use proxy_hopper_v.Backend.Redis.{pool_key, init_key, init_target, push_ip}
use proxy_hopper_v.Backend.Redis.Commands.{Client, IsDocumented, as_list}
use proxy_hopper_v.Backend.Redis.Keys.{IsName, text_eq-key}
use proxy_hopper_v.Backend.Redis.Promises.{redis_backend}

module _ (redis : Client) (d : IsDocumented redis) (config : TargetConfig) where
  abbrev Queue : redis.Server → List Text → Type 0
  Queue s xs = as_list (d.holds s (pool_key config.name)) ≡ some xs

  seed_onto :
      (as' : List Text) (p : IpPool (redis_backend redis)) (xs : List Text)
      → Queue p.store xs
      → let out = seed (redis_backend redis) config as' p in
        (out.0 ≡ ok tt) × Queue out.1.store (xs ++ as')
  unfolding seed push_ip
  seed_onto [] p xs h = (refl, rw (append-nil xs) h)
  seed_onto (a ∷ as') p xs h =
      let (w, q) = d.rpush p.store (pool_key config.name) a xs h in
      let (e, k) =
        seed_onto as' (record p { store = (redis.rpush (pool_key config.name) a p.store).1 })
          (xs ++ a ∷ []) q in
      rw w.returned (e, rw (← append_assoc xs (a ∷ []) as') k)

  -- For a target with no colon in its name, and commands that do what the documentation of Redis
  -- says: if the key that claims the target has expired while its pool still holds addresses, `start`
  -- seeds the pool once more, and every address it was made with comes after those that are there.
  pub start-lapsed :
      (as' : List Text) (p : IpPool (redis_backend redis)) (xs : List Text)
      → IsName config.name
      → d.holds p.store (init_key config.name) ≡ none
      → as_list (d.holds p.store (pool_key config.name)) ≡ some xs
      → let out = start (redis_backend redis) config as' p in
        (out.0 ≡ ok tt) × (as_list (d.holds out.1.store (pool_key config.name)) ≡ some (xs ++ as'))
  unfolding start init_target text_eq
  start-lapsed as' p xs n o h =
      let (w, _) = d.setnx_new p.store (init_key config.name) (codes "1") o in
      let s1 = (redis.setnx (init_key config.name) (codes "1") p.store).1 in
      let lasting = d.expire s1 (init_key config.name) 86400 in
      let s2 = (redis.expire (init_key config.name) 86400 s1).1 in
      let same =
        lasting.same (pool_key config.name)
        ∙ w.others (pool_key config.name) (
            text_eq-key config.name config.name (codes "initialized") (codes "pool") n n
            ∙ ground arith) in
      let (e, k) = seed_onto as' (record p { store = s2 }) xs (rw same h) in
      rw (w.returned, lasting.returned, e) (refl, k)
