-- ===== src/Pool/Callers/Following.antt =====
-- What any order of the callers of a pool leads to.
use proxy_hopper_v.Common.{
  ℕ, suc, ◌+◌, ◌≤◌, ◌≡◌, refl, Option, none, some, List, [], ◌∷◌, arith, bit, count, Text, IsNodup,
  ok,
}
use proxy_hopper_v.Config.{TargetConfig}
use proxy_hopper_v.Backend.{View, Backend, Contract, is_some}
use proxy_hopper_v.Pool.{IpPool, extract, acquire, record_success, record_failure}
use proxy_hopper_v.Pool.Rotation.{Rotation, taken}
use proxy_hopper_v.Pool.Rotation.Copies.{count_cooling}
use proxy_hopper_v.Pool.Refinement.{Shows}
use proxy_hopper_v.Pool.Refinement.Methods.{
  record_success-Ran, record_failure-Ran, acquire-Ran_empty, acquire-Ran_next,
  return_after_cooldown-Ran, sweep_quarantine-Ran,
}
use proxy_hopper_v.Pool.Steps.{
  World, Step, idle, succeed, fail, wake, sweep, Reach, here, next, seeded,
}
use proxy_hopper_v.Pool.Steps
use proxy_hopper_v.Pool.Steps.Conservation.{Reach-copies}
use proxy_hopper_v.Pool.Steps.RateLimit.{acquire-ready_at}
use proxy_hopper_v.Pool.Callers.{
  Callers, Call, acquires, succeeds, fails, wakes, sweeps, settle_lease, later, call_now, call_all,
  fresh,
}

module _ (b : Backend) (c : Contract b) (config : TargetConfig) where
  -- The callers as a world of the rotation `r`.
  abbrev world_of : Callers b → Rotation → World
  world_of s r = record { rotation = r; leased = s.leased; clock = s.clock; ready_at = s.ready_at }

  abbrev Followed : World → Callers b → Type 0
  Followed w s = (r : Rotation) × Shows b c config s.pool r × Step config w (world_of s r)

  acquires-Followed :
      (t elapsed : ℕ) (s : Callers b) (r : Rotation) (q : List Text)
      → Shows b c config s.pool r
      → r.view.queue ≡ q
      → Followed (world_of s r) (call_now b config (acquires t) (later b config elapsed s))
  acquires-Followed t elapsed s r [] h e =
      let ran = acquire-Ran_empty b c config (suc t) s.pool r h e in
      rw ran.returned (r, ran.shows, idle (s.clock + elapsed) (omega arith))
  acquires-Followed t elapsed s r (a ∷ rest) h e =
      let ran = acquire-Ran_next b c config (suc t) s.pool r a rest h e (omega arith) in
      rw ran.returned
        (taken rest r, ran.shows, Steps.acquire (s.clock + elapsed) a rest (omega arith) e)

  succeeds-Followed :
      (i elapsed : ℕ) (s : Callers b) (r : Rotation) (o : Option (Text × List Text))
      → Shows b c config s.pool r
      → extract i s.leased ≡ o
      → Followed
          (world_of s r)
          (settle_lease b config (record_success b config) o (later b config elapsed s))
  succeeds-Followed i elapsed s r none h e = (r, h, idle (s.clock + elapsed) (omega arith))
  succeeds-Followed i elapsed s r (some (a, rest)) h e = (
    _,
    (record_success-Ran b c config (s.clock + elapsed) a s.pool r h).shows,
    succeed (s.clock + elapsed) i a rest (omega arith) e,
  )

  fails-Followed :
      (i elapsed : ℕ) (s : Callers b) (r : Rotation) (o : Option (Text × List Text))
      → Shows b c config s.pool r
      → extract i s.leased ≡ o
      → Followed
          (world_of s r)
          (settle_lease b config (record_failure b config) o (later b config elapsed s))
  fails-Followed i elapsed s r none h e = (r, h, idle (s.clock + elapsed) (omega arith))
  fails-Followed i elapsed s r (some (a, rest)) h e = (
    _,
    (record_failure-Ran b c config (s.clock + elapsed) a s.pool r h).shows,
    fail (s.clock + elapsed) i a rest (omega arith) e,
  )

  call_now-Followed :
      (elapsed : ℕ) (k : Call) (s : Callers b) (r : Rotation)
      → Shows b c config s.pool r
      → Followed (world_of s r) (call_now b config k (later b config elapsed s))
  call_now-Followed elapsed (acquires t) s r h = acquires-Followed t elapsed s r r.view.queue h refl
  call_now-Followed elapsed (succeeds i) s r h =
      succeeds-Followed i elapsed s r (extract i s.leased) h refl
  call_now-Followed elapsed (fails i) s r h =
      fails-Followed i elapsed s r (extract i s.leased) h refl
  call_now-Followed elapsed (wakes i) s r h = (
    _,
    (return_after_cooldown-Ran b c config (s.clock + elapsed) i s.pool r h).shows,
    wake (s.clock + elapsed) i (omega arith),
  )
  call_now-Followed elapsed sweeps s r h =
      let (xs, claims, ran) = sweep_quarantine-Ran b c config (s.clock + elapsed) s.pool r h in
      (_, ran.shows, sweep (s.clock + elapsed) xs (omega arith) claims)

  call_all-Followed :
      (ks : List (ℕ × Call)) (w : World) (s : Callers b) (r : Rotation)
      → Shows b c config s.pool r
      → Reach config w (world_of s r)
      → (r' : Rotation) × Shows b c config (call_all b config ks s).pool r'
        × Reach config w (world_of (call_all b config ks s) r')
  call_all-Followed [] w s r h reach = (r, h, reach)
  call_all-Followed ((elapsed, k) ∷ ks) w s r h reach =
      let (r', h', step) = call_now-Followed elapsed k s r h in
      call_all-Followed ks w (call_now b config k (later b config elapsed s)) r' h'
        (next reach step)

  acquired-head :
      (t : ℕ) (a : Text) (p : IpPool b) (r : Rotation) (q : List Text)
      → Shows b c config p r
      → r.view.queue ≡ q
      → (acquire b config (suc t) p).0 ≡ ok (some a)
      → (rest : List Text) × (r.view.queue ≡ a ∷ rest)
  acquired-head t a p r [] h e got =
      let ran = acquire-Ran_empty b c config (suc t) p r h e in cc (got, ran.returned)
  acquired-head t a p r (a' ∷ rest) h e got =
      let ran = acquire-Ran_next b c config (suc t) p r a' rest h e (omega arith) in
      (rest, cc (got, ran.returned, e))

  -- The pool shows the rotation of a first `start`, and no task sleeps.
  abbrev pub IsSeeded : List Text → IpPool b → Type 0
  IsSeeded as' p = Shows b c config p (seeded as').rotation

-- After any order of calls, wake-ups and sweeps on a started pool, every address of a list without
-- repetitions is in exactly one place: waiting in the queue, asleep, in the quarantine, or with a
-- caller. An address that is not in the list is nowhere.
pub call_all-conserves :
    (b : Backend) (c : Contract b) (config : TargetConfig) (as' : List Text) (p : IpPool b)
    (ks : List (ℕ × Call)) (x : Text)
    → IsNodup as'
    → IsSeeded b c config as' p
    → let s = call_all b config ks (fresh p) in
      (v : View) × (c.view s.pool.store config.name ≡ some v)
      × (count x v.queue
            + count_cooling x s.pool.cooling
            + bit (is_some (v.release x))
            + count x s.leased
          ≡ count x as')
call_all-conserves b c config as' p ks x once h =
    let (r, shows, reach) = call_all-Followed b c config ks (seeded as') (fresh p) _ h here in
    (r.view, shows.view, rw shows.cooling (Reach-copies config as' _ x once reach))

-- After any order of calls, wake-ups and sweeps on a started pool, the address that `acquire`, with
-- a timeout above 0, hands out next was last recorded, as a success or as a failure, at least the
-- interval ago, if the list has no repetitions and the quarantine lasts at least as long as the
-- interval.
pub acquire-ready :
    (b : Backend) (c : Contract b) (config : TargetConfig) (as' : List Text) (p : IpPool b)
    (ks : List (ℕ × Call)) (timeout : ℕ) (a : Text)
    → IsNodup as'
    → config.min_request_interval ≤ config.quarantine_time
    → IsSeeded b c config as' p
    → let s = call_all b config ks (fresh p) in
      (acquire b config (suc timeout) s.pool).0 ≡ ok (some a) → s.ready_at a ≤ s.clock
acquire-ready b c config as' p ks timeout a once longer h e =
    let (r, shows, reach) = call_all-Followed b c config ks (seeded as') (fresh p) _ h here in
    let (rest, q) = acquired-head b c config timeout a _ r r.view.queue shows refl e in
    acquire-ready_at config as' _ _ a rest once longer reach (omega arith) q
