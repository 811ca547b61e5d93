-- ===== src/Pool/Steps/RateLimit.antt =====
-- No interleaving hands out an address before its interval is over.
use proxy_hopper_v.Common.{
  ℕ, ◌+◌, ◌≤◌, ◌≡◌, refl, some, List, [], ◌∷◌, arith, count, Text, text_eq_refl, IsNodup,
}
use proxy_hopper_v.Config.{TargetConfig}
use proxy_hopper_v.Backend.{update, counted}
use proxy_hopper_v.Pool.{extract}
use proxy_hopper_v.Pool.Rotation.{Rotation, enqueued, enqueued_all}
use proxy_hopper_v.Pool.Rotation.Copies.{copies}
use proxy_hopper_v.Pool.Steps.{
  World, Step, acquire, succeed, fail, wake, sweep, idle, Reach, here, next, seeded,
}
use proxy_hopper_v.Pool.Steps.Conservation.{
  IsConserved, Reach-IsConserved, leased-not-held, leased-not-elsewhere, copies-extract,
}
use proxy_hopper_v.Pool.Steps.Waits.{
  Waits, later-Waits, enqueued-Waits, taken-Waits, woken-Waits, swept-Waits, moved-Waits,
  cooled-Waits, failed-Waits,
}

abbrev WorldWaits : World → Type 0
WorldWaits w = Waits w.ready_at w.clock w.rotation

module _ (config : TargetConfig) (as' : List Text) (once : IsNodup as')
    (longer : config.min_request_interval ≤ config.quarantine_time) where
  -- The one copy of the address that a caller records.
  one_copy :
      (w : World) (i : ℕ) (a : Text) (rest : List Text)
      → IsConserved as' w
      → extract i w.leased ≡ some (a, rest)
      → copies a (a ∷ rest) w.rotation ≤ 1
  one_copy w i a rest h e =
      omega (arith, copies-extract a i w.leased w.rotation a rest e, h.each a, once a)

  moved_world :
      (w : World) (now i : ℕ) (a : Text) (rest : List Text)
      → w.clock ≤ now
      → extract i w.leased ≡ some (a, rest)
      → IsConserved as' w
      → WorldWaits w
      → Waits (update w.ready_at a (now + config.min_request_interval)) now w.rotation
  moved_world w now i a rest t e k h =
      let one = one_copy w i a rest k e in
      let away = leased-not-elsewhere a rest w.rotation one in
      moved-Waits w.ready_at now a (now + config.min_request_interval) w.rotation away.0 away.1
        (leased-not-held a rest w.rotation one) (later-Waits w.ready_at w.clock now t w.rotation h)

  Step-Waits : {w v : World} → Step config w v → IsConserved as' w → WorldWaits w → WorldWaits v
  Step-Waits {w} (acquire now a rest t e) k h =
      taken-Waits w.ready_at now a rest w.rotation e
        (later-Waits w.ready_at w.clock now t w.rotation h)
  Step-Waits {w} (succeed now i a rest t e) k h =
      let r = moved_world w now i a rest t e k h in
      cooled-Waits config now a w.ready_at
        (record w.rotation { view = counted a 0 w.rotation.view })
        (record { queue = r.queue; cooling = r.cooling; held = r.held })
  Step-Waits {w} (fail now i a rest t e) k h =
      failed-Waits config now a w.ready_at w.rotation longer (moved_world w now i a rest t e k h)
  Step-Waits {w} (wake now i t) k h =
      woken-Waits w.ready_at now i w.rotation (extract i w.rotation.cooling) refl
        (later-Waits w.ready_at w.clock now t w.rotation h)
  Step-Waits {w} (sweep now xs t claims) k h =
      swept-Waits w.ready_at now xs w.rotation claims
        (later-Waits w.ready_at w.clock now t w.rotation h)
  Step-Waits {w} (idle now t) k h = later-Waits w.ready_at w.clock now t w.rotation h

  seeded_queue-Waits :
      (xs : List Text) (r : Rotation) → Waits (λ a. 0) 0 r → Waits (λ a. 0) 0 (enqueued_all xs r)
  seeded_queue-Waits [] r h = h
  seeded_queue-Waits (a ∷ xs) r h =
      seeded_queue-Waits xs (enqueued a r) (enqueued-Waits (λ a. 0) 0 a r (omega arith) h)

  Reach-Waits : {w : World} → Reach config (seeded as') w → WorldWaits w
  unfolding count
  Reach-Waits here =
      seeded_queue-Waits as' _
        (record { queue = λ x p. omega arith; cooling = tt; held = λ x t e. omega arith })
  Reach-Waits (next r s) = Step-Waits s (Reach-IsConserved config as' once r) (Reach-Waits r)

-- After any interleaving, the address that `acquire` hands out was last recorded, as a success or a
-- failure, at least the interval ago, if the list has no repetitions and the quarantine lasts at
-- least as long as the interval.
pub acquire-ready_at :
    (config : TargetConfig) (as' : List Text) (w : World) (now : ℕ) (a : Text) (rest : List Text)
    → IsNodup as'
    → config.min_request_interval ≤ config.quarantine_time
    → Reach config (seeded as') w
    → w.clock ≤ now
    → w.rotation.view.queue ≡ a ∷ rest
    → w.ready_at a ≤ now
unfolding count
acquire-ready_at config as' w now a rest once longer r t e =
    let h = Reach-Waits config as' once longer r in ground (arith, h.queue a, text_eq_refl a)
