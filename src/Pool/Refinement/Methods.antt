-- ===== src/Pool/Refinement/Methods.antt =====
-- The methods of pool.py that its callers and its tasks run.
use proxy_hopper_v.Common.{
  ◌⊎◌, zero, suc, arith, ℕ, ◌+◌, ◌<◌, ◌≡◌, refl, subst, Option, none, some, List, [], ◌∷◌, leb,
  Bool-cases, inl, inr, Text, Result,
}
use proxy_hopper_v.Config.{TargetConfig}
use proxy_hopper_v.Backend.{Backend, Contract, popped, swept, Claims}
use proxy_hopper_v.Pool.{
  IpPool, Cooldown, extract, on_store, create_cooldown, acquire, record_success, record_failure,
  finish_cooldown, return_after_cooldown, release, release_all, sweep_quarantine,
}
use proxy_hopper_v.Pool.Rotation.{Rotation, taken, succeeded, failed, woken, released, released_all}
use proxy_hopper_v.Pool.Refinement.{
  Shows, Ran, on_store-Ran, Ran-bind, pure-Ran, create_cooldown-Ran, push-Ran, reset-Ran,
}

module _ (b : Backend) (c : Contract b) (config : TargetConfig) where
  -- On a pool that shows a rotation `record_success` clears the failures and puts the address to
  -- sleep for the interval.
  pub record_success-Ran :
      (now : ℕ) (a : Text) (p : IpPool b) (r : Rotation)
      → Shows b c config p r
      → Ran b c config p (record_success b config now a p) tt (succeeded config now a r)
  unfolding record_success
  record_success-Ran now a p r s =
      Ran-bind b c config (on_store b (b.reset_failures config.name a))
        (λ _. create_cooldown b a (now + config.min_request_interval)) p tt _ tt _
        (reset-Ran b c config a p r s) (λ q t. create_cooldown-Ran b c config a _ q _ t)

  -- On a pool that shows a rotation `record_failure` counts, and quarantines the address from the
  -- threshold on; below it, it puts the address to sleep for the interval.
  pub record_failure-Ran :
      (now : ℕ) (a : Text) (p : IpPool b) (r : Rotation)
      → Shows b c config p r
      → Ran b c config p (record_failure b config now a p) tt (failed config now a r)
  unfolding record_failure
  record_failure-Ran now a p r s =
      Ran-bind b c config (on_store b (b.increment_failures config.name a)) _ p
        (r.view.failures a + 1) _ tt _
        (on_store-Ran b c config (b.increment_failures config.name a) p r _ _ s
          (c.increment p.store config.name a r.view s.valid s.view))
        λ q t. elim (Bool-cases (leb config.ip_failures_until_quarantine (r.view.failures a + 1))) [
          | inl e ↦ rw e (
              on_store-Ran b c config
                (b.quarantine_add config.name a (now + config.quarantine_time)) q _ tt _ t
                (c.add q.store config.name a (now + config.quarantine_time) _ t.valid t.view))
          | inr e ↦ rw e (create_cooldown-Ran b c config a _ q _ t)
        ]

  -- `acquire` on an empty queue, at the end of the wait, returns nothing and changes nothing.
  pub acquire-Ran_empty :
      (timeout : ℕ) (p : IpPool b) (r : Rotation)
      → Shows b c config p r
      → r.view.queue ≡ []
      → Ran b c config p (acquire b config timeout p) none r
  unfolding acquire
  acquire-Ran_empty timeout p r s e =
      on_store-Ran b c config (b.pop_ip config.name timeout) p r none r.view s
        (c.pop_empty p.store config.name timeout r.view s.valid s.view e)

  -- On a pool that shows a rotation `acquire` with time left takes the oldest available address.
  pub acquire-Ran_next :
      (timeout : ℕ) (p : IpPool b) (r : Rotation) (a : Text) (rest : List Text)
      → Shows b c config p r
      → r.view.queue ≡ a ∷ rest
      → 0 < timeout
      → Ran b c config p (acquire b config timeout p) (some a) (taken rest r)
  unfolding acquire
  acquire-Ran_next timeout p r a rest s e pos =
      on_store-Ran b c config (b.pop_ip config.name timeout) p r (some a) (popped rest r.view) s
        (c.pop_next p.store config.name timeout r.view a rest s.valid s.view e pos)

  -- Whatever time is left: the oldest address, or, with none, nothing.
  pub acquire-Ran_there :
      (timeout : ℕ) (p : IpPool b) (r : Rotation) (a : Text) (rest : List Text)
      → Shows b c config p r
      → r.view.queue ≡ a ∷ rest
      → ((timeout ≡ 0) × Ran b c config p (acquire b config timeout p) none r)
        ⊎ Ran b c config p (acquire b config timeout p) (some a) (taken rest r)
  unfolding acquire
  acquire-Ran_there zero p r a rest s e =
      elim (c.pop_late p.store config.name r.view a rest s.valid s.view e) [
        | inl h ↦ inl (refl, on_store-Ran b c config (b.pop_ip config.name 0) p r none r.view s h)
        | inr h ↦
            inr (
              on_store-Ran b c config (b.pop_ip config.name 0) p r (some a) (popped rest r.view) s
                h)
      ]
  acquire-Ran_there (suc n) p r a rest s e =
      inr (acquire-Ran_next (suc n) p r a rest s e (omega arith))

  finish_cooldown-Ran :
      (now : ℕ) (o : Option (Cooldown × List Cooldown)) (p : IpPool b) (r : Rotation)
      → Shows b c config p r
      → Ran b c config p (finish_cooldown b config now o p) tt (woken now o r)
  unfolding finish_cooldown
  finish_cooldown-Ran now none p r s = pure-Ran b c config tt p r s
  finish_cooldown-Ran now (some (t, rest)) p r s = elim (Bool-cases (leb t.due now)) [
    | inl e ↦ rw e (
        widen (
          push-Ran b c config t.address (record p { cooling = rest }) (record r { cooling = rest })
            (record { valid = s.valid; view = s.view; cooling = refl })))
    | inr e ↦ rw e (pure-Ran b c config tt p r s)
  ]
    where
      widen :
          {out : Result (Unit {0}) × IpPool b} {r' : Rotation}
          → Ran b c config (record p { cooling = rest }) out tt r'
          → Ran b c config p out tt r'
      widen h = record {
        returned = h.returned;
        shows = h.shows;
        running = h.running;
        others = h.others;
      }

  -- On a pool that shows a rotation a task of `_return_after_cooldown` whose sleep is over puts its
  -- address at the end of the queue; one that still sleeps, or is not there, changes nothing.
  pub return_after_cooldown-Ran :
      (now i : ℕ) (p : IpPool b) (r : Rotation)
      → Shows b c config p r
      → Ran b c config p
          (return_after_cooldown b config now i p)
          tt
          (woken now (extract i r.cooling) r)
  unfolding return_after_cooldown
  return_after_cooldown-Ran now i p r s =
      subst
        (λ l.
          Ran b c config p (finish_cooldown b config now (extract i p.cooling) p) tt
            (woken now (extract i l) r))
        s.cooling (finish_cooldown-Ran now (extract i p.cooling) p r s)

  release-Ran :
      (a : Text) (p : IpPool b) (r : Rotation)
      → Shows b c config p r
      → Ran b c config p (release b config a p) tt (released a r)
  unfolding release
  release-Ran a p r s =
      Ran-bind b c config (on_store b (b.reset_failures config.name a))
        (λ _. on_store b (b.push_ip config.name a)) p tt _ tt _ (reset-Ran b c config a p r s)
        (λ q t. push-Ran b c config a q _ t)

  release_all-Ran :
      (as' : List Text) (p : IpPool b) (r : Rotation)
      → Shows b c config p r
      → Ran b c config p (release_all b config as' p) tt (released_all as' r)
  unfolding release_all
  release_all-Ran [] p r s = pure-Ran b c config tt p r s
  release_all-Ran (a ∷ as') p r s =
      Ran-bind b c config (release b config a) (λ _. release_all b config as') p tt (released a r)
        tt _ (release-Ran a p r s) (λ q t. release_all-Ran as' q _ t)

  -- On a pool that shows a rotation a sweep takes exactly the addresses whose time has come out of
  -- the quarantine, clears their failures and puts them at the end of the queue.
  pub sweep_quarantine-Ran :
      (now : ℕ) (p : IpPool b) (r : Rotation)
      → Shows b c config p r
      → (xs : List Text) × Claims now r.view xs
        × Ran b c config p
            (sweep_quarantine b config now p)
            tt
            (released_all xs (record r { view = swept now r.view }))
  unfolding sweep_quarantine
  sweep_quarantine-Ran now p r s =
      let (xs, claims, d) = c.pop_expired p.store config.name now r.view s.valid s.view in
      (
        xs,
        claims,
        Ran-bind b c config (on_store b (b.quarantine_pop_expired config.name now))
            (release_all b config) p xs _ tt _
            (on_store-Ran b c config (b.quarantine_pop_expired config.name now) p r xs _ s d)
            (λ q t. release_all-Ran xs q _ t),
      )
