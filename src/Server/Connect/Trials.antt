-- ===== src/Server/Connect/Trials.antt =====
-- What the attempts to open a tunnel do to the pool.
use proxy_hopper_v.Common.{
  ℕ, zero, suc, ◌≡◌, refl, ◌⊎◌, inl, inr, none, some, List, [], ◌∷◌, Text, Error, Result, ok, err,
}
use proxy_hopper_v.Config.{TargetConfig}
use proxy_hopper_v.Backend.{Backend, Contract}
use proxy_hopper_v.Pool.{IpPool, acquire, record_failure}
use proxy_hopper_v.Pool.Rotation.{Rotation, taken, failed}
use proxy_hopper_v.Pool.Refinement.{Shows, Ran, Ran-then, pure-Ran}
use proxy_hopper_v.Pool.Refinement.Methods.{
  acquire-Ran_empty, acquire-Ran_there, record_failure-Ran,
}
use proxy_hopper_v.Server.Connect.{
  Tunnel, no_address, all_failed, established, Network, open_tunnel, attempt, attempts,
}

module _ (b : Backend) (c : Contract b) (config : TargetConfig) (net : Network) where
  -- `n` attempts, the first of which is the `i`-th, take the rotation there and come to that.
  pub data Trials : ℕ → ℕ → Rotation → Tunnel → Rotation → Type 0 where
    none_left : {i : ℕ} {r : Rotation} → Trials zero i r all_failed r
    no_ip :
        {n i : ℕ} {r : Rotation}
        → (r.view.queue ≡ []) ⊎ (config.max_queue_wait ≡ 0)
        → Trials (suc n) i r no_address r
    opened :
        {n i : ℕ} {r : Rotation} {x : Unit {0}} (a : Text) (rest : List Text)
        → r.view.queue ≡ a ∷ rest
        → open_tunnel b config net i a ≡ ok x
        → Trials (suc n) i r (established a) (taken rest r)
    rejected :
        {n i : ℕ} {r r' : Rotation} {t : Tunnel} {e : Error} (a : Text) (rest : List Text)
        → r.view.queue ≡ a ∷ rest
        → open_tunnel b config net i a ≡ err e
        → Trials n (suc i) (failed config (net.over i) a (taken rest r)) t r'
        → Trials (suc n) i r t r'

  abbrev pub Tried : ℕ → ℕ → IpPool b → Rotation → Type 0
  Tried n i p r =
      (t : Tunnel) × (r' : Rotation) × Ran b c config p (attempts b config net n i p) t r'
      × Trials n i r t r'

  Result-cases :
      (o : Result (Unit {0})) → ((x : Unit {0}) × (o ≡ ok x)) ⊎ ((e : Error) × (o ≡ err e))
  Result-cases (ok x) = inl (x, refl)
  Result-cases (err e) = inr (e, refl)

  -- A loop of attempts does to the pool what the trials say, and raises nothing.
  attempts_from-Tried :
      (n i : ℕ) (p : IpPool b) (r : Rotation) (q : List Text)
      → Shows b c config p r
      → r.view.queue ≡ q
      → Tried n i p r
  unfolding attempts
  attempts_from-Tried zero i p r q h e =
      (all_failed, r, pure-Ran b c config all_failed p r h, none_left)
  attempts_from-Tried (suc n) i p r [] h e =
      let ran = acquire-Ran_empty b c config config.max_queue_wait p r h e in
      (
        no_address,
        r,
        Ran-then b c config (acquire b config config.max_queue_wait)
            (attempt b config net i (attempts b config net n (suc i))) p none r no_address r ran
            (pure-Ran b c config no_address _ r ran.shows),
        no_ip (inl e),
      )
  attempts_from-Tried (suc n) i p r (a ∷ rest) h e =
      let more = attempts b config net n (suc i) in
      let q = (acquire b config config.max_queue_wait p).1 in
      elim (acquire-Ran_there b c config config.max_queue_wait p r a rest h e) [
        | inl (late, ran) ↦ (
          no_address,
          r,
          Ran-then b c config (acquire b config config.max_queue_wait) (attempt b config net i more)
              p none r no_address r ran (pure-Ran b c config no_address _ r ran.shows),
          no_ip (inr late),
        )
        | inr ran ↦ elim (Result-cases (open_tunnel b config net i a)) [
          | inl (x, o) ↦ (
            established a,
            taken rest r,
            Ran-then b c config (acquire b config config.max_queue_wait)
                (attempt b config net i more) p (some a) (taken rest r) (established a)
                (taken rest r) ran
                (rw o (pure-Ran b c config (established a) q (taken rest r) ran.shows)),
            opened a rest e o,
          )
          | inr (why, o) ↦
              let r1 = failed config (net.over i) a (taken rest r) in
              let failure =
                record_failure-Ran b c config (net.over i) a q (taken rest r) ran.shows in
              let p1 = (record_failure b config (net.over i) a q).1 in
              let (t, r2, ran2, trials) =
                attempts_from-Tried n (suc i) p1 r1 r1.view.queue failure.shows refl in
              (
                t,
                r2,
                Ran-then b c config (acquire b config config.max_queue_wait)
                    (attempt b config net i more) p (some a) (taken rest r) t r2 ran
                    (rw o (
                      Ran-then b c config (record_failure b config (net.over i) a) (λ _. more) q tt
                        r1 t r2 failure ran2)),
                rejected a rest e o trials,
              )
        ]
      ]

  -- On a pool that shows a rotation the loop of a CONNECT handler raises nothing. Each attempt takes the oldest address; the loop stops
  -- at the first tunnel that opens, whose address it keeps, or when it gets no address, and records
  -- a failure for each address that it could not use. It gets none only if there is none or if the
  -- target's `max_queue_wait` is 0.
  pub attempts-Tried :
      (n i : ℕ) (p : IpPool b) (r : Rotation) → Shows b c config p r → Tried n i p r
  attempts-Tried n i p r h = attempts_from-Tried n i p r r.view.queue h refl
