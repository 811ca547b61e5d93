-- ===== src/Pool/Steps/Waits.antt =====
-- What keeps an address from its next use, and how each operation of a pool keeps that.
use proxy_hopper_v.Common.{
  ℕ, zero, suc, ◌+◌, ◌≤◌, ◌<◌, ◌≡◌, inl, inr, Option, none, some, List, [], ◌∷◌, arith, leb, leb→le,
  Bool-cases, count, count-append, Text, text_eq_refl, text_eq_iff, All, All-append, Option-cases,
}
use proxy_hopper_v.Config.{TargetConfig}
use proxy_hopper_v.Backend.{Claims, swept, update, counted, quarantined}
use proxy_hopper_v.Pool.{Cooldown, extract}
use proxy_hopper_v.Pool.Rotation.{
  Rotation, enqueued, cooled, taken, failed, woken, released, released_all,
}
use proxy_hopper_v.Pool.Rotation.Copies.{count_cooling}

-- Where an address waits, its time has come; where it sleeps or is quarantined, its time will have
-- come when that ends.
pub record Waits (ready_at : Text → ℕ) (clock : ℕ) (r : Rotation) : Type 0 where
  pub queue : (x : Text) → 0 < count x r.view.queue → ready_at x ≤ clock
  pub cooling : All (λ c. ready_at c.address ≤ c.due) r.cooling
  pub held : (x : Text) (t : ℕ) → r.view.release x ≡ some t → ready_at x ≤ t

module _ (ready_at : Text → ℕ) (clock now : ℕ) (later : clock ≤ now) where
  pub later-Waits : (r : Rotation) → Waits ready_at clock r → Waits ready_at now r
  later-Waits r h = record {
    queue = λ x p. omega (arith, h.queue x p);
    cooling = h.cooling;
    held = h.held;
  }

module _ (ready_at : Text → ℕ) (now : ℕ) where
  pub enqueued-Waits :
      (a : Text) (r : Rotation)
      → ready_at a ≤ now
      → Waits ready_at now r
      → Waits ready_at now (enqueued a r)
  unfolding count
  enqueued-Waits a r p h = record {
    queue =
        λ x pos. ground (arith, count-append x r.view.queue (a ∷ []), text_eq_iff x a, h.queue x);
    cooling = h.cooling;
    held = h.held;
  }

  pub taken-Waits :
      (a : Text) (rest : List Text) (r : Rotation)
      → r.view.queue ≡ a ∷ rest
      → Waits ready_at now r
      → Waits ready_at now (taken rest r)
  unfolding count
  taken-Waits a rest r e h = record {
    queue = λ x pos. ground (arith, h.queue x);
    cooling = h.cooling;
    held = h.held;
  }

  extract-All :
      (i : ℕ) (l : List Cooldown) {c : Cooldown} {rest : List Cooldown}
      → extract i l ≡ some (c, rest)
      → All (λ c. ready_at c.address ≤ c.due) l
      → (ready_at c.address ≤ c.due) × All (λ c. ready_at c.address ≤ c.due) rest
  unfolding extract
  extract-All i [] e h = cc
  extract-All zero (c ∷ l) e h = ground arith
  extract-All (suc i) (c ∷ l) e h = elim (Option-cases (extract i l)) [
    | inl e' ↦ ground arith
    | inr ((d, m), e') ↦ ground (arith, extract-All i l {c = d} {rest = m} e' h.1)
  ]

  pub woken-Waits :
      (i : ℕ) (r : Rotation) (o : Option (Cooldown × List Cooldown))
      → extract i r.cooling ≡ o
      → Waits ready_at now r
      → Waits ready_at now (woken now o r)
  woken-Waits i r none e h = h
  woken-Waits i r (some (c, rest)) e h = elim (Bool-cases (leb c.due now)) [
    | inl due ↦
        let p = extract-All i r.cooling {c = c} {rest = rest} e h.cooling in
        rw due (
          enqueued-Waits c.address (record r { cooling = rest })
            (omega (arith, leb→le c.due now due, p.0))
            (record { queue = h.queue; cooling = p.1; held = h.held }))
    | inr early ↦ rw early h
  ]

  released_all-Waits :
      (xs : List Text) (r : Rotation)
      → All (λ a. ready_at a ≤ now) xs
      → Waits ready_at now r
      → Waits ready_at now (released_all xs r)
  released_all-Waits [] r p h = h
  released_all-Waits (a ∷ xs) r p h = released_all-Waits xs (released a r) p.1 (
      enqueued-Waits a (record r { view = counted a 0 r.view }) p.0
        (record { queue = h.queue; cooling = h.cooling; held = h.held }))

  All-of_count :
      (xs : List Text)
      → ((x : Text) → 0 < count x xs → ready_at x ≤ now)
      → All (λ a. ready_at a ≤ now) xs
  unfolding count
  All-of_count [] h = tt
  All-of_count (x ∷ xs) h =
      (h x (ground (arith, text_eq_refl x)), All-of_count xs (λ y p. h y (omega arith)))

  claimed_ready :
      (xs : List Text) (r : Rotation)
      → Claims now r.view xs
      → Waits ready_at now r
      → (x : Text) → 0 < count x xs
      → ready_at x ≤ now
  claimed_ready xs r claims h x pos = elim (Option-cases (r.view.release x)) [
    | inl e ↦ absurd (ground (arith, claims x))
    | inr (t, e) ↦ ground (arith, claims x, h.held x t e)
  ]

  pub swept-Waits :
      (xs : List Text) (r : Rotation)
      → Claims now r.view xs
      → Waits ready_at now r
      → Waits ready_at now (released_all xs (record r { view = swept now r.view }))
  swept-Waits xs r claims h =
      released_all-Waits xs (record r { view = swept now r.view })
        (All-of_count xs (claimed_ready xs r claims h))
        (record {
          queue = h.queue;
          cooling = h.cooling;
          held = λ x t e. elim (Option-cases (r.view.release x)) [
            | inl none_held ↦ ground arith
            | inr (u, held) ↦ ground (arith, h.held x u held)
          ];
        })

-- The record of the one copy of `a`, which a caller holds, moves its time and no other's.
module _ (ready_at : Text → ℕ) (now : ℕ) (a : Text) (at_time : ℕ) where
  moved-cooling :
      (cs : List Cooldown)
      → count_cooling a cs ≡ 0
      → All (λ c. ready_at c.address ≤ c.due) cs
      → All (λ c. update ready_at a at_time c.address ≤ c.due) cs
  unfolding count_cooling
  moved-cooling [] e h = tt
  moved-cooling (c ∷ cs) e h = (ground arith, moved-cooling cs (omega arith) h.1)

  pub moved-Waits :
      (r : Rotation)
      → count a r.view.queue ≡ 0
      → count_cooling a r.cooling ≡ 0
      → r.view.release a ≡ none
      → Waits ready_at now r
      → Waits (update ready_at a at_time) now r
  moved-Waits r q k n h = record {
    queue = λ x pos. ground (arith, text_eq_iff a x, h.queue x);
    cooling = moved-cooling r.cooling k h.cooling;
    held = λ x t e. ground (arith, text_eq_iff a x, h.held x t);
  }

module _ (config : TargetConfig) (now : ℕ) (a : Text) (ready_at : Text → ℕ) where
  abbrev moved : Text → ℕ
  moved = update ready_at a (now + config.min_request_interval)

  pub cooled-Waits :
      (r : Rotation)
      → Waits moved now r
      → Waits moved now (cooled a (now + config.min_request_interval) r)
  cooled-Waits r h = record {
    queue = h.queue;
    cooling = All-append _ r.cooling _ h.cooling (ground (arith, text_eq_refl a), tt);
    held = h.held;
  }

  quarantined-Waits :
      (r : Rotation)
      → config.min_request_interval ≤ config.quarantine_time
      → Waits moved now r
      → Waits moved now (record r { view = quarantined a (now + config.quarantine_time) r.view })
  quarantined-Waits r longer h = record {
    queue = h.queue;
    cooling = h.cooling;
    held = λ x t e. ground (arith, text_eq_iff a x, h.held x t);
  }

  pub failed-Waits :
      (r : Rotation)
      → config.min_request_interval ≤ config.quarantine_time
      → Waits moved now r
      → Waits moved now (failed config now a r)
  failed-Waits r longer h =
      let n = r.view.failures a + 1 in
      let counted_r : Rotation = record r { view = counted a n r.view } in
      let h' : Waits moved now counted_r = record {
        queue = h.queue;
        cooling = h.cooling;
        held = h.held;
      } in
      elim (Bool-cases (leb config.ip_failures_until_quarantine n)) [
        | inl e ↦ rw e (quarantined-Waits counted_r longer h')
        | inr e ↦ rw e (cooled-Waits counted_r h')
      ]
