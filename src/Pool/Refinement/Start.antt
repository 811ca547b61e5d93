-- ===== src/Pool/Refinement/Start.antt =====
-- `start` and `get_status` of pool.py.
use proxy_hopper_v.Common.{
  ◌≡◌, refl, ◌∙◌, subst, inl, inr, Bool-cases, text_eq, text_eq_iff, if◌then◌else◌, some, true,
  false, none, List, [], ◌∷◌, arith, bit, length, count, Text, text_eq_refl, ok, Exec,
}
use proxy_hopper_v.Config.{TargetConfig}
use proxy_hopper_v.Backend.{View, Backend, Contract, Done, empty_view, is_some}
use proxy_hopper_v.Pool.{IpPool, on_store, seed, start, get_status}
use proxy_hopper_v.Pool.Rotation.{Rotation, enqueued, enqueued_all}
use proxy_hopper_v.Pool.Refinement.{
  Shows, Ran, on_store-Ran, Ran-then, Ran-bind, pure-Ran, push-Ran,
}

module _ (b : Backend) (c : Contract b) (config : TargetConfig) where
  seed-Ran :
      (as' : List Text) (p : IpPool b) (r : Rotation)
      → Shows b c config p r
      → Ran b c config p (seed b config as' p) tt (enqueued_all as' r)
  unfolding seed
  seed-Ran [] p r s = pure-Ran b c config tt p r s
  seed-Ran (a ∷ as') p r s =
      Ran-bind b c config (on_store b (b.push_ip config.name a)) (λ _. seed b config as') p tt
        (enqueued a r) tt _ (push-Ran b c config a p r s) (λ q t. seed-Ran as' q _ t)

  -- On a pool that shows a rotation `get_status` reports the length of the queue, and each
  -- quarantined address once.
  pub get_status-Ran :
      (p : IpPool b) (r : Rotation)
      → Shows b c config p r
      → (xs : List Text) × ((a : Text) → count a xs ≡ bit (is_some (r.view.release a)))
        × Ran b c config p
            (get_status b config p)
            (record {
              name = config.name;
              available_ips = length r.view.queue;
              quarantined_ips = xs;
            })
            r
  unfolding get_status
  get_status-Ran p r s =
      let size = b.pool_size config.name in
      let held = b.quarantine_list config.name in
      let first =
        on_store-Ran b c config size p r (length r.view.queue) r.view s
          (c.size p.store config.name r.view s.valid s.view) in
      let q = (on_store b size p).1 in
      let (xs, each, d) = c.list q.store config.name r.view first.shows.valid first.shows.view in
      (
        xs,
        each,
        Ran-then b c config (on_store b size) _ p (length r.view.queue) r _ r first (
            Ran-then b c config (on_store b held) _ q xs r _ r
              (on_store-Ran b c config held q r xs r.view first.shows d)
              (pure-Ran b c config _ _ r
                (on_store-Ran b c config held q r xs r.view first.shows d).shows)),
      )

  shown_after :
      {A : Type 0} (m : Exec b.Store A) (p : IpPool b) (x : A) (v : View)
      → Done c.view c.IsValid p.store config.name (m p.store) x v
      → Shows b c config (on_store b m p).1 (record { view = v; cooling = p.cooling })
  shown_after m p x v d = record {
    valid = d.valid;
    view = ground (arith, d.views config.name, text_eq_refl config.name);
    cooling = refl;
  }

  -- On a valid store without the target, whose name the storage can hold, the first `start` of the target seeds its queue with the
  -- addresses, in their order.
  pub start-Ran_first :
      (as' : List Text) (p : IpPool b)
      → c.IsName config.name
      → c.IsValid p.store
      → c.view p.store config.name ≡ none
      → let out = start b config as' p in
        (out.0 ≡ ok tt)
        × Shows b c config out.1
            (enqueued_all as' (record { view = empty_view; cooling = p.cooling }))
        × (out.1.running ≡ true)
  unfolding start
  start-Ran_first as' p n v e =
      let d = c.init_first p.store config.name n v e in
      let shown = shown_after (b.init_target config.name) p true empty_view d in
      let h = seed-Ran as' (on_store b (b.init_target config.name) p).1 _ shown in
      rw (d.returned, h.returned)
        (
          refl,
          record { valid = h.shows.valid; view = h.shows.view; cooling = h.shows.cooling },
          refl,
        )

  -- On a pool that shows a rotation, as after the start of another instance over the same storage, a
  -- later `start` seeds nothing.
  pub start-Ran_again :
      (as' : List Text) (p : IpPool b) (r : Rotation)
      → Shows b c config p r
      → let out = start b config as' p in
        (out.0 ≡ ok tt) × Shows b c config out.1 r × (out.1.running ≡ true)
  unfolding start
  start-Ran_again as' p r s =
      let d = c.init_again p.store config.name r.view s.valid s.view in
      let h = on_store-Ran b c config (b.init_target config.name) p r false r.view s d in
      rw d.returned (
        refl,
        record { valid = h.shows.valid; view = h.shows.view; cooling = h.shows.cooling },
        refl,
      )

  -- What the first `start` of a target leaves in the store, for every target.
  pub start-views :
      (as' : List Text) (p : IpPool b)
      → c.IsName config.name
      → c.IsValid p.store
      → c.view p.store config.name ≡ none
      → (u : Text)
      → c.view (start b config as' p).1.store u ≡ (
          if text_eq config.name u
          then some (enqueued_all as' (record { view = empty_view; cooling = p.cooling })).view
          else c.view p.store u)
  unfolding start
  start-views as' p n v e u =
      let d = c.init_first p.store config.name n v e in
      let shown = shown_after (b.init_target config.name) p true empty_view d in
      let h = seed-Ran as' (on_store b (b.init_target config.name) p).1 _ shown in
      elim (Bool-cases (text_eq config.name u)) [
        | inl q ↦
            rw (d.returned, h.returned, q)
              (subst
                (λ u.
                  c.view (seed b config as' (on_store b (b.init_target config.name) p).1).1.store u
                  ≡ some
                      (enqueued_all as' (record { view = empty_view; cooling = p.cooling })).view)
                ((text_eq_iff config.name u).0 q) h.shows.view)
        | inr q ↦ rw (d.returned, h.returned, q) (h.others u q ∙ d.views u ∙ rw q refl)
      ]
