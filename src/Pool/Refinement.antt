-- ===== src/Pool/Refinement.antt =====
-- pool.py over any backend that keeps its contract does what the rotation says, raises nothing, and
-- leaves the other targets of the shared backend alone.
pub mod Methods
pub mod Start
use proxy_hopper_v.Common.{
  ℕ, ◌+◌, ◌<◌, ◌≡◌, refl, ap, subst, Bool, true, false, Option, none, some, List, [], ◌∷◌, ◌++◌,
  arith, leb, if◌then◌else◌, Bool-cases, inl, inr, Option-cases, bit, length, count, Text, text_eq,
  text_eq_refl, ◌∙◌, Result, ok, Exec, ◌>>=◌,
}
use proxy_hopper_v.Config.{TargetConfig}
use proxy_hopper_v.Backend.{
  View, Backend, Contract, Done, empty_view, pushed, popped, counted, quarantined, swept, Claims,
  is_some,
}
use proxy_hopper_v.Pool.{
  IpPool, Cooldown, Status, extract, on_store, create_cooldown, seed, start, stop, acquire,
  record_success, record_failure, get_status, finish_cooldown, return_after_cooldown, release,
  release_all, sweep_quarantine,
}
use proxy_hopper_v.Pool.Rotation.{
  Rotation, enqueued, enqueued_all, cooled, taken, succeeded, failed, woken, released, released_all,
}

module _ (b : Backend) (c : Contract b) (config : TargetConfig) where
  -- The pool `p` is in a valid store and shows `r` for its target.
  pub record Shows (p : IpPool b) (r : Rotation) : Type 0 where
    pub valid : c.IsValid p.store
    pub view : c.view p.store config.name ≡ some r.view
    pub cooling : p.cooling ≡ r.cooling

  -- `out`, reached from the pool `p`, returned `x`, and the pool now shows `r`; the other targets
  -- keep what they had, and the pool runs or not as before.
  pub record Ran {A : Type 0} (p : IpPool b) (out : Result A × IpPool b) (x : A) (r : Rotation)
      : Type 0 where
    pub returned : out.0 ≡ ok x
    pub shows : Shows out.1 r
    pub running : out.1.running ≡ p.running
    pub others :
        (u : Text) → text_eq config.name u ≡ false → c.view out.1.store u ≡ c.view p.store u

  -- A method of the backend, called from the pool.
  pub on_store-Ran :
      {A : Type 0} (m : Exec b.Store A) (p : IpPool b) (r : Rotation) (x : A) (v : View)
      → Shows p r
      → Done c.view c.IsValid p.store config.name (m p.store) x v
      → Ran p (on_store b m p) x (record r { view = v })
  on_store-Ran m p r x v s d = record {
    returned = d.returned;
    shows = record {
      valid = d.valid;
      view = ground (arith, d.views config.name, text_eq_refl config.name);
      cooling = s.cooling;
    };
    running = refl;
    others = λ u e. ground (arith, d.views u);
  }

  pub Ran-then :
      {A B : Type 0} (m : Exec (IpPool b) A) (f : A → Exec (IpPool b) B) (p : IpPool b) (x : A)
      (r : Rotation) (y : B) (r' : Rotation)
      → Ran p (m p) x r
      → Ran (m p).1 (f x (m p).1) y r'
      → Ran p ((m >>= f) p) y r'
  Ran-then m f p x r y r' h h' = rw h.returned (record {
    returned = h'.returned;
    shows = h'.shows;
    running = h'.running ∙ h.running;
    others = λ u e. h'.others u e ∙ h.others u e;
  })

  pub Ran-bind :
      {A B : Type 0} (m : Exec (IpPool b) A) (f : A → Exec (IpPool b) B) (p : IpPool b) (x : A)
      (r : Rotation) (y : B) (r' : Rotation)
      → Ran p (m p) x r
      → ((q : IpPool b) → Shows q r → Ran q (f x q) y r')
      → Ran p ((m >>= f) p) y r'
  Ran-bind m f p x r y r' h k = Ran-then m f p x r y r' h (k (m p).1 h.shows)

  pub pure-Ran :
      {A : Type 0} (x : A) (p : IpPool b) (r : Rotation) → Shows p r → Ran p (ok x, p) x r
  pure-Ran x p r s = record { returned = refl; shows = s; running = refl; others = λ u e. refl }

  pub create_cooldown-Ran :
      (a : Text) (due : ℕ) (p : IpPool b) (r : Rotation)
      → Shows p r
      → Ran p (create_cooldown b a due p) tt (cooled a due r)
  create_cooldown-Ran a due p r s = record {
    returned = refl;
    shows = record { valid = s.valid; view = s.view; cooling = rw s.cooling };
    running = refl;
    others = λ u e. refl;
  }

  pub push-Ran :
      (a : Text) (p : IpPool b) (r : Rotation)
      → Shows p r
      → Ran p (on_store b (b.push_ip config.name a) p) tt (enqueued a r)
  push-Ran a p r s =
      on_store-Ran (b.push_ip config.name a) p r tt (pushed a r.view) s
        (c.push p.store config.name a r.view s.valid s.view)

  pub reset-Ran :
      (a : Text) (p : IpPool b) (r : Rotation)
      → Shows p r
      → Ran p
          (on_store b (b.reset_failures config.name a) p)
          tt
          (record r { view = counted a 0 r.view })
  reset-Ran a p r s =
      on_store-Ran (b.reset_failures config.name a) p r tt (counted a 0 r.view) s
        (c.reset p.store config.name a r.view s.valid s.view)
