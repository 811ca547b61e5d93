-- ===== src/Server/Lifecycle/Opening.antt =====
-- What `start` of `ProxyServer` in server.py leaves in the store that its managers share.
use proxy_hopper_v.Common.{
  ◌≡◌, refl, ◌∙◌, ap, fun_ext, true, false, Option, none, some, List, [], ◌∷◌, if◌then◌else◌, All,
  Text, text_eq, Result, ok, err,
}
use proxy_hopper_v.Backend.{Backend, Contract, View, empty_view}
use proxy_hopper_v.Pool.{IpPool}
use proxy_hopper_v.Pool.Rotation.{enqueued_all}
use proxy_hopper_v.Pool.Refinement.Start.{start-Ran_first, start-views}
use proxy_hopper_v.TargetManager
use proxy_hopper_v.TargetManager.{TargetManager}
use proxy_hopper_v.Server.Lifecycle.{
  Managed, ProxyServer, with_store, start_manager, for_each, opened, start,
}

module _ (b : Backend) (c : Contract b) where
  -- The target of a manager after its start: its addresses are available, in their order.
  abbrev pub seeded_view : Managed b → View
  seeded_view m =
      (enqueued_all m.addresses
        (record { view = empty_view; cooling = m.manager.pool.cooling })).view

  -- The targets after the starts of all managers.
  abbrev pub started_views : List (Managed b) → (Text → Option View) → Text → Option View
  started_views [] view = view
  started_views (m ∷ ms) view =
      started_views ms (λ u. if text_eq m.config.name u then some (seeded_view m) else view u)

  -- The target is new, and the storage can hold its name.
  abbrev pub IsNew : b.Store → Managed b → Type 0
  IsNew st m = c.IsName m.config.name × (c.view st m.config.name ≡ none)

  -- No two managers have the same name.
  abbrev pub AreApart : List (Managed b) → Type 0
  AreApart [] = Unit
  AreApart (m ∷ ms) =
      All (λ (n : Managed b). text_eq m.config.name n.config.name ≡ false) ms × AreApart ms

  abbrev Out : Type 0
  Out = Result (Unit {0}) × List (Managed b) × b.Store

  pub record Started (st : b.Store) (ms : List (Managed b)) (out : Out) : Type 0 where
    pub returned : out.0 ≡ ok tt
    pub valid : c.IsValid out.2
    pub running : All (λ (m : Managed b). m.manager.running ≡ true) out.1
    pub views : (u : Text) → c.view out.2 u ≡ started_views ms (c.view st) u

  module _ (m : Managed b) (st : b.Store) (valid : c.IsValid st) (new : IsNew st m) where
    abbrev one : Result (Unit {0}) × TargetManager b
    one = start_manager b m (with_store b st m.manager)

    abbrev pool_of : IpPool b
    pool_of = (with_store b st m.manager).pool

    one-returned : one.0 ≡ ok tt
    unfolding TargetManager.start
    one-returned =
        let h = start-Ran_first b c m.config m.addresses pool_of new.0 valid new.1 in rw h.0 refl

    one-valid : c.IsValid one.1.pool.store
    unfolding TargetManager.start
    one-valid =
        let h = start-Ran_first b c m.config m.addresses pool_of new.0 valid new.1 in
        rw h.0 h.1.valid

    one-running : one.1.running ≡ true
    unfolding TargetManager.start
    one-running =
        let h = start-Ran_first b c m.config m.addresses pool_of new.0 valid new.1 in rw h.0 refl

    one-view :
        (u : Text)
        → c.view one.1.pool.store u
          ≡ (if text_eq m.config.name u then some (seeded_view m) else c.view st u)
    unfolding TargetManager.start
    one-view u =
        let h = start-Ran_first b c m.config m.addresses pool_of new.0 valid new.1 in
        rw h.0 (start-views b c m.config m.addresses pool_of new.0 valid new.1 u)

  rest-IsNew :
      (m : Managed b) (ms : List (Managed b)) (st st' : b.Store)
      → ((u : Text)
          → c.view st' u ≡ (if text_eq m.config.name u then some (seeded_view m) else c.view st u))
      → All (λ (n : Managed b). text_eq m.config.name n.config.name ≡ false) ms
      → All (IsNew st) ms
      → All (IsNew st') ms
  rest-IsNew m [] st st' v a h = tt
  rest-IsNew m (n ∷ ms) st st' v a h =
      ((h.0.0, rw (v n.config.name, a.0) h.0.1), rest-IsNew m ms st st' v a.1 h.1)

  for_each-Started :
      (ms : List (Managed b)) (st : b.Store)
      → c.IsValid st
      → AreApart ms
      → All (IsNew st) ms
      → Started st ms (for_each b (start_manager b) ms st)
  unfolding for_each
  for_each-Started [] st valid a h = record {
    returned = refl;
    valid = valid;
    running = tt;
    views = λ u. refl;
  }
  for_each-Started (m ∷ ms) st valid a h =
      let st' = (one m st valid h.0).1.pool.store in
      let v = one-view m st valid h.0 in
      let more =
        for_each-Started ms st' (one-valid m st valid h.0) a.1 (rest-IsNew m ms st st' v a.0 h.1) in
      rw (one-returned m st valid h.0) (record {
        returned = more.returned;
        valid = more.valid;
        running = (one-running m st valid h.0, more.running);
        views = λ u. more.views u ∙ ap (λ f. started_views ms f u) (fun_ext v);
      })

  opened_lem :
      (out : Out)
      → out.0 ≡ ok tt
      → opened b (ok tt) out ≡ (ok tt, record { store = out.2; managers = out.1; listening = true })
  opened_lem (ok x, ms, st) h = refl
  opened_lem (err e, ms, st) h = cc

  -- A server that can listen, with managers of different targets, which are all new in a valid store
  -- of any backend that keeps its contract, starts without an exception: it listens, every manager
  -- runs, each target has the addresses of its own manager in the queue, in their order, whatever
  -- the others did to the shared store, and every other target has what it had.
  pub start-Started :
      (s : ProxyServer b)
      → c.IsValid s.store
      → AreApart s.managers
      → All (IsNew s.store) s.managers
      → let out = start b (ok tt) s in
        (out.0 ≡ ok tt)
        × (out.1.listening ≡ true)
        × All (λ (m : Managed b). m.manager.running ≡ true) out.1.managers
        × ((u : Text) → c.view out.1.store u ≡ started_views s.managers (c.view s.store) u)
  unfolding start
  start-Started s valid a h =
      let k = for_each-Started s.managers s.store valid a h in
      rw (opened_lem (for_each b (start_manager b) s.managers s.store) k.returned)
        (refl, refl, k.running, k.views)
