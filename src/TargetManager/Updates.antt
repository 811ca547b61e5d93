-- ===== src/TargetManager/Updates.antt =====
-- `_metrics_updater` of target_manager.py: a round of its loop after its sleep.
use proxy_hopper_v.Common.{◌≡◌, refl, List, [], ◌∷◌, bit, length, count, Text, Result, ok, err}
use proxy_hopper_v.Config.{TargetConfig}
use proxy_hopper_v.Backend.{Backend, Contract, is_some}
use proxy_hopper_v.Metrics.{Report, set_available_ips, set_quarantined_ips, set_queue_depth}
use proxy_hopper_v.Pool.{Status, get_status}
use proxy_hopper_v.Pool.Rotation.{Rotation}
use proxy_hopper_v.Pool.Refinement.{Shows}
use proxy_hopper_v.Pool.Refinement.Start.{get_status-Ran}
use proxy_hopper_v.TargetManager.{TargetManager, on_pool}

module _ (b : Backend) (config : TargetConfig) where
  -- The calls of the collector; an exception is logged.
  abbrev pub updated : Result Status → TargetManager b → List Report × TargetManager b
  updated (err e) s = ([], s)
  updated (ok status) s = (
    set_available_ips config.name status.available_ips
        ∷ set_quarantined_ips config.name (length status.quarantined_ips)
        ∷ set_queue_depth config.name (length s.request_queue)
        ∷ [],
    s,
  )

  unfoldable pub update_metrics : TargetManager b → List Report × TargetManager b
  update_metrics s = let out = on_pool b (get_status b config) s in updated out.0 out.1

-- On a manager whose pool shows a rotation, a round of the metrics updater reports the number of
-- available addresses, the number of quarantined ones, of which each is counted once, and the number
-- of waiting requests, and the pool shows the same afterwards; nothing else of the manager changes.
pub update_metrics-reports :
    (b : Backend) (c : Contract b) (config : TargetConfig) (s : TargetManager b) (r : Rotation)
    → Shows b c config s.pool r
    → let out = update_metrics b config s in
      (xs : List Text) × ((a : Text) → count a xs ≡ bit (is_some (r.view.release a)))
      × (out.0
          ≡ set_available_ips config.name (length r.view.queue)
            ∷ set_quarantined_ips config.name (length xs)
            ∷ set_queue_depth config.name (length s.request_queue)
            ∷ [])
      × Shows b c config out.1.pool r
      × (out.1 ≡ record s { pool = out.1.pool })
unfolding update_metrics
update_metrics-reports b c config s r h =
    let (xs, each, k) = get_status-Ran b c config s.pool r h in
    (xs, each, rw k.returned refl, rw k.returned k.shows, rw k.returned refl)
