-- ===== src/Pool/Rotation.antt =====
-- What pool.py promises for one target, with no backend in sight: the view of the target, the
-- sleeping tasks, and one function for each operation.
pub mod Copies
use proxy_hopper_v.Common.{
  ℕ, ◌+◌, Option, none, some, List, [], ◌∷◌, ◌++◌, leb, if◌then◌else◌, Text,
}
use proxy_hopper_v.Config.{TargetConfig}
use proxy_hopper_v.Backend.{View, pushed, popped, counted, quarantined, swept}
use proxy_hopper_v.Pool.{Cooldown, extract}

pub record Rotation : Type 0 where
  pub view : View
  pub cooling : List Cooldown

abbrev pub enqueued : Text → Rotation → Rotation
enqueued a r = record r { view = pushed a r.view }

abbrev pub enqueued_all : List Text → Rotation → Rotation
enqueued_all [] r = r
enqueued_all (a ∷ as') r = enqueued_all as' (enqueued a r)

abbrev pub cooled : Text → ℕ → Rotation → Rotation
cooled a due r = record r { cooling = r.cooling ++ (record { address = a; due = due }) ∷ [] }

abbrev pub taken : List Text → Rotation → Rotation
taken rest r = record r { view = popped rest r.view }

module _ (config : TargetConfig) where
  abbrev pub succeeded : ℕ → Text → Rotation → Rotation
  succeeded now a r =
      cooled a (now + config.min_request_interval) (record r { view = counted a 0 r.view })

  abbrev pub failed : ℕ → Text → Rotation → Rotation
  failed now a r =
      let n = r.view.failures a + 1 in
      if leb config.ip_failures_until_quarantine n
      then record r { view = quarantined a (now + config.quarantine_time) (counted a n r.view) }
      else cooled a (now + config.min_request_interval) (record r { view = counted a n r.view })

abbrev pub woken : ℕ → Option (Cooldown × List Cooldown) → Rotation → Rotation
woken now none r = r
woken now (some (c, rest)) r =
    if leb c.due now then enqueued c.address (record r { cooling = rest }) else r

-- An address that leaves the quarantine starts anew, at the end of the queue.
abbrev pub released : Text → Rotation → Rotation
released a r = enqueued a (record r { view = counted a 0 r.view })

abbrev pub released_all : List Text → Rotation → Rotation
released_all [] r = r
released_all (a ∷ as') r = released_all as' (released a r)
