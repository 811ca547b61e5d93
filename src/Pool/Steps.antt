-- ===== src/Pool/Steps.antt =====
-- Any interleaving of the callers of a pool, its sleeping tasks and its sweeps, as a step relation
-- over the rotation, with what the callers hold and a clock.
pub mod Conservation
pub mod Waits
pub mod RateLimit
use proxy_hopper_v.Common.{
  ℕ, ◌+◌, ◌≤◌, ◌<◌, ◌≡◌, refl, true, false, Option, none, some, List, [], ◌∷◌, ◌++◌, arith, leb,
  if◌then◌else◌, bit, count, Text, text_eq, text_eq_iff, IsNodup,
}
use proxy_hopper_v.Config.{TargetConfig}
use proxy_hopper_v.Backend.{View, Claims, swept, update, empty_view, is_some}
use proxy_hopper_v.Pool.{Cooldown, extract}
use proxy_hopper_v.Pool.Rotation.{
  Rotation, enqueued_all, taken, succeeded, failed, woken, released_all,
}
use proxy_hopper_v.Pool.Rotation.Copies.{
  copies, count_cooling, count-extract, copies-enqueued_all, copies-taken, copies-succeeded,
  copies-failed, copies-woken, copies-swept,
}

pub record World : Type 0 where
  pub rotation : Rotation
  -- the addresses that callers of `acquire` hold and have not recorded yet
  pub leased : List Text
  pub clock : ℕ
  -- before this time no client may use the address again: the time of the last record with the
  -- interval added, 0 if there is none
  pub ready_at : Text → ℕ

module _ (config : TargetConfig) where
  pub data Step (w : World) : World → Type 0 where
    acquire :
        (now : ℕ) (a : Text) (rest : List Text)
        → w.clock ≤ now
        → w.rotation.view.queue ≡ a ∷ rest
        → Step w (record w {
          rotation = taken rest w.rotation;
          leased = w.leased ++ a ∷ [];
          clock = now;
        })
    succeed :
        (now i : ℕ) (a : Text) (rest : List Text)
        → w.clock ≤ now
        → extract i w.leased ≡ some (a, rest)
        → Step w (record {
          rotation = succeeded config now a w.rotation;
          leased = rest;
          clock = now;
          ready_at = update w.ready_at a (now + config.min_request_interval);
        })
    fail :
        (now i : ℕ) (a : Text) (rest : List Text)
        → w.clock ≤ now
        → extract i w.leased ≡ some (a, rest)
        → Step w (record {
          rotation = failed config now a w.rotation;
          leased = rest;
          clock = now;
          ready_at = update w.ready_at a (now + config.min_request_interval);
        })
    wake :
        (now i : ℕ)
        → w.clock ≤ now
        → Step w (record w {
          rotation = woken now (extract i w.rotation.cooling) w.rotation;
          clock = now;
        })
    sweep :
        (now : ℕ) (xs : List Text)
        → w.clock ≤ now
        → Claims now w.rotation.view xs
        → Step w (record w {
          rotation = released_all xs (record w.rotation { view = swept now w.rotation.view });
          clock = now;
        })
    idle : (now : ℕ) → w.clock ≤ now → Step w (record w { clock = now })

  pub data Reach (w : World) : World → Type 0 where
    here : Reach w w
    next : {u v : World} → Reach w u → Step u v → Reach w v

-- The world after the first start with the given addresses.
abbrev pub seeded : List Text → World
seeded as' = record {
  rotation = enqueued_all as' (record { view = empty_view; cooling = [] });
  leased = [];
  clock = 0;
  ready_at = λ a. 0;
}
