-- ===== src/Backend/Memory/Tests.antt =====
-- The theorems on backend/memory.py at a store with one target.
use proxy_hopper_v.Common.{List, Text}
use proxy_hopper_v.Backend.{Done, Claims, swept}
use proxy_hopper_v.Backend.Memory.{quarantine_pop_expired}
use proxy_hopper_v.Backend.Memory.Stored.{view, IsValid}
use proxy_hopper_v.Backend.Memory.Laws.{quarantine_pop_expired-Done}
use proxy_hopper_v.Samples.{config}
use proxy_hopper_v.Pool.Tests.{holding, holding-Shows, failed_twice}

quarantine_pop_expired-Done_example :
    (xs : List Text) × Claims 200000 failed_twice.view xs
    × Done view IsValid holding.store config.name
        (quarantine_pop_expired config.name 200000 holding.store)
        xs
        (swept 200000 failed_twice.view)
quarantine_pop_expired-Done_example =
    quarantine_pop_expired-Done holding.store config.name failed_twice.view holding-Shows.valid
      holding-Shows.view 200000
