-- ===== src/Backend/Memory/Claiming.antt =====
-- `init_target` of backend/memory.py on a target that is new.
use proxy_hopper_v.Common.{
  ◌≡◌, refl, true, false, none, [], arith, Text, text_eq_iff, lookup, lookup-insert,
}
use proxy_hopper_v.Backend.{empty_view, Done}
use proxy_hopper_v.Backend.Memory.{Memory, member, init_target}
use proxy_hopper_v.Backend.Memory.Stored.{view, view_parts, IsValid, wrote-Done}

unclaimed : (s : Memory) (t : Text) → IsValid s → view s t ≡ none → member t s.initialised ≡ false
unfolding view view_parts
unclaimed s t h e = ground (arith, h.pools t, h.failures t, h.quarantine t)

-- In a valid store without it, a new target gets an empty queue, no failures and no quarantine.
pub init_target-Done_first :
    (s : Memory) (t : Text)
    → IsValid s
    → view s t ≡ none
    → Done view IsValid s t (init_target t s) true empty_view
unfolding init_target member lookup
init_target-Done_first s t h e = rw (unclaimed s t h e) (
    wrote-Done s _ t [] [] []
      (record {
        pools = λ u. lookup-insert t u _ s.pools;
        failures = λ u. lookup-insert t u _ s.failures;
        quarantine = λ u. lookup-insert t u _ s.quarantine;
        initialised = λ u. ground (arith, text_eq_iff t u, text_eq_iff u t);
      })
      true h tt _ refl)
