-- ===== src/Pool/Steps/Conservation.antt =====
-- No interleaving loses an address or makes a second copy of it.
use proxy_hopper_v.Common.{
  ℕ, ◌+◌, ◌≤◌, ◌≡◌, ◌∙◌, none, some, List, [], ◌∷◌, arith, bit, count, Text, text_eq_refl, IsNodup,
}
use proxy_hopper_v.Config.{TargetConfig}
use proxy_hopper_v.Backend.{is_some, empty_view}
use proxy_hopper_v.Pool.{extract}
use proxy_hopper_v.Pool.Rotation.{Rotation}
use proxy_hopper_v.Pool.Rotation.Copies.{
  copies, count_cooling, count-extract, copies-enqueued_all, copies-taken, copies-succeeded,
  copies-failed, copies-woken, copies-swept,
}
use proxy_hopper_v.Pool.Steps.{
  World, Step, acquire, succeed, fail, wake, sweep, idle, Reach, here, next, seeded,
}

-- Each address is in as many places as it was given to `start`.
pub record IsConserved (as' : List Text) (w : World) : Type 0 where
  pub each : (x : Text) → copies x w.leased w.rotation ≡ count x as'

pub copies-extract :
    (x : Text) (i : ℕ) (l : List Text) (r : Rotation) (a : Text) (rest : List Text)
    → extract i l ≡ some (a, rest)
    → copies x (a ∷ rest) r ≡ copies x l r
unfolding copies count
copies-extract x i l r a rest e = omega (arith, count-extract x i l {a = a} {rest = rest} e)

-- An address that a caller holds is not in the quarantine, if there is one copy of it.
pub leased-not-held :
    (a : Text) (rest : List Text) (r : Rotation)
    → copies a (a ∷ rest) r ≤ 1
    → r.view.release a ≡ none
unfolding copies count
leased-not-held a rest r h = ground (arith, text_eq_refl a)

-- An address that a caller holds neither waits nor sleeps, if there is one copy of it.
pub leased-not-elsewhere :
    (a : Text) (rest : List Text) (r : Rotation)
    → copies a (a ∷ rest) r ≤ 1
    → (count a r.view.queue ≡ 0) × (count_cooling a r.cooling ≡ 0)
unfolding copies count
leased-not-elsewhere a rest r h = ground (arith, text_eq_refl a)

module _ (config : TargetConfig) (as' : List Text) (once : IsNodup as') where
  pub Step-IsConserved : {w v : World} → Step config w v → IsConserved as' w → IsConserved as' v
  Step-IsConserved {w} (acquire now a rest t e) h = record {
    each = λ x. copies-taken x w.leased w.rotation a rest e ∙ h.each x;
  }
  Step-IsConserved {w} (succeed now i a rest t e) h = record {
    each = λ x.
        copies-succeeded x config now a rest w.rotation
        ∙ copies-extract x i w.leased w.rotation a rest e
        ∙ h.each x;
  }
  Step-IsConserved {w} (fail now i a rest t e) h = record {
    each = λ x.
        copies-failed x config now a rest w.rotation (
          leased-not-held a rest w.rotation
            (omega (arith, copies-extract a i w.leased w.rotation a rest e, h.each a, once a)))
        ∙ copies-extract x i w.leased w.rotation a rest e
        ∙ h.each x;
  }
  Step-IsConserved {w} (wake now i t) h = record {
    each = λ x. copies-woken x now i w.leased w.rotation ∙ h.each x;
  }
  Step-IsConserved {w} (sweep now xs t claims) h = record {
    each = λ x. copies-swept x now xs w.leased w.rotation claims ∙ h.each x;
  }
  Step-IsConserved (idle now t) h = record { each = h.each }

  seeded-IsConserved : IsConserved as' (seeded as')
  unfolding copies count count_cooling
  seeded-IsConserved = record {
    each = λ x.
        omega (arith, copies-enqueued_all x as' [] (record { view = empty_view; cooling = [] }));
  }

  pub Reach-IsConserved : {w : World} → Reach config (seeded as') w → IsConserved as' w
  Reach-IsConserved here = seeded-IsConserved
  Reach-IsConserved (next r s) = Step-IsConserved s (Reach-IsConserved r)

-- After any interleaving of calls, wake-ups and sweeps, every address of a list without repetitions
-- is in exactly one place: waiting in the queue, asleep, in the quarantine, or with a caller. An
-- address that is not in the list is nowhere.
pub Reach-copies :
    (config : TargetConfig) (as' : List Text) (w : World) (x : Text)
    → IsNodup as'
    → Reach config (seeded as') w
    → count x w.rotation.view.queue
        + count_cooling x w.rotation.cooling
        + bit (is_some (w.rotation.view.release x))
        + count x w.leased
      ≡ count x as'
unfolding copies
Reach-copies config as' w x once r = (Reach-IsConserved config as' once r).each x
