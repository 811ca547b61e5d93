-- ===== src/Cli/Validation.antt =====
-- What `validate` of cli.py accepts.
use proxy_hopper_v.Common.{◌≡◌, refl, ◌↔◌, List, [], ◌∷◌, arith, Text, Result, ok, err, All, map}
use proxy_hopper_v.Strings.Ints.{ℤ}
use proxy_hopper_v.Config.{TargetConfig, resolved_ip_list, address}
use proxy_hopper_v.Config.Settings.{ServerConfig}
use proxy_hopper_v.Pool.{addresses_of}
use proxy_hopper_v.Cli.{Verdict, target_checked, check_targets, validate}

-- A pool can be made for the target.
abbrev pub IsUsable : TargetConfig → Type 0
IsUsable t = (as' : List Text) × (addresses_of t ≡ ok as')

-- The file was loaded, and a pool can be made for each target.
abbrev pub IsLoaded : {F : Type 0} → Result (List TargetConfig × ServerConfig F) → Type 0
IsLoaded (err e) = ⊥
IsLoaded (ok (targets, server)) = All IsUsable targets

usable :
    (t : TargetConfig) (more : Verdict) (r : Result (List (Text × ℤ)))
    → resolved_ip_list t ≡ r
    → (target_checked t more r).status ≡ 0
    → IsUsable t × (more.status ≡ 0)
unfolding addresses_of
usable t more (ok ips) e h = ((map address ips, rw e refl), h)
usable t more (err x) e h = ground (arith, h)

checked :
    (t : TargetConfig) (more : Verdict) (r : Result (List (Text × ℤ)))
    → resolved_ip_list t ≡ r
    → IsUsable t
    → more.status ≡ 0
    → (target_checked t more r).status ≡ 0
unfolding addresses_of
checked t more (ok ips) e u h = h
checked t more (err x) e (as', p) h = ground (arith, e, p)

check_targets-accepts :
    {F : Type 0} (s : ServerConfig F) (ts : List TargetConfig)
    → ((check_targets s ts).status ≡ 0) ↔ All IsUsable ts
unfolding check_targets
check_targets-accepts s [] = (λ h. tt, λ h. refl)
check_targets-accepts s (t ∷ ts) = (
  λ h.
      let (u, k) = usable t (check_targets s ts) (resolved_ip_list t) refl h in
      (u, (check_targets-accepts s ts).0 k),
  λ (u, k).
      checked t (check_targets s ts) (resolved_ip_list t) refl u ((check_targets-accepts s ts).1 k),
)

-- `validate` exits with status 0 exactly if the file was loaded and a pool can be made for each of
-- its targets, as the managers of a run make them.
pub validate-accepts :
    {F : Type 0} (cfg : Result (List TargetConfig × ServerConfig F))
    → ((validate cfg).status ≡ 0) ↔ IsLoaded cfg
unfolding validate
validate-accepts (err e) = (λ h. ground (arith, h), λ h. absurd h)
validate-accepts (ok (targets, server)) = check_targets-accepts server targets
