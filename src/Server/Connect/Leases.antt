-- ===== src/Server/Connect/Leases.antt =====
-- What a CONNECT handler leaves behind: which address is still in the pool at its end.
use proxy_hopper_v.Common.{
  ℕ, suc, ◌≤◌, ◌≡◌, refl, ◌∙◌, List, [], ◌∷◌, ◌++◌, append-nil, arith, count, count-append, Text,
  Result, ok, err,
}
use proxy_hopper_v.Config.{TargetConfig}
use proxy_hopper_v.Backend.{Backend, Contract}
use proxy_hopper_v.Pool.{IpPool}
use proxy_hopper_v.Pool.Rotation.{Rotation, taken, failed, succeeded}
use proxy_hopper_v.Pool.Rotation.Copies.{copies, copies-taken, copies-failed, copies-succeeded}
use proxy_hopper_v.Pool.Refinement.{Shows}
use proxy_hopper_v.Pool.Refinement.Methods.{record_success-Ran}
use proxy_hopper_v.Pool.Steps.Conservation.{leased-not-held}
use proxy_hopper_v.Server.Connect.{
  Tunnel, no_address, all_failed, established, Network, attempts, relayed, conclude, handle_connect,
}
use proxy_hopper_v.Server.Connect.Trials.{
  Trials, none_left, no_ip, opened, rejected, attempts-Tried,
}

-- What the handler holds after its attempts.
abbrev pub held : Tunnel → List Text
held (established a) = a ∷ []
held _ = []

-- What it still holds at its end, when nobody can record it any more.
abbrev pub lost_if : Tunnel → Result (Unit {0}) → List Text
lost_if no_address d = []
lost_if all_failed d = []
lost_if (established a) (ok x) = []
lost_if (established a) (err e) = a ∷ []

abbrev pub lost : Network → Tunnel → List Text
lost net t = lost_if t net.drained

copies-swap :
    (x a : Text) (leased : List Text) (r : Rotation)
    → copies x (a ∷ leased) r ≡ copies x (leased ++ a ∷ []) r
unfolding copies count
copies-swap x a leased r = omega (arith, count-append x leased (a ∷ []))

module _ (b : Backend) (c : Contract b) (config : TargetConfig) (net : Network)
    (leased : List Text) where
  -- The step of a failed attempt loses no copy.
  copies-rejected :
      (x : Text) (now : ℕ) (r : Rotation) (a : Text) (rest : List Text)
      → r.view.queue ≡ a ∷ rest
      → ((y : Text) → copies y leased r ≤ 1)
      → copies x leased (failed config now a (taken rest r)) ≡ copies x leased r
  copies-rejected x now r a rest e once =
      let back =
        λ (y : Text). copies-swap y a leased (taken rest r) ∙ copies-taken y leased r a rest e in
      copies-failed x config now a leased (taken rest r)
        (leased-not-held a leased (taken rest r) (omega (arith, back a, once a)))
      ∙ back x

  Trials-copies :
      (x : Text) {n i : ℕ} {r r' : Rotation} {t : Tunnel}
      → Trials b c config net n i r t r'
      → ((y : Text) → copies y leased r ≤ 1)
      → copies x (leased ++ held t) r' ≡ copies x leased r
  Trials-copies x none_left once = rw (append-nil leased) refl
  Trials-copies x (no_ip e) once = rw (append-nil leased) refl
  Trials-copies x {r = r} (opened a rest e o) once = copies-taken x leased r a rest e
  Trials-copies x {i = i} {r = r} (rejected a rest e o trials) once =
      Trials-copies x trials
        (λ y. omega (arith, copies-rejected y (net.over i) r a rest e once, once y))
      ∙ copies-rejected x (net.over i) r a rest e once

  -- The end of a handler, from what its attempts came to.
  pub record Connected (p : IpPool b) (r : Rotation) (out : Result (Unit {0}) × IpPool b)
      : Type 0 where
    pub tunnel : Tunnel
    pub reached : (attempts b config net (suc config.num_retries) 0 p).0 ≡ ok tunnel
    pub rotation : Rotation
    pub shows : Shows b c config out.1 rotation
    pub kept : (x : Text) → copies x (leased ++ lost net tunnel) rotation ≡ copies x leased r

  abbrev Concluded :
      Result (Unit {0}) → Tunnel → IpPool b → Rotation → Result (Unit {0}) × IpPool b → Type 0
  Concluded d t q r out =
      (r' : Rotation) × Shows b c config out.1 r'
      × ((x : Text) → copies x (leased ++ lost_if t d) r' ≡ copies x (leased ++ held t) r)

  relayed-Concluded :
      (d : Result (Unit {0})) (a : Text) (q : IpPool b) (r : Rotation)
      → Shows b c config q r
      → Concluded d (established a) q r (relayed b config net a d q)
  relayed-Concluded (err e) a q r h = (r, h, λ x. refl)
  relayed-Concluded (ok u) a q r h = (
    succeeded config net.closed a r,
    (record_success-Ran b c config net.closed a q r h).shows,
    λ x.
        rw (append-nil leased)
          (copies-succeeded x config net.closed a leased r ∙ copies-swap x a leased r),
  )

  conclude-Concluded :
      (t : Tunnel) (q : IpPool b) (r : Rotation)
      → Shows b c config q r
      → Concluded net.drained t q r (conclude b config net t q)
  conclude-Concluded no_address q r h = (r, h, λ x. refl)
  conclude-Concluded all_failed q r h = (r, h, λ x. refl)
  conclude-Concluded (established a) q r h = relayed-Concluded net.drained a q r h

  -- A CONNECT handler, from any pool with at most one copy of each address, the copies that other
  -- callers hold counted: its attempts come to an end, and then the pool has every address it had,
  -- in the queue, asleep or in the quarantine, but for the one of an established tunnel whose client
  -- was gone when the 200 was to be sent. That one is lost.
  pub handle_connect-Connected :
      (p : IpPool b) (r : Rotation)
      → Shows b c config p r
      → ((y : Text) → copies y leased r ≤ 1)
      → Connected p r (handle_connect b config net p)
  unfolding handle_connect
  handle_connect-Connected p r h once =
      let (t, r1, ran, trials) = attempts-Tried b c config net (suc config.num_retries) 0 p r h in
      let (r2, shown, kept) =
        conclude-Concluded t (attempts b config net (suc config.num_retries) 0 p).1 r1 ran.shows in
      record {
        tunnel = t;
        reached = ran.returned;
        rotation = r2;
        shows = rw ran.returned shown;
        kept = λ x. kept x ∙ Trials-copies x trials once;
      }
