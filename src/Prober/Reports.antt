-- ===== src/Prober/Reports.antt =====
-- What the probes of prober.py hand to the metrics.
use proxy_hopper_v.Common.{
  ℕ, zero, suc, ◌<◌, ◌≡◌, refl, sym, ap, subst, ◌∙◌, true, false, Bool-cases, inl, inr, Option,
  none, some, List, [], ◌∷◌, ◌++◌, arith, ltb, if◌then◌else◌, Text, text_eq, text_eq_iff,
  text_eq_refl, count, lookup, ok,
}
use proxy_hopper_v.Config.{TargetConfig}
use proxy_hopper_v.Metrics.{
  Report, record_probe_success, record_probe_failure, ip_reachable, Prometheus, Metrics,
  collect_all,
}
use proxy_hopper_v.Metrics.Counting.{IsDocumented, last_told, collect_all-Counted}
use proxy_hopper_v.Prober.Turns.{Follows, other-Follows, round-Follows, new-Follows, turn}
use proxy_hopper_v.Prober.{
  new, all_addresses, Probe, answered, timed_out, proxy_unreachable, connection_error, unexpected,
  Outcome, success, failure, IpProber, record_outcome, outcome_of, probe_next, probe_address,
  probe_all, probe_rounds,
}

-- `_record_probe_success` and `_record_probe_failure`, with the duration of the probe.
unfoldable pub reported : ℕ → Text × Outcome → Report
reported duration (a, success) = record_probe_success a duration
reported duration (a, failure reason) = record_probe_failure a reason duration

-- The calls of the collector for outcomes in their order; `durations` counts them from 0.
unfoldable pub all_reported : (ℕ → ℕ) → List (Text × Outcome) → List Report
unfolding reported
all_reported durations [] = []
all_reported durations (o ∷ os) =
    reported (durations 0) o ∷ all_reported (λ i. durations (suc i)) os

-- What an outcome says of an address, where `before` was known.
abbrev pub heard_of : Text → Text × Outcome → ℕ → ℕ
heard_of a (b, success) before = if text_eq b a then 1 else before
heard_of a (b, failure reason) before = if text_eq b a then 0 else before

unfoldable pub heard : Text → List (Text × Outcome) → ℕ → ℕ
heard a [] before = before
heard a (o ∷ os) before = heard a os (heard_of a o before)

heard-append :
    (a : Text) (os os' : List (Text × Outcome)) (before : ℕ)
    → heard a (os ++ os') before ≡ heard a os' (heard a os before)
unfolding heard
heard-append a [] os' before = refl
heard-append a (o ∷ os) os' before = heard-append a os os' (heard_of a o before)

told-heard :
    (a : Text) (durations : ℕ → ℕ) (os : List (Text × Outcome)) (before : ℕ)
    → last_told a (all_reported durations os) before ≡ heard a os before
unfolding last_told all_reported reported heard
told-heard a durations [] before = refl
told-heard a durations ((b, success) ∷ os) before = told-heard a (λ i. durations (suc i)) os _
told-heard a durations ((b, failure reason) ∷ os) before =
    told-heard a (λ i. durations (suc i)) os _

-- Whether a proxy is reachable, by a probe through it.
abbrev pub reach : Probe → ℕ → ℕ
reach (answered status) before = if ltb status 500 then 1 else 0
reach unexpected before = before
reach _ before = 0

abbrev after : Text → Text → Option Outcome → ℕ → ℕ
after a b none before = before
after a b (some o) before = heard_of a (b, o) before

after-own : (a : Text) (x : Probe) (before : ℕ) → after a a (outcome_of x) before ≡ reach x before
after-own a (answered status) before = elim (Bool-cases (ltb status 500)) [
  | inl e ↦ rw (e, text_eq_refl a) refl
  | inr e ↦ rw (e, text_eq_refl a) refl
]
after-own a timed_out before = rw (text_eq_refl a) refl
after-own a proxy_unreachable before = rw (text_eq_refl a) refl
after-own a connection_error before = rw (text_eq_refl a) refl
after-own a unexpected before = refl

after-other :
    (a b : Text) (o : Option Outcome) (before : ℕ)
    → text_eq a b ≡ false
    → after a b o before ≡ before
after-other a b none before e = refl
after-other a b (some success) before e = ground (arith, text_eq_iff a b, text_eq_iff b a)
after-other a b (some (failure reason)) before e = ground (arith, text_eq_iff a b, text_eq_iff b a)

module _ (session : Text → Text → Probe) (a : Text) (before : ℕ) where
  heard-recorded :
      (b : Text) (o : Option Outcome) (p : IpProber)
      → heard a (record_outcome b o p).outcomes before ≡ after a b o (heard a p.outcomes before)
  unfolding heard
  heard-recorded b none p = refl
  heard-recorded b (some o) p = heard-append a p.outcomes ((b, o) ∷ []) before

  heard-other :
      (b : Text) (c : Option (List Text)) (p : IpProber)
      → text_eq a b ≡ false
      → heard a (probe_next session b c p).outcomes before ≡ heard a p.outcomes before
  heard-other b none p e = refl
  heard-other b (some []) p e = refl
  heard-other b (some (url ∷ urls)) p e =
      heard-recorded b (outcome_of (session url b)) _
      ∙ after-other a b (outcome_of (session url b)) _ e

  heard-own :
      (p : IpProber) {url : Text} {urls : List Text}
      → lookup a p.url_cycles ≡ some (url ∷ urls)
      → heard a (probe_address session a p).outcomes before
        ≡ reach (session url a) (heard a p.outcomes before)
  unfolding probe_address
  heard-own p {url} h =
      rw (h, probe_address)
        (heard-recorded a (outcome_of (session url a)) _ ∙ after-own a (session url a) _)

  heard-absent :
      (as' : List Text) (p : IpProber)
      → count a as' ≡ 0
      → heard a (probe_all session as' p).outcomes before ≡ heard a p.outcomes before
  unfolding probe_all probe_address count
  heard-absent [] p e = refl
  heard-absent (b ∷ as') p e =
      heard-absent as' (probe_address session b p) (ground arith)
      ∙ heard-other b (lookup b p.url_cycles) p (ground arith)

  -- A round tells what the probe through the next URL of the address comes to.
  heard-round :
      (as' : List Text) (p : IpProber) {url : Text} {urls made addresses : List Text}
      → count a as' ≡ 1
      → Follows a p (url ∷ urls) made addresses
      → heard a (probe_all session as' p).outcomes before
        ≡ reach (session url a) (heard a p.outcomes before)
  unfolding probe_all probe_address count
  heard-round [] p e h = absurd (omega arith)
  heard-round (b ∷ as') p {url} e h = elim (Bool-cases (text_eq a b)) [
    | inl same ↦
        heard-absent as' (probe_address session b p) (ground arith)
        ∙ subst
            (λ x.
              heard a (probe_address session x p).outcomes before
              ≡ reach (session url a) (heard a p.outcomes before))
            ((text_eq_iff a b).0 same) (heard-own p h.cycle_at)
    | inr other ↦
        heard-round as' (probe_address session b p) (ground arith)
          (other-Follows session a b (lookup b p.url_cycles) p other h)
        ∙ ap (reach (session url a)) (heard-other b (lookup b p.url_cycles) p other)
  ]

-- The rounds of a new prober, one after the other.
rounds-reach :
    (a : Text) (sessions : ℕ → Text → Text → Probe) (n : ℕ) (p : IpProber) (url : Text)
    (urls made addresses : List Text) (before : ℕ)
    → count a addresses ≡ 1
    → Follows a p (url ∷ urls) made addresses
    → heard a (probe_rounds sessions (suc n) p).outcomes before
      ≡ reach (sessions n (turn n url urls) a) (heard a (probe_rounds sessions n p).outcomes before)
unfolding probe_rounds
rounds-reach a sessions zero p url urls made addresses before once h =
    heard-round (sessions 0) a before p.addresses p (ap (count a) h.same ∙ once) h
rounds-reach a sessions (suc n) p url [] made addresses before once h =
    rounds-reach a (λ i. sessions (suc i)) n (probe_all (sessions 0) p.addresses p) url []
      (made ++ url ∷ []) addresses before once
      (round-Follows (sessions 0) a p.addresses p (ap (count a) h.same ∙ once) h)
rounds-reach a sessions (suc n) p url (v ∷ vs) made addresses before once h =
    rounds-reach a (λ i. sessions (suc i)) n (probe_all (sessions 0) p.addresses p) v
      (vs ++ url ∷ []) (made ++ url ∷ []) addresses before once
      (round-Follows (sessions 0) a p.addresses p (ap (count a) h.same ∙ once) h)

-- With the metrics enabled, the gauge of an address of the targets, after the probes of any number
-- of rounds of a new prober and one more were recorded: 1 if the last probe, through the URL whose
-- turn it is, brought a status below 500, 0 if it brought another status, a time-out or an error of
-- the connection, and what it was before the last round if it ended with any other exception. The
-- library keeps counters and gauges as it documents.
pub probe_rounds-reachable :
    (lib : Prometheus) (d : IsDocumented lib) (m : Metrics lib) (durations : ℕ → ℕ)
    (sessions : ℕ → Text → Text → Probe) (targets : List TargetConfig) (url : Text)
    (urls all : List Text) (p : IpProber) (a : Text) (n : ℕ)
    → m.enabled ≡ true
    → new targets (url ∷ urls) ≡ ok p
    → all_addresses targets ≡ ok all
    → 0 < count a all
    → let gauge_after : ℕ → ℕ = λ k.
      d.gauge
        (collect_all lib (all_reported durations (probe_rounds sessions k p).outcomes) m).registry
        ip_reachable
        (a ∷ []) in
      gauge_after (suc n) ≡ reach (sessions n (turn n url urls) a) (gauge_after n)
probe_rounds-reachable lib d m durations sessions targets url urls all p a n enabled h k there =
    let (once, start) = new-Follows targets url urls all p a h k there in
    let before = d.gauge m.registry ip_reachable (a ∷ []) in
    let heard_after = λ (j : ℕ).
      (collect_all-Counted lib d (all_reported durations (probe_rounds sessions j p).outcomes) m a a
        a enabled).1
      ∙ told-heard a durations (probe_rounds sessions j p).outcomes before in
    heard_after (suc n)
    ∙ rounds-reach a sessions n p url urls [] p.addresses before once start
    ∙ ap (reach (sessions n (turn n url urls) a)) (sym (heard_after n))
