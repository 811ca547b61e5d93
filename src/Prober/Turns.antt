-- ===== src/Prober/Turns.antt =====
-- Each address is probed through the URLs in turn.
use proxy_hopper_v.Common.{
  ℕ, zero, suc, ◌≤◌, ◌<◌, ◌≡◌, refl, sym, ap, subst, ◌∙◌, false, Bool-cases, inl, inr, Option, none,
  some, List, [], ◌∷◌, ◌++◌, append_assoc, append-nil, arith, if◌then◌else◌, length, Text, text_eq,
  text_eq_iff, text_eq_refl, count, lookup, lookup-insert, ok,
}
use proxy_hopper_v.Config.{TargetConfig}
use proxy_hopper_v.Prober.Addresses.{new-addresses, new-prober_of}
use proxy_hopper_v.Prober.{
  new, all_addresses, Probe, Outcome, Made, IpProber, record_outcome, outcome_of, probe_next,
  probe_address, probe_all, probe_rounds, cycles_of,
}

-- The URLs of the probes through an address.
unfoldable pub urls_of : Text → List Made → List Text
urls_of a [] = []
urls_of a (m ∷ ms) = let rest = urls_of a ms in if text_eq a m.address then m.url ∷ rest else rest

urls_of-append :
    (a : Text) (ms ns : List Made) → urls_of a (ms ++ ns) ≡ urls_of a ms ++ urls_of a ns
unfolding urls_of
urls_of-append a [] ns = refl
urls_of-append a (m ∷ ms) ns = ground (arith, urls_of-append a ms ns)

-- The first of a list that starts anew at its end.
abbrev pub firsts : ℕ → List Text → List Text
firsts zero l = []
firsts (suc n) [] = []
firsts (suc n) (u ∷ us) = u ∷ firsts n (us ++ u ∷ [])

firsts-length : (l m : List Text) → firsts (length l) (l ++ m) ≡ l
firsts-length [] m = refl
firsts-length (u ∷ l) m =
    ap (λ k. u ∷ k)
      (ap (firsts (length l)) (append_assoc l m (u ∷ [])) ∙ firsts-length l (m ++ u ∷ []))

-- What the later probes through `a` depend on, and what was probed.
pub record Follows (a : Text) (p : IpProber) (cycle made addresses : List Text) : Type 0 where
  pub cycle_at : lookup a p.url_cycles ≡ some cycle
  pub urls : urls_of a p.made ≡ made
  pub same : p.addresses ≡ addresses

module _ (session : Text → Text → Probe) (a : Text) where
  recorded-Follows :
      (b : Text) (o : Option Outcome) (p : IpProber) {cycle made addresses : List Text}
      → Follows a p cycle made addresses
      → Follows a (record_outcome b o p) cycle made addresses
  recorded-Follows b none p h = h
  recorded-Follows b (some o) p h = record { cycle_at = h.cycle_at; urls = h.urls; same = h.same }

  -- A probe through another address changes nothing for `a`.
  pub other-Follows :
      (b : Text) (o : Option (List Text)) (p : IpProber) {cycle made addresses : List Text}
      → text_eq a b ≡ false
      → Follows a p cycle made addresses
      → Follows a (probe_next session b o p) cycle made addresses
  unfolding urls_of
  other-Follows b none p e h = h
  other-Follows b (some []) p e h = h
  other-Follows b (some (url ∷ urls)) p e h =
      recorded-Follows b (outcome_of (session url b)) _ (record {
        cycle_at = ground (
          arith,
          lookup-insert b a (urls ++ url ∷ []) p.url_cycles,
          text_eq_iff a b,
          text_eq_iff b a,
          h.cycle_at,
        );
        urls =
            rw
              (
                urls_of-append a p.made (record { address = b; url = url } ∷ []),
                e,
                append-nil (urls_of a p.made),
              )
              h.urls;
        same = h.same;
      })

  -- A probe through `a` takes the next URL.
  pub own-Follows :
      (p : IpProber) {url : Text} {urls made addresses : List Text}
      → Follows a p (url ∷ urls) made addresses
      → Follows a (probe_address session a p) (urls ++ url ∷ []) (made ++ url ∷ []) addresses
  unfolding probe_address urls_of
  own-Follows p {url} {urls} h =
      rw (h.cycle_at, probe_address)
        (recorded-Follows a (outcome_of (session url a)) _ (record {
          cycle_at =
              ground (arith, lookup-insert a a (urls ++ url ∷ []) p.url_cycles, text_eq_refl a);
          urls =
              rw
                (
                  urls_of-append a p.made (record { address = a; url = url } ∷ []),
                  text_eq_refl a,
                  h.urls,
                )
                refl;
          same = h.same;
        }))

  pub absent-Follows :
      (as' : List Text) (p : IpProber) {cycle made addresses : List Text}
      → count a as' ≡ 0
      → Follows a p cycle made addresses
      → Follows a (probe_all session as' p) cycle made addresses
  unfolding probe_all probe_address count
  absent-Follows [] p e h = h
  absent-Follows (b ∷ as') p e h =
      absent-Follows as' (probe_address session b p) (ground arith)
        (other-Follows b (lookup b p.url_cycles) p (ground arith) h)

  -- A round probes once through `a`.
  pub round-Follows :
      (as' : List Text) (p : IpProber) {url : Text} {urls made addresses : List Text}
      → count a as' ≡ 1
      → Follows a p (url ∷ urls) made addresses
      → Follows a (probe_all session as' p) (urls ++ url ∷ []) (made ++ url ∷ []) addresses
  unfolding probe_all probe_address count
  round-Follows [] p e h = absurd (omega arith)
  round-Follows (b ∷ as') p {url} {urls} {made} {addresses} e h = elim (Bool-cases (text_eq a b)) [
    | inl same ↦ absent-Follows as' (probe_address session b p) (ground arith) (
        subst
          (λ x.
            Follows a (probe_address session x p) (urls ++ url ∷ []) (made ++ url ∷ []) addresses)
          ((text_eq_iff a b).0 same) (own-Follows p h))
    | inr other ↦
        round-Follows as' (probe_address session b p) (ground arith)
          (other-Follows b (lookup b p.url_cycles) p other h)
  ]

-- The URL that comes next after a number of rounds.
abbrev pub turn : ℕ → Text → List Text → Text
turn zero url urls = url
turn (suc n) url [] = turn n url []
turn (suc n) url (v ∷ vs) = turn n v (vs ++ url ∷ [])

rounds_lem :
    (a : Text) (sessions : ℕ → Text → Text → Probe) (n : ℕ) (p : IpProber) (url : Text)
    (urls made addresses : List Text)
    → count a addresses ≡ 1
    → Follows a p (url ∷ urls) made addresses
    → urls_of a (probe_rounds sessions n p).made ≡ made ++ firsts n (url ∷ urls)
unfolding probe_rounds
rounds_lem a sessions zero p url urls made addresses once h = h.urls ∙ sym (append-nil made)
rounds_lem a sessions (suc n) p url [] made addresses once h =
    rounds_lem a (λ i. sessions (suc i)) n (probe_all (sessions 0) p.addresses p) url []
      (made ++ url ∷ []) addresses once
      (round-Follows (sessions 0) a p.addresses p (ap (count a) h.same ∙ once) h)
    ∙ append_assoc made (url ∷ []) (firsts n (url ∷ []))
rounds_lem a sessions (suc n) p url (v ∷ vs) made addresses once h =
    rounds_lem a (λ i. sessions (suc i)) n (probe_all (sessions 0) p.addresses p) v (vs ++ url ∷ [])
      (made ++ url ∷ []) addresses once
      (round-Follows (sessions 0) a p.addresses p (ap (count a) h.same ∙ once) h)
    ∙ append_assoc made (url ∷ []) (firsts n (v ∷ vs ++ url ∷ []))

cycles_of-lookup :
    (urls : List Text) (a : Text) (as' : List Text)
    → 1 ≤ count a as'
    → lookup a (cycles_of urls as') ≡ some urls
unfolding lookup count
cycles_of-lookup urls a [] h = absurd (omega arith)
cycles_of-lookup urls a (b ∷ as') h = ground (arith, cycles_of-lookup urls a as')

-- What a new prober has for an address of its targets.
pub new-Follows :
    (targets : List TargetConfig) (url : Text) (urls all : List Text) (p : IpProber) (a : Text)
    → new targets (url ∷ urls) ≡ ok p
    → all_addresses targets ≡ ok all
    → 0 < count a all
    → (count a p.addresses ≡ 1) × Follows a p (url ∷ urls) [] p.addresses
unfolding urls_of
new-Follows targets url urls all p a h k there =
    let once : count a p.addresses ≡ 1 =
      ground (arith, new-addresses targets (url ∷ urls) all p a h k) in
    (
      once,
      subst (λ q. count a q.addresses ≡ 1 → Follows a q (url ∷ urls) [] q.addresses)
          (sym (new-prober_of targets (url ∷ urls) all p h k))
          (λ o. record {
            cycle_at = cycles_of-lookup (url ∷ urls) a _ (omega arith);
            urls = refl;
            same = refl;
          })
          once,
    )

-- After any number of rounds, each address of the targets was probed once in each round, through the
-- URLs of the list in their order, which starts anew at its end; whatever the probes came to.
pub new-turns :
    (sessions : ℕ → Text → Text → Probe) (targets : List TargetConfig) (url : Text)
    (urls all : List Text) (p : IpProber) (a : Text) (n : ℕ)
    → new targets (url ∷ urls) ≡ ok p
    → all_addresses targets ≡ ok all
    → 0 < count a all
    → (urls_of a (probe_rounds sessions n p).made ≡ firsts n (url ∷ urls))
      × (urls_of a (probe_rounds sessions (length (url ∷ urls)) p).made ≡ url ∷ urls)
new-turns sessions targets url urls all p a n h k there =
    let (once, start) = new-Follows targets url urls all p a h k there in
    let rounds = λ (m : ℕ). rounds_lem a sessions m p url urls [] p.addresses once start in
    (
      rounds n,
      rounds (length (url ∷ urls))
          ∙ ap (firsts (length (url ∷ urls))) (sym (append-nil (url ∷ urls)))
          ∙ firsts-length (url ∷ urls) [],
    )
