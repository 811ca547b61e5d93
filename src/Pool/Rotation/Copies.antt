-- ===== src/Pool/Rotation/Copies.antt =====
-- Where the copies of an address are: in the queue, asleep, in the quarantine, or with a caller.
use proxy_hopper_v.Common.{
  ℕ, zero, suc, ◌+◌, ◌≡◌, refl, Option, none, some, List, [], ◌∷◌, ◌++◌, arith, leb, Bool-cases,
  inl, inr, Option-cases, bit, count, count-append, Text, text_eq, text_eq_iff,
}
use proxy_hopper_v.Config.{TargetConfig}
use proxy_hopper_v.Backend.{Claims, swept, is_some, counted}
use proxy_hopper_v.Pool.{Cooldown, extract}
use proxy_hopper_v.Pool.Rotation.{
  Rotation, enqueued, enqueued_all, cooled, taken, succeeded, failed, woken, released, released_all,
}

unfoldable pub count_cooling : Text → List Cooldown → ℕ
count_cooling a [] = 0
count_cooling a (c ∷ cs) = bit (text_eq a c.address) + count_cooling a cs

unfoldable pub copies : Text → List Text → Rotation → ℕ
copies x leased r =
    count x r.view.queue
    + count_cooling x r.cooling
    + bit (is_some (r.view.release x))
    + count x leased

count_cooling-append :
    (x : Text) (cs ds : List Cooldown)
    → count_cooling x (cs ++ ds) ≡ count_cooling x cs + count_cooling x ds
unfolding count_cooling
count_cooling-append x [] ds = omega arith
count_cooling-append x (c ∷ cs) ds = omega (arith, count_cooling-append x cs ds)

-- What `extract` takes out is counted.
pub count-extract :
    (x : Text) (i : ℕ) (l : List Text) {a : Text} {rest : List Text}
    → extract i l ≡ some (a, rest)
    → count x l ≡ bit (text_eq x a) + count x rest
unfolding count extract
count-extract x i [] h = cc
count-extract x zero (y ∷ l) h = ground arith
count-extract x (suc i) (y ∷ l) h = elim (Option-cases (extract i l)) [
  | inl e ↦ ground arith
  | inr ((b, m), e) ↦ ground (arith, count-extract x i l {a = b} {rest = m} e)
]

pub count_cooling-extract :
    (x : Text) (i : ℕ) (l : List Cooldown) {c : Cooldown} {rest : List Cooldown}
    → extract i l ≡ some (c, rest)
    → count_cooling x l ≡ bit (text_eq x c.address) + count_cooling x rest
unfolding count_cooling extract
count_cooling-extract x i [] h = cc
count_cooling-extract x zero (y ∷ l) h = ground arith
count_cooling-extract x (suc i) (y ∷ l) h = elim (Option-cases (extract i l)) [
  | inl e ↦ ground arith
  | inr ((b, m), e) ↦ ground (arith, count_cooling-extract x i l {c = b} {rest = m} e)
]

module _ (x : Text) (leased : List Text) (r : Rotation) where
  pub copies-enqueued :
      (a : Text) → copies x leased (enqueued a r) ≡ bit (text_eq x a) + copies x leased r
  unfolding copies count
  copies-enqueued a = omega (arith, count-append x r.view.queue (a ∷ []))

  pub copies-cooled :
      (a : Text) (due : ℕ)
      → copies x leased (cooled a due r) ≡ bit (text_eq x a) + copies x leased r
  unfolding copies count_cooling
  copies-cooled a due =
      omega (arith, count_cooling-append x r.cooling (record { address = a; due = due } ∷ []))

  pub copies-taken :
      (a : Text) (rest : List Text)
      → r.view.queue ≡ a ∷ rest
      → copies x (leased ++ a ∷ []) (taken rest r) ≡ copies x leased r
  unfolding copies count
  copies-taken a rest e = ground (arith, count-append x leased (a ∷ []))

  pub copies-counted :
      (a : Text) (n : ℕ)
      → copies x leased (record r { view = counted a n r.view }) ≡ copies x leased r
  unfolding copies
  copies-counted a n = refl

module _ (x : Text) where
  pub copies-enqueued_all :
      (as' : List Text) (leased : List Text) (r : Rotation)
      → copies x leased (enqueued_all as' r) ≡ count x as' + copies x leased r
  unfolding count
  copies-enqueued_all [] leased r = omega arith
  copies-enqueued_all (a ∷ as') leased r =
      omega (arith, copies-enqueued_all as' leased (enqueued a r), copies-enqueued x leased r a)

  pub copies-released_all :
      (as' : List Text) (leased : List Text) (r : Rotation)
      → copies x leased (released_all as' r) ≡ count x as' + copies x leased r
  unfolding count
  copies-released_all [] leased r = omega arith
  copies-released_all (a ∷ as') leased r = omega (
    arith,
    copies-released_all as' leased (released a r),
    copies-enqueued x leased (record r { view = counted a 0 r.view }) a,
    copies-counted x leased r a 0,
  )

  pub copies-swept :
      (now : ℕ) (as' : List Text) (leased : List Text) (r : Rotation)
      → Claims now r.view as'
      → copies x leased (released_all as' (record r { view = swept now r.view }))
        ≡ copies x leased r
  unfolding copies
  copies-swept now as' leased r h =
      ground (arith, copies-released_all as' leased (record r { view = swept now r.view }), h x)

  copies-woken_due :
      (now i : ℕ) (leased : List Text) (r : Rotation) (o : Option (Cooldown × List Cooldown))
      → extract i r.cooling ≡ o
      → copies x leased (woken now o r) ≡ copies x leased r
  unfolding copies count
  copies-woken_due now i leased r none e = refl
  copies-woken_due now i leased r (some (c, rest)) e = ground (
    arith,
    copies-enqueued x leased (record r { cooling = rest }) c.address,
    count_cooling-extract x i r.cooling {c = c} {rest = rest} e,
  )

  pub copies-woken :
      (now i : ℕ) (leased : List Text) (r : Rotation)
      → copies x leased (woken now (extract i r.cooling) r) ≡ copies x leased r
  copies-woken now i leased r = copies-woken_due now i leased r (extract i r.cooling) refl

  pub copies-succeeded :
      (config : TargetConfig) (now : ℕ) (a : Text) (leased : List Text) (r : Rotation)
      → copies x leased (succeeded config now a r) ≡ copies x (a ∷ leased) r
  unfolding copies count
  copies-succeeded config now a leased r = omega (
    arith,
    copies-cooled x leased (record r { view = counted a 0 r.view }) a
        (now + config.min_request_interval),
  )

  -- A failure loses no copy, if its address is not in the quarantine already.
  pub copies-failed :
      (config : TargetConfig) (now : ℕ) (a : Text) (leased : List Text) (r : Rotation)
      → r.view.release a ≡ none
      → copies x leased (failed config now a r) ≡ copies x (a ∷ leased) r
  unfolding copies count
  copies-failed config now a leased r h =
      let n = r.view.failures a + 1 in
      elim (Bool-cases (leb config.ip_failures_until_quarantine n)) [
        | inl e ↦ rw e (ground (arith, text_eq_iff a x, text_eq_iff x a))
        | inr e ↦ rw e (
            omega (
              arith,
              copies-cooled x leased (record r { view = counted a n r.view }) a
                  (now + config.min_request_interval),
            ))
      ]
