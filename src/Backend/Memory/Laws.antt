-- ===== src/Backend/Memory/Laws.antt =====
-- The methods of backend/memory.py meet the contract of backend/base.py.
use proxy_hopper_v.Common.{
  ◌⊎◌, inl, inr, ℕ, ◌+◌, ◌<◌, ◌≡◌, refl, sym, ◌∙◌, ap, ◌==◌, fun_ext, true, false, Option, none,
  some, List, [], ◌∷◌, arith, if◌then◌else◌, bit, Text, text_eq, text_eq_iff, count, length, Dict,
  lookup, insert, keys, HasUniqueKeys, lookup-insert, insert-HasUniqueKeys,
  delete_all-HasUniqueKeys, ok,
}
use proxy_hopper_v.Backend.{
  View, pushed, popped, counted, quarantined, swept, is_due, not_due, is_some, Done, update, Claims,
}
use proxy_hopper_v.Backend.Memory.Expiry.{count-expired, count-keys, lookup-delete_expired}
use proxy_hopper_v.Backend.Memory.{
  Memory, member, or_zero, init_target, reads_found, push_ip, pop_ip, pool_size, increment_failures,
  reset_failures, get_failures, quarantine_add, expired, quarantine_pop_expired, quarantine_list,
}
use proxy_hopper_v.Backend.Memory.Stored.{view, IsValid, Entries, entries, kept, wrote-Done}

list-cases : (l : List Text) → (l ≡ []) ⊎ ((a : Text) × (rest : List Text) × (l ≡ a ∷ rest))
list-cases [] = inl refl
list-cases (a ∷ rest) = inr (a, rest, refl)

positive : (n : ℕ) → 0 < n → (n == 0) ≡ false
positive n h = ground arith

-- The dictionary of failure counts after a write, as a function.
counted_eq :
    (f : Text → ℕ) (counts : Dict ℕ) (a : Text) (n : ℕ)
    → f ≡ (λ b. or_zero (lookup b counts))
    → (λ b. or_zero (lookup b (insert a n counts))) ≡ update f a n
counted_eq f counts a n e = fun_ext λ b. rw (lookup-insert, e) (ground arith)

-- The dictionary of release times after a write, as a function.
quarantined_eq :
    (f : Text → Option ℕ) (held : Dict ℕ) (a : Text) (n : ℕ)
    → f ≡ (λ b. lookup b held)
    → (λ b. lookup b (insert a n held)) ≡ update f a (some n)
quarantined_eq f held a n e = fun_ext λ b. rw (lookup-insert, e)

module _ (s : Memory) (t : Text) (v : View) (h : IsValid s) (e : view s t ≡ some v) where
  abbrev at_t : Entries s t v
  at_t = entries s t v e

  member_kept :
      (u : Text) → member u s.initialised ≡ (if text_eq t u then true else member u s.initialised)
  member_kept u = ground (arith, text_eq_iff t u, h.pools t, at_t.pool_at)

  same_failures : (λ a. or_zero (lookup a at_t.counts)) ≡ v.failures
  same_failures = sym at_t.failures_of

  same_release : (λ a. lookup a at_t.held) ≡ v.release
  same_release = sym at_t.release_of

  count_at : (a : Text) → or_zero (lookup a at_t.counts) ≡ v.failures a
  count_at a = λ i. same_failures i a

  release_at : (a : Text) → lookup a at_t.held ≡ v.release a
  release_at a = λ i. same_release i a

  unique_held : HasUniqueKeys at_t.held
  unique_held = h.unique t at_t.held at_t.held_at

  -- A read changes nothing.
  unchanged_Done : {A : Type 0} (r : A) → Done view IsValid s t (ok r, s) r v
  unchanged_Done r = record {
    returned = refl;
    valid = h;
    views = λ u. ground (arith, text_eq_iff t u);
  }

  queue_Done :
      {A : Type 0} (r : A) (q : List Text)
      → Done view IsValid s t
          (ok r, record s { pools = insert t q s.pools })
          r
          (record v { queue = q })
  queue_Done r q =
      wrote-Done s _ t q at_t.counts at_t.held
        (record {
          pools = λ u. lookup-insert t u q s.pools;
          failures = kept t s.failures at_t.counts_at;
          quarantine = kept t s.quarantine at_t.held_at;
          initialised = member_kept;
        })
        r h unique_held _
        (λ i. record { queue = q; failures = same_failures i; release = same_release i })

  counts_Done :
      {A : Type 0} (r : A) (a : Text) (n : ℕ)
      → Done view IsValid s t
          (ok r, record s { failures = insert t (insert a n at_t.counts) s.failures })
          r
          (counted a n v)
  counts_Done r a n =
      wrote-Done s _ t v.queue (insert a n at_t.counts) at_t.held
        (record {
          pools = kept t s.pools at_t.pool_at;
          failures = λ u. lookup-insert t u _ s.failures;
          quarantine = kept t s.quarantine at_t.held_at;
          initialised = member_kept;
        })
        r h unique_held _
        (λ i. record {
          queue = v.queue;
          failures = counted_eq v.failures at_t.counts a n at_t.failures_of i;
          release = same_release i;
        })

  held_Done :
      {A : Type 0} (r : A) (d : Dict ℕ) (f : Text → Option ℕ)
      → HasUniqueKeys d
      → (λ a. lookup a d) ≡ f
      → Done view IsValid s t
          (ok r, record s { quarantine = insert t d s.quarantine })
          r
          (record v { release = f })
  held_Done r d f k p =
      wrote-Done s _ t v.queue at_t.counts d
        (record {
          pools = kept t s.pools at_t.pool_at;
          failures = kept t s.failures at_t.counts_at;
          quarantine = λ u. lookup-insert t u d s.quarantine;
          initialised = member_kept;
        })
        r h k _ (λ i. record { queue = v.queue; failures = same_failures i; release = p i })

  -- In a valid store that has the target: a target that is initialised stays as it is, and the
  -- second caller of `init_target` gets false.
  pub init_target-Done_again : Done view IsValid s t (init_target t s) false v
  unfolding init_target
  init_target-Done_again =
      let p : member t s.initialised ≡ true = ground (arith, h.pools t, at_t.pool_at) in
      rw p (unchanged_Done false)

  -- In a valid store that has the target: `push_ip` puts the address at the tail of the queue of its
  -- target; every other target keeps what it has.
  pub push_ip-Done : (a : Text) → Done view IsValid s t (push_ip t a s) tt (pushed a v)
  unfolding push_ip
  push_ip-Done a = rw (reads_found _ t s at_t.pool_at) (queue_Done tt _)

  -- In a valid store that has the target: `pop_ip` on an empty queue gives None at the end of its
  -- wait and changes nothing.
  pub pop_ip-Done_empty :
      (timeout : ℕ) → v.queue ≡ [] → Done view IsValid s t (pop_ip t timeout s) none v
  unfolding pop_ip
  pop_ip-Done_empty timeout q =
      rw (reads_found _ t s (at_t.pool_at ∙ ap some q)) (unchanged_Done none)

  -- In a valid store that has the target: `pop_ip` takes the head of a queue that is not empty,
  -- where its timeout is positive.
  pub pop_ip-Done_next :
      (timeout : ℕ) (a : Text) (rest : List Text)
      → v.queue ≡ a ∷ rest
      → 0 < timeout
      → Done view IsValid s t (pop_ip t timeout s) (some a) (popped rest v)
  unfolding pop_ip
  pop_ip-Done_next timeout a rest q pos =
      rw (reads_found _ t s (at_t.pool_at ∙ ap some q), positive timeout pos)
        (queue_Done (some a) rest)

  -- With a timeout of 0 nothing is taken.
  pub pop_ip-Done_late : Done view IsValid s t (pop_ip t 0 s) none v
  unfolding pop_ip
  pop_ip-Done_late = elim (list-cases v.queue) [
    | inl q ↦ rw (reads_found _ t s (at_t.pool_at ∙ ap some q)) (unchanged_Done none)
    | inr (a, rest, q) ↦ rw (reads_found _ t s (at_t.pool_at ∙ ap some q)) (unchanged_Done none)
  ]

  -- In a valid store that has the target: `pool_size` is the length of the queue, and changes
  -- nothing.
  pub pool_size-Done : Done view IsValid s t (pool_size t s) (length v.queue) v
  unfolding pool_size
  pool_size-Done = rw (reads_found _ t s at_t.pool_at) (unchanged_Done _)

  -- In a valid store that has the target: `increment_failures` gives the count of failures after it,
  -- which is one more, of that address only.
  pub increment_failures-Done :
      (a : Text)
      → Done view IsValid s t
          (increment_failures t a s)
          (v.failures a + 1)
          (counted a (v.failures a + 1) v)
  unfolding increment_failures
  increment_failures-Done a = rw (reads_found _ t s at_t.counts_at, count_at a) (counts_Done _ a _)

  -- In a valid store that has the target: `reset_failures` sets the count of that address, and of no
  -- other, to 0.
  pub reset_failures-Done :
      (a : Text) → Done view IsValid s t (reset_failures t a s) tt (counted a 0 v)
  unfolding reset_failures
  reset_failures-Done a = rw (reads_found _ t s at_t.counts_at) (counts_Done tt a 0)

  -- In a valid store that has the target: `get_failures` gives the count of failures and changes
  -- nothing.
  pub get_failures-Done : (a : Text) → Done view IsValid s t (get_failures t a s) (v.failures a) v
  unfolding get_failures
  get_failures-Done a = rw (reads_found _ t s at_t.counts_at, count_at a) (unchanged_Done _)

  -- In a valid store that has the target: `quarantine_add` records the release time of the address,
  -- in place of an earlier one.
  pub quarantine_add-Done :
      (a : Text) (release_at : ℕ)
      → Done view IsValid s t (quarantine_add t a release_at s) tt (quarantined a release_at v)
  unfolding quarantine_add
  quarantine_add-Done a release_at = rw (reads_found _ t s at_t.held_at) (
      held_Done tt _ _ (insert-HasUniqueKeys a release_at at_t.held unique_held)
        (quarantined_eq v.release at_t.held a release_at at_t.release_of))

  -- In a valid store that has the target: `quarantine_pop_expired` gives each address whose release
  -- time has passed exactly once and no other, takes exactly those out of the quarantine, and leaves
  -- the other targets as they are.
  pub quarantine_pop_expired-Done :
      (now : ℕ)
      → (xs : List Text) × Claims now v xs
        × Done view IsValid s t (quarantine_pop_expired t now s) xs (swept now v)
  unfolding quarantine_pop_expired
  quarantine_pop_expired-Done now = (
    expired now at_t.held,
    λ a.
        count-expired now a at_t.held unique_held
        ∙ ap (λ (o : Option ℕ). bit (is_due now o)) (release_at a),
    rw (reads_found _ t s at_t.held_at) (
        held_Done _ _ _ (delete_all-HasUniqueKeys (expired now at_t.held) at_t.held unique_held) (
          lookup-delete_expired now at_t.held unique_held
          ∙ ap (λ (f : Text → Option ℕ). λ a. not_due now (f a)) same_release)),
  )

  -- In a valid store that has the target: `quarantine_list` gives each quarantined address exactly
  -- once, and changes nothing.
  pub quarantine_list-Done :
      (xs : List Text) × ((a : Text) → count a xs ≡ bit (is_some (v.release a)))
      × Done view IsValid s t (quarantine_list t s) xs v
  unfolding quarantine_list
  quarantine_list-Done = (
    keys at_t.held,
    λ a. count-keys a at_t.held unique_held ∙ ap (λ (o : Option ℕ). bit (is_some o)) (release_at a),
    rw (reads_found _ t s at_t.held_at) (unchanged_Done _),
  )
