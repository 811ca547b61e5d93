-- ===== src/Backend/Redis/Expiry.antt =====
-- `quarantine_pop_expired` of proxy_hopper_redis/backend.py: the scan and its removals, one by one.
use proxy_hopper_v.Common.{
  ℕ, ◌≡◌, refl, ◌∙◌, ◌&&◌, fun_ext, Option, none, some, List, [], ◌∷◌, arith, leb, if◌then◌else◌,
  bit, Text, text_eq_iff, text_eq_refl, count, Result, ok,
}
use proxy_hopper_v.Backend.{View, update, is_some, is_due, not_due, swept, Claims, Done}
use proxy_hopper_v.Backend.Redis.{quarantine_key, claimed, claim, quarantine_pop_expired}
use proxy_hopper_v.Backend.Redis.Commands.{Client, IsDocumented, in_range}
use proxy_hopper_v.Backend.Redis.Stored.{view, IsValid, at}
use proxy_hopper_v.Backend.Redis.Writes.{Read-Done, scores-Done, returning}

-- What stays of an entry after the removal of the addresses `xs`.
abbrev without : List Text → (Text → Option ℕ) → Text → Option ℕ
without xs f a = if leb 1 (count a xs) then none else f a

abbrev removal : List Text → (Text → Option ℕ) → Text → ℕ
removal xs f a = bit (leb 1 (count a xs) && is_some (f a))

without-cons :
    (x : Text) (xs : List Text) (f : Text → Option ℕ)
    → without xs (update f x none) ≡ without (x ∷ xs) f
unfolding count
without-cons x xs f = fun_ext λ a. ground (arith, text_eq_iff a x, text_eq_iff x a)

removal-cons :
    (x : Text) (xs ys : List Text) (f : Text → Option ℕ)
    → ((a : Text) → count a ys ≡ removal xs (update f x none) a)
    → (a : Text) → count a (claimed x (bit (is_some (f x))) ys) ≡ removal (x ∷ xs) f a
unfolding count
removal-cons x xs ys f h a = ground (arith, text_eq_iff a x, text_eq_iff x a, h a)

due_bit :
    (now : ℕ) (o : Option ℕ) (n : ℕ)
    → n ≡ bit (in_range 0 now o)
    → bit (leb 1 n && is_some o) ≡ bit (is_due now o)
due_bit now none n e = ground arith
due_bit now (some r) n e = ground arith

due_stays :
    (now : ℕ) (o : Option ℕ) (n : ℕ)
    → n ≡ bit (in_range 0 now o)
    → (if leb 1 n then none else o) ≡ not_due now o
due_stays now none n e = ground arith
due_stays now (some r) n e = ground arith

module _ (redis : Client) (d : IsDocumented redis) (t : Text) where
  abbrev Does : {A : Type 0} → redis.Server → Result A × redis.Server → A → View → Type 0
  Does s out r v = Done (view redis d) (IsValid redis d) s t out r v

  at_end :
      (s : redis.Server) (v : View)
      → IsValid redis d s
      → view redis d s t ≡ some v
      → Does {A = List Text} s (ok [], s) [] v
  at_end s v h e = record {
    returned = refl;
    valid = h;
    views = λ u. ground (arith, text_eq_iff t u);
  }

  after :
      {A B : Type 0} (s : redis.Server) (out : Result A × redis.Server) (r : A) (v : View)
      (out' : Result B × redis.Server) (r' : B) (v' : View)
      → Does s out r v
      → Does out.1 out' r' v'
      → Does s out' r' v'
  after s out r v out' r' v' g h = record {
    returned = h.returned;
    valid = h.valid;
    views = λ u. ground (arith, g.views u, h.views u);
  }

  claim-Done :
      (xs : List Text) (s : redis.Server) (v : View)
      → IsValid redis d s
      → view redis d s t ≡ some v
      → (ys : List Text) × ((a : Text) → count a ys ≡ removal xs v.release a)
        × Does s (claim redis t xs s) ys (record v { release = without xs v.release })
  unfolding claim count
  claim-Done [] s v h e = ([], λ a. ground arith, at_end s v h e)
  claim-Done (x ∷ xs) s v h e =
      let a = at redis d s t v h e in
      let (w, f) = d.zrem s (quarantine_key t) x v.release a.slots.scores in
      let out = redis.zrem (quarantine_key t) x s in
      let v1 = record v { release = update v.release x none } in
      let g = scores-Done redis d s t v out _ h a (update v.release x none) w f in
      let (ys, each, k) =
        claim-Done xs out.1 v1 g.valid (ground (arith, g.views t, text_eq_refl t)) in
      (
        claimed x (bit (is_some (v.release x))) ys,
        removal-cons x xs ys v.release each,
        rw (← without-cons x xs v.release, w.returned, k.returned)
            (returning redis d s t _ _ ys _ (after s out _ v1 _ ys _ g k)),
      )

  -- The candidates are the entries whose time has come.
  due_candidates :
      (now : ℕ) (xs : List Text) (v : View)
      → ((a : Text) → count a xs ≡ bit (in_range 0 now (v.release a)))
      → ((a : Text) → removal xs v.release a ≡ bit (is_due now (v.release a)))
        × (without xs v.release ≡ (λ a. not_due now (v.release a)))
  due_candidates now xs v each = (
    λ a. due_bit now (v.release a) (count a xs) (each a),
    fun_ext λ a. due_stays now (v.release a) (count a xs) (each a),
  )

  -- In a valid server that has the target, whose commands do what the documentation of Redis says:
  -- `quarantine_pop_expired` of the Redis backend, with no other instance in between, gives each
  -- address whose release time has passed exactly once and no other, takes exactly those out of the
  -- quarantine, and leaves the other targets as they are.
  pub quarantine_pop_expired-Done_scan :
      (s : redis.Server) (now : ℕ) (v : View)
      → IsValid redis d s
      → view redis d s t ≡ some v
      → (xs : List Text) × Claims now v xs
        × Does s (quarantine_pop_expired redis t now s) xs (swept now v)
  unfolding quarantine_pop_expired
  quarantine_pop_expired-Done_scan s now v h e =
      let a = at redis d s t v h e in
      let (xs, each, w) = d.zrangebyscore s (quarantine_key t) 0 now v.release a.slots.scores in
      let out = redis.zrangebyscore (quarantine_key t) 0 now s in
      let g = Read-Done redis d s t v out xs h a w in
      let (ys, one, k) =
        claim-Done xs out.1 v g.valid (ground (arith, g.views t, text_eq_refl t)) in
      let (same, left) = due_candidates now xs v each in
      (ys, λ a. one a ∙ same a, rw (w.returned, ← left) (after s out xs v _ ys _ g k))
