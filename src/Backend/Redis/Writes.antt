-- ===== src/Backend/Redis/Writes.antt =====
-- The effect of one command on the view of a target: a command that only reads, and one that writes
-- the pool, the quarantine or a counter.
use proxy_hopper_v.Common.{
  ℕ, ◌≡◌, refl, ap, subst, codes, ◌++◌, inl, inr, Option, some, List, Bool-cases, Text, text_eq,
  text_eq_iff, Result, ok,
}
use proxy_hopper_v.Strings.Ints.{pos, parse_int, show_nat, show_int}
use proxy_hopper_v.Strings.Laws.{parse_int-show_int}
use proxy_hopper_v.Backend.{View, popped, counted, update, Done}
use proxy_hopper_v.Backend.Redis.{key, pool_key, failures_key, quarantine_key, init_key}
use proxy_hopper_v.Backend.Redis.Commands.{
  Client, IsDocumented, Wrote, Read, natural, as_list, as_count, as_scores,
}
use proxy_hopper_v.Backend.Redis.Stored.{view, IsValid, At, settle, Wrote-Others, beside}

-- A printed counter, read back.
pub printed_count : (n : ℕ) → natural (parse_int (show_nat n)) ≡ some n
unfolding show_int
printed_count n = ap natural (parse_int-show_int (pos n))

module _ (redis : Client) (d : IsDocumented redis) where
  pub Read-At :
      {A : Type 0} (s : redis.Server) (t : Text) (v : View) (out : Result A × redis.Server) (r : A)
      → At redis d s t v
      → Read d.holds s out r
      → At redis d out.1 t v
  Read-At s t v out r a w = record {
    name = a.name;
    init = (a.init.0, rw (w.same (init_key t)) a.init.1);
    slots = record {
      pool = rw (w.same (pool_key t)) a.slots.pool;
      counts = λ x. rw (w.same (failures_key t x)) (a.slots.counts x);
      scores = rw (w.same (quarantine_key t)) a.slots.scores;
    };
  }

  pub Read-Done :
      {A : Type 0} (s : redis.Server) (t : Text) (v : View) (out : Result A × redis.Server) (r : A)
      → IsValid redis d s
      → At redis d s t v
      → Read d.holds s out r
      → Done (view redis d) (IsValid redis d) s t out r v
  Read-Done s t v out r h a w =
      settle redis d s t v out r h w.returned (Read-At s t v out r a w)
        (λ u x n e. w.same (key u x))

  module _ {A : Type 0} (s : redis.Server) (t : Text) (v : View) (out : Result A × redis.Server)
      (r : A) (h : IsValid redis d s) (a : At redis d s t v) where
    pub pool-Done :
        (q : List Text)
        → Wrote d.holds s (pool_key t) out r
        → as_list (d.holds out.1 (pool_key t)) ≡ some q
        → Done (view redis d) (IsValid redis d) s t out r (popped q v)
    unfolding text_eq
    pool-Done q w e =
        let same = λ (y : Text). beside redis d s t (codes "pool") y out r a.name w in
        settle redis d s t (popped q v) out r h w.returned
          (record {
            name = a.name;
            init = (a.init.0, rw (same (codes "initialized") refl) a.init.1);
            slots = record {
              pool = e;
              counts = λ x. rw (same (codes "failures:" ++ x) refl) (a.slots.counts x);
              scores = rw (same (codes "quarantine") refl) a.slots.scores;
            };
          })
          (Wrote-Others redis d s t (codes "pool") out r a.name w)

    pub scores-Done :
        (f : Text → Option ℕ)
        → Wrote d.holds s (quarantine_key t) out r
        → as_scores (d.holds out.1 (quarantine_key t)) ≡ some f
        → Done (view redis d) (IsValid redis d) s t out r (record v { release = f })
    unfolding text_eq
    scores-Done f w e =
        let same = λ (y : Text). beside redis d s t (codes "quarantine") y out r a.name w in
        settle redis d s t (record v { release = f }) out r h w.returned
          (record {
            name = a.name;
            init = (a.init.0, rw (same (codes "initialized") refl) a.init.1);
            slots = record {
              pool = rw (same (codes "pool") refl) a.slots.pool;
              counts = λ x. rw (same (codes "failures:" ++ x) refl) (a.slots.counts x);
              scores = e;
            };
          })
          (Wrote-Others redis d s t (codes "quarantine") out r a.name w)

    -- The counter of one address holds `n`, and the others what they held.
    counters :
        (x : Text) (n : ℕ)
        → Wrote d.holds s (failures_key t x) out r
        → as_count (d.holds out.1 (failures_key t x)) ≡ some n
        → (y : Text) → as_count (d.holds out.1 (failures_key t y)) ≡ some (update v.failures x n y)
    unfolding text_eq
    counters x n w e y = elim (Bool-cases (text_eq x y)) [
      | inl p ↦ rw p (
          subst (λ y. as_count (d.holds out.1 (failures_key t y)) ≡ some n) ((text_eq_iff x y).0 p)
            e)
      | inr p ↦
          rw
            (
              p,
              beside redis d s t (codes "failures:" ++ x) (codes "failures:" ++ y) out r a.name w p,
            )
            (a.slots.counts y)
    ]

    pub counts-Done :
        (x : Text) (n : ℕ)
        → Wrote d.holds s (failures_key t x) out r
        → as_count (d.holds out.1 (failures_key t x)) ≡ some n
        → Done (view redis d) (IsValid redis d) s t out r (counted x n v)
    unfolding text_eq
    counts-Done x n w e =
        let same = λ (y : Text). beside redis d s t (codes "failures:" ++ x) y out r a.name w in
        settle redis d s t (counted x n v) out r h w.returned
          (record {
            name = a.name;
            init = (a.init.0, rw (same (codes "initialized") refl) a.init.1);
            slots = record {
              pool = rw (same (codes "pool") refl) a.slots.pool;
              counts = counters x n w e;
              scores = rw (same (codes "quarantine") refl) a.slots.scores;
            };
          })
          (Wrote-Others redis d s t (codes "failures:" ++ x) out r a.name w)

  -- The same end of the server with another result.
  pub returning :
      {A B : Type 0} (s : redis.Server) (t : Text) (v : View) (out : Result A × redis.Server)
      (r : A) (x : B)
      → Done (view redis d) (IsValid redis d) s t out r v
      → Done (view redis d) (IsValid redis d) s t (ok x, out.1) x v
  returning s t v out r x h = record { returned = refl; valid = h.valid; views = h.views }
