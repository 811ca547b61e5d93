-- ===== src/Backend/Redis/Laws.antt =====
-- The methods of proxy_hopper_redis/backend.py but the sweep meet the contract of backend/base.py,
-- if the commands do what the documentation of Redis says.
use proxy_hopper_v.Common.{
  ℕ, ◌+◌, ◌/◌, max, ◌≡◌, refl, ◌∙◌, ap, subst, codes, ◌++◌, inl, inr, Bool, true, false, Option,
  none, some, List, [], ◌∷◌, arith, Option-cases, bit, Text, text_eq, length, count, Result, ok,
  err, value_error,
}
use proxy_hopper_v.Strings.Ints.{ℤ, pos, negsuc, parse_int, show_int}
use proxy_hopper_v.Strings.Laws.{parse_int-show_int}
use proxy_hopper_v.Backend.{View, empty_view, pushed, popped, counted, quarantined, is_some, Done}
use proxy_hopper_v.Backend.Redis.{
  key, pool_key, failures_key, quarantine_key, init_key, init_target, push_ip, pop_ip, pool_size,
  increment_failures, reset_failures, int_of, get_failures, quarantine_add, quarantine_list,
}
use proxy_hopper_v.Backend.Redis.Commands.{
  Client, Item, string_item, list_item, sorted_set, IsDocumented, Wrote, natural, as_count,
  as_string,
}
use proxy_hopper_v.Backend.Redis.Keys.{IsName}
use proxy_hopper_v.Backend.Redis.Stored.{
  view, Slots, IsValid, At, at, Slots-view, settle, Wrote-Others, beside,
}
use proxy_hopper_v.Backend.Redis.Writes.{
  printed_count, returning, Read-At, Read-Done, pool-Done, scores-Done, counts-Done,
}

-- A result as a count; a negative one is none.
abbrev pub to_count : {S : Type 0} → Result ℤ × S → Result ℕ × S
to_count (err e, s) = (err e, s)
to_count (ok (pos n), s) = (ok n, s)
to_count (ok (negsuc n), s) = (err (value_error []), s)

counted_text :
    {S : Type 0} (x : Text) (o : Option ℤ) (n : ℕ)
    → parse_int x ≡ o
    → natural o ≡ some n
    → (s : S) → to_count (int_of (some x) s) ≡ (ok n, s)
unfolding int_of
counted_text x none n p e s = cc
counted_text x (some (pos m)) n p e s = rw (to_count, p) (ground arith)
counted_text x (some (negsuc m)) n p e s = cc

module _ (redis : Client) (d : IsDocumented redis) (s : redis.Server) (t : Text) (v : View)
    (h : IsValid redis d s) (e : view redis d s t ≡ some v) where
  abbrev at_t : At redis d s t v
  at_t = at redis d s t v h e

  abbrev Does : {A : Type 0} → Result A × redis.Server → A → View → Type 0
  Does out r w = Done (view redis d) (IsValid redis d) s t out r w

  pub init_target-Done_again : Does (init_target redis t s) false v
  unfolding init_target
  init_target-Done_again =
      let w = d.setnx_held s (init_key t) (codes "1") at_t.init.0 at_t.init.1 in
      rw w.returned
        (returning redis d s t v _ false false (Read-Done redis d s t v _ false h at_t w))

  pub push_ip-Done : (a : Text) → Does (push_ip redis t a s) tt (pushed a v)
  unfolding push_ip
  push_ip-Done a =
      let (w, q) = d.rpush s (pool_key t) a v.queue at_t.slots.pool in
      rw w.returned
        (returning redis d s t (pushed a v) _ _ tt (pool-Done redis d s t v _ _ h at_t _ w q))

  pub pop_ip-Done_empty : (timeout : ℕ) → v.queue ≡ [] → Does (pop_ip redis t timeout s) none v
  unfolding pop_ip
  pop_ip-Done_empty timeout q =
      let w =
        d.blpop_empty s (pool_key t) (max 1 (timeout / 1000)) (omega arith)
          (at_t.slots.pool ∙ ap some q) in
      rw w.returned (returning redis d s t v _ none none (Read-Done redis d s t v _ none h at_t w))

  pub pop_ip-Done_next :
      (timeout : ℕ) (a : Text) (rest : List Text)
      → v.queue ≡ a ∷ rest
      → Does (pop_ip redis t timeout s) (some a) (popped rest v)
  unfolding pop_ip
  pop_ip-Done_next timeout a rest q =
      let (w, q') =
        d.blpop_next s (pool_key t) (max 1 (timeout / 1000)) a rest (at_t.slots.pool ∙ ap some q) in
      rw w.returned (
        returning redis d s t (popped rest v) _ _ (some a)
          (pool-Done redis d s t v _ _ h at_t rest w q'))

  pub pool_size-Done : Does (pool_size redis t s) (length v.queue) v
  unfolding pool_size
  pool_size-Done =
      Read-Done redis d s t v _ _ h at_t (d.llen s (pool_key t) v.queue at_t.slots.pool)

  pub increment_failures-Done :
      (a : Text)
      → Does (increment_failures redis t a s) (v.failures a + 1) (counted a (v.failures a + 1) v)
  unfolding increment_failures
  increment_failures-Done a =
      let (w, n) = d.incr s (failures_key t a) (v.failures a) (at_t.slots.counts a) in
      counts-Done redis d s t v _ _ h at_t a (v.failures a + 1) w (rw n (printed_count _))

  pub reset_failures-Done : (a : Text) → Does (reset_failures redis t a s) tt (counted a 0 v)
  unfolding reset_failures
  reset_failures-Done a =
      let (w, n) = d.put s (failures_key t a) (show_int (pos 0)) in
      counts-Done redis d s t v _ _ h at_t a 0 w (rw n (ap natural (parse_int-show_int (pos 0))))

  pub quarantine_add-Done :
      (a : Text) (release_at : ℕ)
      → Does (quarantine_add redis t a release_at s) tt (quarantined a release_at v)
  unfolding quarantine_add
  quarantine_add-Done a release_at =
      let (w, f) = d.zadd s (quarantine_key t) a release_at v.release at_t.slots.scores in
      rw w.returned (
        returning redis d s t (quarantined a release_at v) _ _ tt
          (scores-Done redis d s t v _ _ h at_t _ w f))

  pub quarantine_list-Done :
      (xs : List Text) × ((a : Text) → count a xs ≡ bit (is_some (v.release a)))
      × Does (quarantine_list redis t s) xs v
  unfolding quarantine_list
  quarantine_list-Done =
      let (xs, each, w) = d.zrange s (quarantine_key t) v.release at_t.slots.scores in
      (xs, each, Read-Done redis d s t v _ _ h at_t w)

  -- What GET gives for a counter, and what `int` makes of it.
  counter_text :
      (i : Option Item) (n : ℕ)
      → as_count i ≡ some n
      → (x : Option Text) × (as_string i ≡ some x)
        × ((s : redis.Server) → to_count (int_of x s) ≡ (ok n, s))
  unfolding int_of
  counter_text none n e = (none, refl, λ s. ground arith)
  counter_text (some (string_item x)) n e =
      (some x, refl, λ s. counted_text x (parse_int x) n refl e s)
  counter_text (some (list_item xs)) n e = cc
  counter_text (some (sorted_set f)) n e = cc

  pub get_failures-Done : (a : Text) → Does (to_count (get_failures redis t a s)) (v.failures a) v
  unfolding get_failures
  get_failures-Done a =
      let (x, q, i) =
        counter_text (d.holds s (failures_key t a)) (v.failures a) (at_t.slots.counts a) in
      let w = d.get s (failures_key t a) x q in
      rw (w.returned, i) (returning redis d s t v _ x _ (Read-Done redis d s t v _ x h at_t w))

module _ (redis : Client) (d : IsDocumented redis) (s : redis.Server) (t : Text) (n : IsName t)
    (h : IsValid redis d s) where
  unclaimed : view redis d s t ≡ none → d.holds s (init_key t) ≡ none
  unclaimed e = elim (Option-cases (d.holds s (init_key t))) [
    | inl o ↦ o
    | inr (i, o) ↦
        let (w, slots, _) = h t n in absurd (ground (arith, Slots-view redis d s t w i n o slots))
  ]

  abbrev after_setnx : Result Bool × redis.Server
  after_setnx = redis.setnx (init_key t) (codes "1") s

  -- The key is taken, and the other keys of the target are empty.
  after_setnx-At :
      d.holds s (init_key t) ≡ none
      → Wrote d.holds s (init_key t) after_setnx true
      → d.holds after_setnx.1 (init_key t) ≡ some (string_item (codes "1"))
      → At redis d after_setnx.1 t empty_view
  unfolding text_eq
  after_setnx-At o w e =
      let (v, slots, fresh) = h t n in
      let same = λ (y : Text). beside redis d s t (codes "initialized") y after_setnx true n w in
      let empty = subst (Slots redis d s t) (fresh o) slots in
      record {
        name = n;
        init = (string_item (codes "1"), e);
        slots = record {
          pool = rw (same (codes "pool") refl) empty.pool;
          counts = λ x. rw (same (codes "failures:" ++ x) refl) (empty.counts x);
          scores = rw (same (codes "quarantine") refl) empty.scores;
        };
      }

  -- In a valid server without the target, whose name has no colon, `init_target` takes it for the
  -- caller, with an empty queue, no failures and no quarantine; the other targets stay.
  pub init_target-Done_first :
      view redis d s t ≡ none
      → Done (view redis d) (IsValid redis d) s t (init_target redis t s) true empty_view
  unfolding init_target
  init_target-Done_first e =
      let o = unclaimed e in
      let (w, taken) = d.setnx_new s (init_key t) (codes "1") o in
      let a = after_setnx-At o w taken in
      let lasting = d.expire after_setnx.1 (init_key t) 86400 in
      let kept = Read-At redis d after_setnx.1 t empty_view _ _ a lasting in
      rw (w.returned, lasting.returned)
        (settle redis d s t empty_view (ok true, (redis.expire (init_key t) 86400 after_setnx.1).1)
          true h refl kept
          (λ u x m g.
            lasting.same (key u x)
            ∙ Wrote-Others redis d s t (codes "initialized") after_setnx true n w u x m g))
