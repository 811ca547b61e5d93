-- ===== src/Backend/Redis/Stored.antt =====
-- The view of a server that proxy_hopper_redis/backend.py uses, its well-formedness, and the writes
-- of one key of a target.
use proxy_hopper_v.Common.{
  ℕ, ◌≡◌, refl, sym, ◌∙◌, ap, subst, codes, ◌++◌, fun_ext, inl, inr, true, false, Option, none,
  some, List, arith, if◌then◌else◌, Bool-cases, Option-cases, Text, text_eq, text_eq_iff,
  text_eq_refl, Result, ok,
}
use proxy_hopper_v.Strings.{has}
use proxy_hopper_v.Backend.{View, empty_view, Done}
use proxy_hopper_v.Backend.Redis.{key, pool_key, failures_key, quarantine_key, init_key}
use proxy_hopper_v.Backend.Redis.Commands.{
  Client, Item, IsDocumented, Wrote, as_list, as_count, as_scores,
}
use proxy_hopper_v.Backend.Redis.Keys.{IsName, text_eq-key}

abbrev or_zero : Option ℕ → ℕ
or_zero none = 0
or_zero (some n) = n

unfoldable view_parts :
    Option Item → Option (List Text) → (Text → ℕ) → Option (Text → Option ℕ) → Option View
view_parts none _ f _ = none
view_parts (some i) none f _ = none
view_parts (some i) (some q) f none = none
view_parts (some i) (some q) f (some r) = some (record { queue = q; failures = f; release = r })

module _ (redis : Client) (d : IsDocumented redis) where
  abbrev pub holds : redis.Server → Text → Option Item
  holds = d.holds

  unfoldable pub view : redis.Server → Text → Option View
  unfolding view_parts
  view s t =
      if has b':' t
      then none
      else view_parts (holds s (init_key t)) (as_list (holds s (pool_key t)))
          (λ a. or_zero (as_count (holds s (failures_key t a))))
          (as_scores (holds s (quarantine_key t)))

  -- The keys of a target hold what `v` says.
  pub record Slots (s : redis.Server) (t : Text) (v : View) : Type 0 where
    pub pool : as_list (holds s (pool_key t)) ≡ some v.queue
    pub counts : (a : Text) → as_count (holds s (failures_key t a)) ≡ some (v.failures a)
    pub scores : as_scores (holds s (quarantine_key t)) ≡ some v.release

  -- The keys of every target are of their types, and those of a target that was not initialised are
  -- missing or empty.
  abbrev pub IsValid : redis.Server → Type 0
  IsValid s =
      (t : Text)
      → IsName t
      → (v : View) × Slots s t v × (holds s (init_key t) ≡ none → v ≡ empty_view)

  -- The keys of an initialised target.
  pub record At (s : redis.Server) (t : Text) (v : View) : Type 0 where
    pub name : IsName t
    pub init : (i : Item) × (holds s (init_key t) ≡ some i)
    pub slots : Slots s t v

  failures_of :
      (s : redis.Server) (t : Text) (v : View)
      → Slots s t v
      → (λ (a : Text). or_zero (as_count (holds s (failures_key t a)))) ≡ v.failures
  failures_of s t v h = fun_ext λ a. ap or_zero (h.counts a)

  pub Slots-view :
      (s : redis.Server) (t : Text) (v : View) (i : Item)
      → IsName t
      → holds s (init_key t) ≡ some i
      → Slots s t v
      → view s t ≡ some v
  unfolding view view_parts
  Slots-view s t v i name e h = rw (name, e, h.pool, h.scores, failures_of s t v h)

  pub unclaimed_view : (s : redis.Server) (t : Text) → holds s (init_key t) ≡ none → view s t ≡ none
  unfolding view view_parts
  unclaimed_view s t e = rw e (ground arith)

  unnamed_view : (s : redis.Server) (t : Text) → has b':' t ≡ true → view s t ≡ none
  unfolding view
  unnamed_view s t e = rw e

  pub at : (s : redis.Server) (t : Text) (v : View) → IsValid s → view s t ≡ some v → At s t v
  at s t v h e = elim (Bool-cases (has b':' t)) [
    | inl n ↦ absurd (ground (arith, unnamed_view s t n))
    | inr n ↦
        let (w, slots, _) = h t n in
        elim (Option-cases (holds s (init_key t))) [
          | inl o ↦ absurd (ground (arith, unclaimed_view s t o))
          | inr (i, o) ↦ record {
            name = n;
            init = (i, o);
            slots = ground (arith, Slots-view s t w i n o slots, slots);
          }
        ]
  ]

  -- The keys of the other targets are as they were.
  abbrev pub Others : redis.Server → redis.Server → Text → Type 0
  Others s s' t =
      (u x : Text) → IsName u → text_eq t u ≡ false → holds s' (key u x) ≡ holds s (key u x)

  module _ (s s' : redis.Server) (t : Text) (others : Others s s' t) where
    other-Slots :
        (u : Text) (v : View) → IsName u → text_eq t u ≡ false → Slots s u v → Slots s' u v
    other-Slots u v n e h = record {
      pool = rw (others u (codes "pool") n e) h.pool;
      counts = λ a. rw (others u (codes "failures:" ++ a) n e) (h.counts a);
      scores = rw (others u (codes "quarantine") n e) h.scores;
    }

    view-others : (u : Text) → IsName u → text_eq t u ≡ false → view s' u ≡ view s u
    unfolding view
    view-others u n e =
        rw
          (
            n,
            others u (codes "initialized") n e,
            others u (codes "pool") n e,
            others u (codes "quarantine") n e,
          )
          (ap
            (λ f.
              view_parts (holds s (init_key u)) (as_list (holds s (pool_key u))) f
                (as_scores (holds s (quarantine_key u))))
            (fun_ext {f = λ a. or_zero (as_count (holds s' (failures_key u a)))}
              λ a. ap (λ o. or_zero (as_count o)) (others u (codes "failures:" ++ a) n e)))

    settled :
        (v : View) → At s' t v → (u : Text) → view s' u ≡ (if text_eq t u then some v else view s u)
    settled v a u = elim (Bool-cases (has b':' u)) [
      | inl n ↦
          rw (unnamed_view s' u n, unnamed_view s u n) (ground (arith, text_eq_iff t u, a.name))
      | inr n ↦ elim (Bool-cases (text_eq t u)) [
        | inl e ↦
            rw e
              (ground (arith, text_eq_iff t u, Slots-view s' t v a.init.0 a.name a.init.1 a.slots))
        | inr e ↦ rw e (view-others u n e)
      ]
    ]

    settled-IsValid : (v : View) → At s' t v → IsValid s → IsValid s'
    settled-IsValid v a h u n = elim (Bool-cases (text_eq t u)) [
      | inl e ↦
          subst (λ u. (v : View) × Slots s' u v × (holds s' (init_key u) ≡ none → v ≡ empty_view))
            ((text_eq_iff t u).0 e) (v, a.slots, λ o. absurd (ground (arith, a.init.1)))
      | inr e ↦
          let (w, slots, fresh) = h u n in
          (w, other-Slots u w n e slots, λ o. fresh (sym (others u (codes "initialized") n e) ∙ o))
    ]

  pub settle :
      {A : Type 0} (s : redis.Server) (t : Text) (v : View) (out : Result A × redis.Server) (r : A)
      → IsValid s
      → out.0 ≡ ok r
      → At out.1 t v
      → Others s out.1 t
      → Done view IsValid s t out r v
  settle s t v out r h e a others = record {
    returned = e;
    valid = settled-IsValid s out.1 t others v a h;
    views = settled s out.1 t others v a;
  }

  -- A command on one key of a target leaves the keys of the others, and those of another use.
  pub Wrote-Others :
      {A : Type 0} (s : redis.Server) (t x : Text) (out : Result A × redis.Server) (r : A)
      → IsName t
      → Wrote holds s (key t x) out r
      → Others s out.1 t
  Wrote-Others s t x out r n w u y m e = w.others (key u y) (rw (text_eq-key t u x y n m, e) refl)

  pub beside :
      {A : Type 0} (s : redis.Server) (t x y : Text) (out : Result A × redis.Server) (r : A)
      → IsName t
      → Wrote holds s (key t x) out r
      → text_eq x y ≡ false
      → holds out.1 (key t y) ≡ holds s (key t y)
  beside s t x y out r n w e =
      w.others (key t y) (rw (text_eq-key t t x y n n, e, text_eq_refl t) refl)
