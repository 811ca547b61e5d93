-- ===== src/Backend/Agreement.antt =====
-- Two backends that keep the contract of backend/base.py cannot be told apart by their answers.
use proxy_hopper_v.Common.{
  ℕ, ◌+◌, ◌≡◌, refl, sym, ◌∙◌, subst, inl, inr, Bool, false, Option, none, some, List, [], ◌∷◌,
  arith, if◌then◌else◌, Bool-cases, bit, Text, text_eq, length, count, Result, ok, Exec, pure,
  ◌>>=◌, suc,
}
use proxy_hopper_v.Backend.{
  View, Backend, Contract, Done, Claims, is_some, pushed, popped, counted, quarantined, swept,
}

-- A call of a method, but its target.
pub data Call : Type 0 where
  init : Call
  push : Text → Call
  -- one more than the timeout
  pop : ℕ → Call
  size : Call
  increment : Text → Call
  reset : Text → Call
  failures : Text → Call
  add : Text → ℕ → Call
  pop_expired : ℕ → Call
  list : Call

-- What a call returns.
pub data Answer : Type 0 where
  nothing : Answer
  flag : Bool → Answer
  taken : Option Text → Answer
  number : ℕ → Answer
  addresses : List Text → Answer

-- Answers that differ in the order of addresses at most.
abbrev pub Alike : Answer → Answer → Type 0
Alike (addresses xs) (addresses ys) = (a : Text) → count a xs ≡ count a ys
Alike x y = x ≡ y

abbrev pub AllAlike : List Answer → List Answer → Type 0
AllAlike [] [] = Unit
AllAlike [] (y ∷ ys) = ⊥
AllAlike (x ∷ xs) [] = ⊥
AllAlike (x ∷ xs) (y ∷ ys) = Alike x y × AllAlike xs ys

module _ (b : Backend) where
  abbrev answer : {A : Type 0} → (A → Answer) → Exec b.Store A → Exec b.Store Answer
  answer f m = m >>= (λ a. pure (f a))

  unfoldable pub call : Text → Call → Exec b.Store Answer
  call t init = answer flag (b.init_target t)
  call t (push a) = answer (λ _. nothing) (b.push_ip t a)
  call t (pop n) = answer taken (b.pop_ip t (suc n))
  call t size = answer number (b.pool_size t)
  call t (increment a) = answer number (b.increment_failures t a)
  call t (reset a) = answer (λ _. nothing) (b.reset_failures t a)
  call t (failures a) = answer number (b.get_failures t a)
  call t (add a n) = answer (λ _. nothing) (b.quarantine_add t a n)
  call t (pop_expired now) = answer addresses (b.quarantine_pop_expired t now)
  call t list = answer addresses (b.quarantine_list t)

  unfoldable pub calls : List (Text × Call) → Exec b.Store (List Answer)
  unfolding call
  calls [] = pure []
  calls ((t, c) ∷ cs) = call t c >>= (λ x. calls cs >>= (λ xs. pure (x ∷ xs)))

abbrev head : List Text → Option Text
head [] = none
head (a ∷ rest) = some a

abbrev tail : List Text → List Text
tail [] = []
tail (a ∷ rest) = rest

-- What a call of an initialised target does to its view, and what it answers.
abbrev pub effect : Call → View → View
effect init v = v
effect (push a) v = pushed a v
effect (pop n) v = popped (tail v.queue) v
effect size v = v
effect (increment a) v = counted a (v.failures a + 1) v
effect (reset a) v = counted a 0 v
effect (failures a) v = v
effect (add a n) v = quarantined a n v
effect (pop_expired now) v = swept now v
effect list v = v

abbrev pub Fits : Call → View → Answer → Type 0
Fits init v x = x ≡ flag false
Fits (push a) v x = x ≡ nothing
Fits (pop n) v x = x ≡ taken (head v.queue)
Fits size v x = x ≡ number (length v.queue)
Fits (increment a) v x = x ≡ number (v.failures a + 1)
Fits (reset a) v x = x ≡ nothing
Fits (failures a) v x = x ≡ number (v.failures a)
Fits (add a n) v x = x ≡ nothing
Fits (pop_expired now) v x = (xs : List Text) × (x ≡ addresses xs) × Claims now v xs
Fits list v x =
    (xs : List Text) × (x ≡ addresses xs) × ((a : Text) → count a xs ≡ bit (is_some (v.release a)))

module _ (b : Backend) (c : Contract b) (s : b.Store) (t : Text) (v : View) where
  abbrev Does : {A : Type 0} → Result A × b.Store → A → View → Type 0
  Does out r w = Done c.view c.IsValid s t out r w

  answered :
      {A : Type 0} (f : A → Answer) (m : Exec b.Store A) (r : A) (w : View)
      → Does (m s) r w
      → Does ((m >>= (λ a. pure (f a))) s) (f r) w
  answered f m r w h = rw h.returned (record { returned = refl; valid = h.valid; views = h.views })

  next_pop :
      (n : ℕ) (q : List Text)
      → c.IsValid s
      → c.view s t ≡ some v
      → v.queue ≡ q
      → Does (b.pop_ip t (suc n) s) (head q) (popped (tail q) v)
  next_pop n [] h e q =
      subst (λ q. Does (b.pop_ip t (suc n) s) none (popped q v)) q (c.pop_empty s t (suc n) v h e q)
  next_pop n (a ∷ rest) h e q = c.pop_next s t (suc n) v a rest h e q (omega arith)

  -- Each call answers what the contract says and changes its target as it says.
  pub call-Fits :
      (k : Call)
      → c.IsValid s
      → c.view s t ≡ some v
      → (x : Answer) × Fits k v x × Does (call b t k s) x (effect k v)
  unfolding call
  call-Fits init h e =
      (flag false, refl, answered flag (b.init_target t) _ _ (c.init_again s t v h e))
  call-Fits (push a) h e =
      (nothing, refl, answered (λ _. nothing) (b.push_ip t a) _ _ (c.push s t a v h e))
  call-Fits (pop n) h e = (
    taken (head v.queue),
    refl,
    answered taken (b.pop_ip t (suc n)) _ _ (next_pop n v.queue h e refl),
  )
  call-Fits size h e = (number _, refl, answered number (b.pool_size t) _ _ (c.size s t v h e))
  call-Fits (increment a) h e =
      (number _, refl, answered number (b.increment_failures t a) _ _ (c.increment s t a v h e))
  call-Fits (reset a) h e =
      (nothing, refl, answered (λ _. nothing) (b.reset_failures t a) _ _ (c.reset s t a v h e))
  call-Fits (failures a) h e =
      (number _, refl, answered number (b.get_failures t a) _ _ (c.failures s t a v h e))
  call-Fits (add a n) h e =
      (nothing, refl, answered (λ _. nothing) (b.quarantine_add t a n) _ _ (c.add s t a n v h e))
  call-Fits (pop_expired now) h e =
      let (xs, each, w) = c.pop_expired s t now v h e in
      (addresses xs, (xs, refl, each), answered addresses (b.quarantine_pop_expired t now) _ _ w)
  call-Fits list h e =
      let (xs, each, w) = c.list s t v h e in
      (addresses xs, (xs, refl, each), answered addresses (b.quarantine_list t) _ _ w)

Fits-Alike : (k : Call) (v : View) (x y : Answer) → Fits k v x → Fits k v y → Alike x y
Fits-Alike init v x y h g = rw (h, g) refl
Fits-Alike (push a) v x y h g = rw (h, g) refl
Fits-Alike (pop n) v x y h g = rw (h, g) refl
Fits-Alike size v x y h g = rw (h, g) refl
Fits-Alike (increment a) v x y h g = rw (h, g) refl
Fits-Alike (reset a) v x y h g = rw (h, g) refl
Fits-Alike (failures a) v x y h g = rw (h, g) refl
Fits-Alike (add a n) v x y h g = rw (h, g) refl
Fits-Alike (pop_expired now) v x y (xs, p, h) (ys, q, g) = rw (p, q) (λ a. h a ∙ sym (g a))
Fits-Alike list v x y (xs, p, h) (ys, q, g) = rw (p, q) (λ a. h a ∙ sym (g a))

-- Every target of the calls is there.
abbrev pub Known : (Text → Option View) → List (Text × Call) → Type 0
Known view [] = Unit
Known view ((t, k) ∷ cs) = ((v : View) × (view t ≡ some v)) × Known view cs

Known-after :
    (view view' : Text → Option View) (t : Text) (w : View) (cs : List (Text × Call))
    → ((u : Text) → view' u ≡ (if text_eq t u then some w else view u))
    → Known view cs
    → Known view' cs
Known-after view view' t w [] h g = tt
Known-after view view' t w ((u, k) ∷ cs) h ((v, e), g) = (
  elim (Bool-cases (text_eq t u)) [ inl p ↦ (w, rw (h u, p) refl) | inr p ↦ (v, rw (h u, p) e) ],
  Known-after view view' t w cs h g,
)

module _ (b : Backend) (c : Contract b) (b' : Backend) (c' : Contract b') where
  abbrev SameViews : b.Store → b'.Store → Type 0
  SameViews s s' = (u : Text) → c.view s u ≡ c'.view s' u

  -- Both returned, with answers that are alike, and hold the same for every target.
  pub record Agreed (out : Result (List Answer) × b.Store) (out' : Result (List Answer) × b'.Store)
      : Type 0 where
    pub answers : List Answer
    pub returned : out.0 ≡ ok answers
    pub answers' : List Answer
    pub returned' : out'.0 ≡ ok answers'
    pub alike : AllAlike answers answers'
    pub valid : c.IsValid out.1
    pub valid' : c'.IsValid out'.1
    pub views : (u : Text) → c.view out.1 u ≡ c'.view out'.1 u

  -- Two backends that keep the contract, over valid stores that hold the same for every target,
  -- answer any sequence of calls for initialised targets, with positive timeouts, without an
  -- exception and alike: only the order of the addresses of a sweep or of the listing of the
  -- quarantine may differ. Then they hold the same for every target again.
  pub calls-Agreed :
      (cs : List (Text × Call)) (s : b.Store) (s' : b'.Store)
      → c.IsValid s
      → c'.IsValid s'
      → ((u : Text) → c.view s u ≡ c'.view s' u)
      → Known (c.view s) cs
      → Agreed (calls b cs s) (calls b' cs s')
  unfolding calls
  calls-Agreed [] s s' h h' e k = record {
    answers = [];
    returned = refl;
    answers' = [];
    returned' = refl;
    alike = tt;
    valid = h;
    valid' = h';
    views = e;
  }
  calls-Agreed ((t, m) ∷ cs) s s' h h' e ((v, o), k) =
      let (x, f, g) = call-Fits b c s t v m h o in
      let (x', f', g') = call-Fits b' c' s' t v m h' (sym (e t) ∙ o) in
      let rest =
        calls-Agreed cs (call b t m s).1 (call b' t m s').1 g.valid g'.valid
          (λ u. rw (g.views u, g'.views u, e u) refl)
          (Known-after (c.view s) (c.view (call b t m s).1) t (effect m v) cs g.views k) in
      rw (g.returned, g'.returned, rest.returned, rest.returned')
        (record {
          answers = x ∷ rest.answers;
          returned = refl;
          answers' = x' ∷ rest.answers';
          returned' = refl;
          alike = (Fits-Alike m v x x' f f', rest.alike);
          valid = rest.valid;
          valid' = rest.valid';
          views = rest.views;
        })
