-- ===== src/Backend/Redis/Race.antt =====
-- Several instances sweep the quarantine of one target over the same server: each scan and each
-- removal of `quarantine_pop_expired` of proxy_hopper_redis/backend.py is a step of its own.
use proxy_hopper_v.Common.{
  ℕ, zero, suc, ◌+◌, ◌≡◌, refl, ◌∙◌, ◌++◌, Option, none, some, List, [], ◌∷◌, arith, if◌then◌else◌,
  ◌==◌, bit, Text, text_eq_iff, count, count-append, Result, ok, Exec, pure, ◌>>=◌,
}
use proxy_hopper_v.Backend.{update, is_some}
use proxy_hopper_v.Backend.Redis.{quarantine_key}
use proxy_hopper_v.Backend.Redis.Commands.{Client, IsDocumented, as_scores}

-- A call of `quarantine_pop_expired` that is under way: the candidates that it has not tried yet,
-- and `claimed`.
pub record Sweep : Type 0 where
  pub candidates : List Text
  pub claimed : List Text

-- An instance scans, or the `i`-th call goes on to its next candidate.
pub data Move : Type 0 where
  scan : ℕ → Move
  next : ℕ → Move

-- How often an address was claimed by all calls together.
unfoldable pub total : Text → List Sweep → ℕ
total a [] = 0
total a (w ∷ ws) = count a w.claimed + total a ws

total-append : (a : Text) (ws vs : List Sweep) → total a (ws ++ vs) ≡ total a ws + total a vs
unfolding total
total-append a [] vs = omega arith
total-append a (w ∷ ws) vs = omega (arith, total-append a ws vs)

module _ (redis : Client) (target : Text) where
  -- one round of the loop
  unfoldable pub claim_next : Sweep → Exec redis.Server Sweep
  claim_next w = elim w.candidates [
    | [] ↦ pure w
    | address ∷ rest ↦ redis.zrem (quarantine_key target) address >>= (λ removed. pure (record {
      candidates = rest;
      claimed = if removed == 0 then w.claimed else w.claimed ++ address ∷ [];
    }))
  ]

  unfoldable pub advance : ℕ → List Sweep → Exec redis.Server (List Sweep)
  unfolding claim_next
  advance i [] = pure []
  advance zero (w ∷ ws) = do w' ← claim_next w; pure (w' ∷ ws)
  advance (suc i) (w ∷ ws) = do ws' ← advance i ws; pure (w ∷ ws')

  unfoldable pub make_move : Move → List Sweep → Exec redis.Server (List Sweep)
  unfolding advance
  make_move (scan now) ws = do
    candidates ← redis.zrangebyscore (quarantine_key target) 0 now
    pure (ws ++ (record { candidates = candidates; claimed = [] }) ∷ [])
  make_move (next i) ws = advance i ws

  unfoldable pub make_moves : List Move → List Sweep → Exec redis.Server (List Sweep)
  unfolding make_move
  make_moves [] ws = pure ws
  make_moves (m ∷ ms) ws = do ws' ← make_move m ws; make_moves ms ws'

module _ (redis : Client) (d : IsDocumented redis) (target : Text) where
  -- `out`, reached from the server `s` that holds the release times `f`, returned sweeps that with
  -- the quarantine account for each address as `n` says.
  pub record Conserved (n : Text → ℕ) (out : Result (List Sweep) × redis.Server) : Type 0 where
    pub sweeps : List Sweep
    pub returned : out.0 ≡ ok sweeps
    pub left : Text → Option ℕ
    pub scores : as_scores (d.holds out.1 (quarantine_key target)) ≡ some left
    pub each : (a : Text) → total a sweeps + bit (is_some (left a)) ≡ n a

  abbrev Holds : redis.Server → (Text → Option ℕ) → Type 0
  Holds s f = as_scores (d.holds s (quarantine_key target)) ≡ some f

  abbrev amount : List Sweep → (Text → Option ℕ) → Text → ℕ
  amount ws f a = total a ws + bit (is_some (f a))

  claimed_once :
      (x a : Text) (xs : List Text) (f : Text → Option ℕ)
      → count a (if bit (is_some (f x)) == 0 then xs else xs ++ x ∷ [])
          + bit (is_some (update f x none a))
        ≡ count a xs + bit (is_some (f a))
  unfolding count
  claimed_once x a xs f =
      ground (arith, text_eq_iff x a, text_eq_iff a x, count-append a xs (x ∷ []))

  -- The same of one sweep.
  record Moved (n : Text → ℕ) (out : Result Sweep × redis.Server) : Type 0 where
    sweep : Sweep
    returned : out.0 ≡ ok sweep
    left : Text → Option ℕ
    scores : as_scores (d.holds out.1 (quarantine_key target)) ≡ some left
    each : (a : Text) → count a sweep.claimed + bit (is_some (left a)) ≡ n a

  claim_next-Moved :
      (cs xs : List Text) (s : redis.Server) (f : Text → Option ℕ)
      → Holds s f
      → Moved
          (λ a. count a xs + bit (is_some (f a)))
          (claim_next redis target (record { candidates = cs; claimed = xs }) s)
  unfolding claim_next
  claim_next-Moved [] xs s f h = record {
    sweep = record { candidates = []; claimed = xs };
    returned = refl;
    left = f;
    scores = h;
    each = λ a. refl;
  }
  claim_next-Moved (x ∷ cs) xs s f h =
      let (z, g) = d.zrem s (quarantine_key target) x f h in
      rw z.returned (record {
        sweep = _;
        returned = refl;
        left = update f x none;
        scores = g;
        each = λ a. claimed_once x a xs f;
      })

  advance-Conserved :
      (i : ℕ) (ws : List Sweep) (s : redis.Server) (f : Text → Option ℕ)
      → Holds s f
      → Conserved (amount ws f) (advance redis target i ws s)
  unfolding advance total
  advance-Conserved i [] s f h = record {
    sweeps = [];
    returned = refl;
    left = f;
    scores = h;
    each = λ a. refl;
  }
  advance-Conserved zero (w ∷ ws) s f h =
      let k = claim_next-Moved w.candidates w.claimed s f h in
      rw k.returned (record {
        sweeps = k.sweep ∷ ws;
        returned = refl;
        left = k.left;
        scores = k.scores;
        each = λ a. omega (arith, k.each a);
      })
  advance-Conserved (suc i) (w ∷ ws) s f h =
      let k = advance-Conserved i ws s f h in
      rw k.returned (record {
        sweeps = w ∷ k.sweeps;
        returned = refl;
        left = k.left;
        scores = k.scores;
        each = λ a. omega (arith, k.each a);
      })

  make_move-Conserved :
      (m : Move) (ws : List Sweep) (s : redis.Server) (f : Text → Option ℕ)
      → Holds s f
      → Conserved (amount ws f) (make_move redis target m ws s)
  unfolding make_move total count
  make_move-Conserved (scan now) ws s f h =
      let (xs, _, z) = d.zrangebyscore s (quarantine_key target) 0 now f h in
      rw z.returned (record {
        sweeps = _;
        returned = refl;
        left = f;
        scores = rw (z.same (quarantine_key target)) h;
        each =
            λ a. omega (arith, total-append a ws (record { candidates = xs; claimed = [] } ∷ []));
      })
  make_move-Conserved (next i) ws s f h = advance-Conserved i ws s f h

  make_moves-Conserved :
      (ms : List Move) (ws : List Sweep) (s : redis.Server) (f : Text → Option ℕ)
      → Holds s f
      → Conserved (amount ws f) (make_moves redis target ms ws s)
  unfolding make_moves
  make_moves-Conserved [] ws s f h = record {
    sweeps = ws;
    returned = refl;
    left = f;
    scores = h;
    each = λ a. refl;
  }
  make_moves-Conserved (m ∷ ms) ws s f h =
      let k = make_move-Conserved m ws s f h in
      let l = make_moves-Conserved ms k.sweeps _ k.left k.scores in
      rw k.returned (record {
        sweeps = l.sweeps;
        returned = l.returned;
        left = l.left;
        scores = l.scores;
        each = λ a. l.each a ∙ k.each a;
      })

  -- However many instances sweep one target of the same Redis server, and in whatever order their
  -- scans and removals come, none raises, and each address of the quarantine is either still there
  -- or was claimed by exactly one call, if the commands do what the documentation of Redis says.
  pub make_moves-claims :
      (ms : List Move) (s : redis.Server) (f : Text → Option ℕ)
      → as_scores (d.holds s (quarantine_key target)) ≡ some f
      → Conserved (λ a. bit (is_some (f a))) (make_moves redis target ms [] s)
  unfolding total
  make_moves-claims ms s f h =
      let k = make_moves-Conserved ms [] s f h in
      record {
        sweeps = k.sweeps;
        returned = k.returned;
        left = k.left;
        scores = k.scores;
        each = λ a. omega (arith, k.each a);
      }
