-- ===== src/Server/Relay.antt =====
-- `_relay` of server.py: the two pipes of a tunnel.
use proxy_hopper_v.Common.{
  ℕ, zero, suc, ◌+◌, ◌<◌, arith, ◌≡◌, refl, sym, subst, ap, ◌∙◌, append_assoc, Bool, true, Option,
  none, some, List, [], ◌∷◌, ◌++◌, Text, Error, connection_closed, Result, ok, err,
}

-- The end of a pipe: what was written to its destination, which is closed, and the exception that
-- leaves it, which `gather` keeps to itself.
pub record Piped : Type 0 where
  pub written : Text
  pub closed : Bool
  pub raised : Option Error

-- The `except` clause.
abbrev pub escaped : Error → Option Error
escaped connection_closed = none
escaped e = some e

abbrev pub preceded : Text → Piped → Piped
preceded chunk p = record p { written = chunk ++ p.written }

abbrev pub ended : Text → Option Error → Piped
ended chunk e = record { written = chunk; closed = true; raised = e }

-- `reads` are the results of the calls of `read`, where an empty one ends the stream, and `drains`
-- those of the calls of `drain`.
module _ (drains : ℕ → Result (Unit {0})) where
  abbrev pub written_then : Text → Result (Unit {0}) → Piped → Piped
  written_then chunk (ok x) more = preceded chunk more
  written_then chunk (err e) more = ended chunk (escaped e)

  unfoldable pub pipe : ℕ → List (Result Text) → Piped
  pipe i [] = ended [] none
  pipe i (err e ∷ reads) = ended [] (escaped e)
  pipe i (ok [] ∷ reads) = ended [] none
  pipe i (ok (c ∷ chunk) ∷ reads) = written_then (c ∷ chunk) (drains i) (pipe (suc i) reads)

-- What arrives before the stream ends or breaks.
abbrev pub arrived : List (Result Text) → Text
arrived [] = []
arrived (err e ∷ reads) = []
arrived (ok [] ∷ reads) = []
arrived (ok (c ∷ chunk) ∷ reads) = (c ∷ chunk) ++ arrived reads

-- The first `k` reads.
abbrev pub first : ℕ → List (Result Text) → List (Result Text)
first zero reads = []
first (suc k) [] = []
first (suc k) (r ∷ reads) = r ∷ first k reads

-- A text that starts with another.
abbrev pub Prefix : Text → Text → Type 0
Prefix s t = (rest : Text) × (t ≡ s ++ rest)

Prefix-append : (s t u : Text) → Prefix t u → Prefix (s ++ t) (s ++ u)
Prefix-append s t u (rest, e) = (rest, ap (λ x. s ++ x) e ∙ sym (append_assoc s t rest))

-- What one pipe of a tunnel writes is a first part of what arrived, byte for byte and in order, and
-- if its first `k` calls of `drain` do not fail, it has at least all that the first `k` reads
-- brought; so nothing is missing if none fails. Its destination is closed at its end.
pub pipe-arrived :
    (drains : ℕ → Result (Unit {0})) (i : ℕ) (reads : List (Result Text)) (k : ℕ)
    → ((j : ℕ) → j < k → drains (i + j) ≡ ok tt)
    → Prefix (pipe drains i reads).written (arrived reads)
      × Prefix (arrived (first k reads)) (pipe drains i reads).written
      × ((pipe drains i reads).closed ≡ true)
unfolding pipe
pipe-arrived drains i [] zero h = (([], refl), ([], refl), refl)
pipe-arrived drains i [] (suc k) h = (([], refl), ([], refl), refl)
pipe-arrived drains i (err e ∷ reads) zero h = (([], refl), ([], refl), refl)
pipe-arrived drains i (err e ∷ reads) (suc k) h = (([], refl), ([], refl), refl)
pipe-arrived drains i (ok [] ∷ reads) zero h = (([], refl), ([], refl), refl)
pipe-arrived drains i (ok [] ∷ reads) (suc k) h = (([], refl), ([], refl), refl)
pipe-arrived drains i (ok (c ∷ chunk) ∷ reads) zero h =
    let (p, q, closed) =
      pipe-arrived drains (suc i) reads zero (λ j l. absurd (omega (arith, l))) in
    one_more (drains i) p closed
  where
    one_more :
        (d : Result (Unit {0}))
        → Prefix (pipe drains (suc i) reads).written (arrived reads)
        → (pipe drains (suc i) reads).closed ≡ true
        → let out = written_then drains (c ∷ chunk) d (pipe drains (suc i) reads) in
          Prefix out.written ((c ∷ chunk) ++ arrived reads)
          × Prefix [] out.written
          × (out.closed ≡ true)
    one_more (err e) p closed = ((arrived reads, refl), (c ∷ chunk, refl), refl)
    one_more (ok x) p closed = (
      Prefix-append (c ∷ chunk) _ _ p,
      ((c ∷ chunk) ++ (pipe drains (suc i) reads).written, refl),
      closed,
    )
pipe-arrived drains i (ok (c ∷ chunk) ∷ reads) (suc k) h =
    let (p, q, closed) =
      pipe-arrived drains (suc i) reads k
        (λ j l. ap drains (omega arith) ∙ h (suc j) (omega (arith, l))) in
    let e : drains i ≡ ok tt = subst (λ n. drains n ≡ ok tt) (omega arith) (h 0 (omega arith)) in
    rw e (Prefix-append (c ∷ chunk) _ _ p, Prefix-append (c ∷ chunk) _ _ q, closed)
