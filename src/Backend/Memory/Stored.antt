-- ===== src/Backend/Memory/Stored.antt =====
-- The view of a store of backend/memory.py, its well-formedness, and the writes of one target.
use proxy_hopper_v.Common.{
  ℕ, ◌≡◌, refl, inl, inr, true, Option, none, some, List, arith, if◌then◌else◌, Bool-cases, Text,
  text_eq, text_eq_iff, Dict, lookup, HasUniqueKeys, ok,
}
use proxy_hopper_v.Backend.{View, is_some, Done}
use proxy_hopper_v.Backend.Memory.{Memory, member, or_zero}

unfoldable pub view_parts : Option (List Text) → Option (Dict ℕ) → Option (Dict ℕ) → Option View
view_parts none _ _ = none
view_parts (some q) none _ = none
view_parts (some q) (some f) none = none
view_parts (some q) (some f) (some d) =
    some (record { queue = q; failures = λ a. or_zero (lookup a f); release = λ a. lookup a d })

unfoldable pub view : Memory → Text → Option View
unfolding view_parts
view s t = view_parts (lookup t s.pools) (lookup t s.failures) (lookup t s.quarantine)

-- Each initialised target has its three entries, no other target has one, and a dictionary of
-- release times has no key twice.
pub record IsValid (s : Memory) : Type 0 where
  pub pools : (t : Text) → is_some (lookup t s.pools) ≡ member t s.initialised
  pub failures : (t : Text) → is_some (lookup t s.failures) ≡ member t s.initialised
  pub quarantine : (t : Text) → is_some (lookup t s.quarantine) ≡ member t s.initialised
  pub unique : (t : Text) (d : Dict ℕ) → lookup t s.quarantine ≡ some d → HasUniqueKeys d

-- The entries of a target that has a view.
pub record Entries (s : Memory) (t : Text) (v : View) : Type 0 where
  pub counts : Dict ℕ
  pub held : Dict ℕ
  pub pool_at : lookup t s.pools ≡ some v.queue
  pub counts_at : lookup t s.failures ≡ some counts
  pub held_at : lookup t s.quarantine ≡ some held
  pub failures_of : v.failures ≡ (λ a. or_zero (lookup a counts))
  pub release_of : v.release ≡ (λ a. lookup a held)

view-Entries :
    (s : Memory) (t : Text) (v : View) (q : Option (List Text)) (f d : Option (Dict ℕ))
    → lookup t s.pools ≡ q
    → lookup t s.failures ≡ f
    → lookup t s.quarantine ≡ d
    → view_parts q f d ≡ some v
    → Entries s t v
unfolding view_parts
view-Entries s t v none f d _ _ _ h = cc
view-Entries s t v (some q) none d _ _ _ h = cc
view-Entries s t v (some q) (some f) none _ _ _ h = cc
view-Entries s t v (some q) (some f) (some d) p r e h = record {
  counts = f;
  held = d;
  pool_at = ground arith;
  counts_at = r;
  held_at = e;
  failures_of = ground arith;
  release_of = ground arith;
}

pub entries : (s : Memory) (t : Text) (v : View) → view s t ≡ some v → Entries s t v
unfolding view
entries s t v h = view-Entries s t v _ _ _ refl refl refl h

-- An entry that stays, in the form of a write of the same value.
pub kept :
    {V : Type 0} (t : Text) (d : Dict V) {x : V}
    → lookup t d ≡ some x
    → (u : Text) → lookup u d ≡ (if text_eq t u then some x else lookup u d)
kept t d h u = ground (arith, text_eq_iff t u)

-- The store `s'` is `s` with the three entries of `t` written.
pub record Wrote (s s' : Memory) (t : Text) (q : List Text) (f d : Dict ℕ) : Type 0 where
  pub pools : (u : Text) → lookup u s'.pools ≡ (if text_eq t u then some q else lookup u s.pools)
  pub failures :
      (u : Text) → lookup u s'.failures ≡ (if text_eq t u then some f else lookup u s.failures)
  pub quarantine :
      (u : Text) → lookup u s'.quarantine ≡ (if text_eq t u then some d else lookup u s.quarantine)
  pub initialised :
      (u : Text) → member u s'.initialised ≡ (if text_eq t u then true else member u s.initialised)

abbrev pub shown : List Text → Dict ℕ → Dict ℕ → View
shown q f d = record { queue = q; failures = λ a. or_zero (lookup a f); release = λ a. lookup a d }

module _ (s s' : Memory) (t : Text) (q : List Text) (f d : Dict ℕ) (w : Wrote s s' t q f d) where
  wrote-IsValid : IsValid s → HasUniqueKeys d → IsValid s'
  wrote-IsValid h k = record {
    pools = λ u. ground (arith, w.pools u, w.initialised u, h.pools u);
    failures = λ u. ground (arith, w.failures u, w.initialised u, h.failures u);
    quarantine = λ u. ground (arith, w.quarantine u, w.initialised u, h.quarantine u);
    unique = λ u x e. ground (arith, w.quarantine u, h.unique u x);
  }

  wrote-view : (u : Text) → view s' u ≡ (if text_eq t u then some (shown q f d) else view s u)
  unfolding view view_parts
  wrote-view u = elim (Bool-cases (text_eq t u)) [
    | inl e ↦ rw (w.pools u, w.failures u, w.quarantine u, e)
    | inr e ↦ rw (w.pools u, w.failures u, w.quarantine u, e)
  ]

  pub wrote-Done :
      {A : Type 0} (r : A)
      → IsValid s
      → HasUniqueKeys d
      → (v : View) → shown q f d ≡ v
      → Done view IsValid s t (ok r, s') r v
  wrote-Done r h k v e = record {
    returned = refl;
    valid = wrote-IsValid h k;
    views = rw (← e) wrote-view;
  }
