-- ===== src/Backend.antt =====
-- backend/base.py: the abstract class `IPPoolBackend` as a record of operations, and the contract
-- that its doc strings state, over an abstract view of what is stored for each target.
pub mod Memory
pub mod Redis
pub mod Agreement
use proxy_hopper_v.Common.{
  ◌⊎◌, inl, inr, ℕ, ◌+◌, ◌<◌, ◌≡◌, Bool, true, false, Option, none, some, List, [], ◌∷◌, ◌++◌, leb,
  if◌then◌else◌, bit, Text, text_eq, count, length, Result, ok, Exec,
}

-- What a backend stores for one target, with the representation and the order of the quarantine
-- forgotten.
pub record View : Type 0 where
  -- the available addresses, the next one first
  pub queue : List Text
  -- consecutive failures, 0 if never set
  pub failures : Text → ℕ
  -- the release time of a quarantined address
  pub release : Text → Option ℕ

abbrev pub empty_view : View
empty_view = record { queue = []; failures = λ a. 0; release = λ a. none }

-- f with f(a) = v
abbrev pub update {ℓ} : {V : Type ℓ} → (Text → V) → Text → V → Text → V
update f a v b = if text_eq a b then v else f b

-- The contract's effect of each operation on the view of its target.
abbrev pub pushed : Text → View → View
pushed a v = record v { queue = v.queue ++ a ∷ [] }

abbrev pub popped : List Text → View → View
popped rest v = record v { queue = rest }

abbrev pub counted : Text → ℕ → View → View
counted a n v = record v { failures = update v.failures a n }

abbrev pub quarantined : Text → ℕ → View → View
quarantined a t v = record v { release = update v.release a (some t) }

-- An entry whose release time has come, and what a sweep leaves.
abbrev pub is_due : ℕ → Option ℕ → Bool
is_due now none = false
is_due now (some t) = leb t now

abbrev pub not_due : ℕ → Option ℕ → Option ℕ
not_due now none = none
not_due now (some t) = if leb t now then none else some t

abbrev pub swept : ℕ → View → View
swept now v = record v { release = λ a. not_due now (v.release a) }

-- The methods of the class. Each runs to its end in one step, `pop_ip` at the moment at which an
-- address is there or its time is over.
pub record Backend : Type 1 where
  pub Store : Type 0
  pub init_target : Text → Exec Store Bool
  pub push_ip : Text → Text → Exec Store (Unit {0})
  pub pop_ip : Text → ℕ → Exec Store (Option Text)
  pub pool_size : Text → Exec Store ℕ
  pub increment_failures : Text → Text → Exec Store ℕ
  pub reset_failures : Text → Text → Exec Store (Unit {0})
  pub get_failures : Text → Text → Exec Store ℕ
  pub quarantine_add : Text → Text → ℕ → Exec Store (Unit {0})
  pub quarantine_pop_expired : Text → ℕ → Exec Store (List Text)
  pub quarantine_list : Text → Exec Store (List Text)

module _ {Store : Type 0} (view : Store → Text → Option View) (IsValid : Store → Type 0) where
  -- `out`, reached from the store `s`, returned normally, and for the target `t` the store now
  -- holds `v`; the other targets keep what they had.
  pub record Done {A : Type 0} (s : Store) (t : Text) (out : Result A × Store) (r : A) (v : View)
      : Type 0 where
    pub returned : out.0 ≡ ok r
    pub valid : IsValid out.1
    pub views : (u : Text) → view out.1 u ≡ (if text_eq t u then some v else view s u)

abbrev pub is_some {ℓ} : {A : Type ℓ} → Option A → Bool
is_some none = false
is_some (some a) = true

-- What each address counts for in a list of claimed addresses: once if its time has come.
abbrev pub Claims : ℕ → View → List Text → Type 0
Claims now v xs = (a : Text) → count a xs ≡ bit (is_due now (v.release a))

-- What the doc strings of the class promise of its methods, for a target that was initialised.
pub record Contract (b : Backend) : Type 1 where
  pub view : b.Store → Text → Option View
  pub IsValid : b.Store → Type 0
  -- the names of targets that the storage can tell apart
  pub IsName : Text → Type 0
  pub init_first :
      (s : b.Store) (t : Text)
      → IsName t
      → IsValid s
      → view s t ≡ none
      → Done view IsValid s t (b.init_target t s) true empty_view
  pub init_again :
      (s : b.Store) (t : Text) (v : View)
      → IsValid s
      → view s t ≡ some v
      → Done view IsValid s t (b.init_target t s) false v
  pub push :
      (s : b.Store) (t a : Text) (v : View)
      → IsValid s
      → view s t ≡ some v
      → Done view IsValid s t (b.push_ip t a s) tt (pushed a v)
  pub pop_empty :
      (s : b.Store) (t : Text) (timeout : ℕ) (v : View)
      → IsValid s
      → view s t ≡ some v
      → v.queue ≡ []
      → Done view IsValid s t (b.pop_ip t timeout s) none v
  pub pop_next :
      (s : b.Store) (t : Text) (timeout : ℕ) (v : View) (a : Text) (rest : List Text)
      → IsValid s
      → view s t ≡ some v
      → v.queue ≡ a ∷ rest
      → 0 < timeout
      → Done view IsValid s t (b.pop_ip t timeout s) (some a) (popped rest v)
  -- with no time at all, the wait is over before or after it has the address
  pub pop_late :
      (s : b.Store) (t : Text) (v : View) (a : Text) (rest : List Text)
      → IsValid s
      → view s t ≡ some v
      → v.queue ≡ a ∷ rest
      → Done view IsValid s t (b.pop_ip t 0 s) none v
        ⊎ Done view IsValid s t (b.pop_ip t 0 s) (some a) (popped rest v)
  pub size :
      (s : b.Store) (t : Text) (v : View)
      → IsValid s
      → view s t ≡ some v
      → Done view IsValid s t (b.pool_size t s) (length v.queue) v
  pub increment :
      (s : b.Store) (t a : Text) (v : View)
      → IsValid s
      → view s t ≡ some v
      → Done view IsValid s t
          (b.increment_failures t a s)
          (v.failures a + 1)
          (counted a (v.failures a + 1) v)
  pub reset :
      (s : b.Store) (t a : Text) (v : View)
      → IsValid s
      → view s t ≡ some v
      → Done view IsValid s t (b.reset_failures t a s) tt (counted a 0 v)
  pub failures :
      (s : b.Store) (t a : Text) (v : View)
      → IsValid s
      → view s t ≡ some v
      → Done view IsValid s t (b.get_failures t a s) (v.failures a) v
  pub add :
      (s : b.Store) (t a : Text) (release_at : ℕ) (v : View)
      → IsValid s
      → view s t ≡ some v
      → Done view IsValid s t (b.quarantine_add t a release_at s) tt (quarantined a release_at v)
  pub pop_expired :
      (s : b.Store) (t : Text) (now : ℕ) (v : View)
      → IsValid s
      → view s t ≡ some v
      → (xs : List Text) × Claims now v xs
        × Done view IsValid s t (b.quarantine_pop_expired t now s) xs (swept now v)
  pub list :
      (s : b.Store) (t : Text) (v : View)
      → IsValid s
      → view s t ≡ some v
      → (xs : List Text) × ((a : Text) → count a xs ≡ bit (is_some (v.release a)))
        × Done view IsValid s t (b.quarantine_list t s) xs v
