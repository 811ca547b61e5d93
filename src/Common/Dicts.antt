-- ===== src/Common/Dicts.antt =====
-- Python's `dict` with text keys, in insertion order.
use mathlib.Core.Path.{◌≡◌, refl}
use mathlib.Core.Option.{Option, none, some}
use mathlib.Core.List.{List, [], ◌∷◌}
use native.Mathlib.Omega.{arith}
use proxy_hopper_v.Common.Numbers.{if◌then◌else◌}
use proxy_hopper_v.Common.Texts.{Text, text_eq, text_eq_iff}

abbrev pub Dict {ℓ} : Type ℓ → Type ℓ
Dict V = List (Text × V)

module _ {ℓ} {V : Type ℓ} where
  -- d.get(k)
  unfoldable pub lookup : Text → Dict V → Option V
  lookup k [] = none
  lookup k ((j, v) ∷ d) = if text_eq k j then some v else lookup k d

  -- d[k] = v: a known key keeps its place.
  unfoldable pub insert : Text → V → Dict V → Dict V
  insert k v [] = (k, v) ∷ []
  insert k v ((j, w) ∷ d) = if text_eq k j then (j, v) ∷ d else (j, w) ∷ insert k v d

  -- del d[k], of a key that is there; d.pop(k, None)
  unfoldable pub delete : Text → Dict V → Dict V
  delete k [] = []
  delete k ((j, v) ∷ d) = let rest = delete k d in if text_eq k j then rest else (j, v) ∷ rest

  abbrev pub keys : Dict V → List Text
  keys [] = []
  keys ((k, v) ∷ d) = k ∷ keys d

  -- `d` with the keys of `xs` deleted one by one.
  unfoldable pub delete_all : List Text → Dict V → Dict V
  delete_all [] d = d
  delete_all (k ∷ ks) d = delete_all ks (delete k d)

  pub lookup-insert :
      (k j : Text) (v : V) (d : Dict V)
      → lookup j (insert k v d) ≡ (if text_eq k j then some v else lookup j d)
  unfolding lookup insert
  lookup-insert k j v [] = ground (arith, text_eq_iff k j, text_eq_iff j k)
  lookup-insert k j v ((i, w) ∷ d) = ground (
    arith,
    text_eq_iff k j,
    text_eq_iff j k,
    text_eq_iff k i,
    text_eq_iff j i,
    lookup-insert k j v d,
  )

  pub lookup-delete :
      (k j : Text) (d : Dict V) → lookup j (delete k d) ≡ (if text_eq k j then none else lookup j d)
  unfolding lookup delete
  lookup-delete k j [] = ground arith
  lookup-delete k j ((i, w) ∷ d) =
      ground (arith, text_eq_iff k j, text_eq_iff k i, text_eq_iff j i, lookup-delete k j d)

  -- The type of Python's dictionaries has no key twice.
  abbrev pub HasUniqueKeys : Dict V → Type ℓ
  HasUniqueKeys [] = Unit
  HasUniqueKeys ((k, v) ∷ d) = (lookup k d ≡ none) × HasUniqueKeys d

  pub insert-HasUniqueKeys :
      (k : Text) (v : V) (d : Dict V) → HasUniqueKeys d → HasUniqueKeys (insert k v d)
  unfolding lookup insert
  insert-HasUniqueKeys k v [] h = (refl, tt)
  insert-HasUniqueKeys k v ((i, w) ∷ d) h =
      ground (arith, text_eq_iff k i, lookup-insert k i v d, insert-HasUniqueKeys k v d h.1)

  pub delete-HasUniqueKeys : (k : Text) (d : Dict V) → HasUniqueKeys d → HasUniqueKeys (delete k d)
  unfolding lookup delete
  delete-HasUniqueKeys k [] h = tt
  delete-HasUniqueKeys k ((i, w) ∷ d) h =
      ground (arith, lookup-delete k i d, delete-HasUniqueKeys k d h.1)

  pub delete_all-HasUniqueKeys :
      (ks : List Text) (d : Dict V) → HasUniqueKeys d → HasUniqueKeys (delete_all ks d)
  unfolding delete_all
  delete_all-HasUniqueKeys [] d h = h
  delete_all-HasUniqueKeys (k ∷ ks) d h =
      delete_all-HasUniqueKeys ks (delete k d) (delete-HasUniqueKeys k d h)
