-- ===== src/Backend/Memory/Expiry.antt =====
-- The scan and the deletions of `quarantine_pop_expired`, and the keys of a dictionary.
use proxy_hopper_v.Common.{
  ℕ, ◌≡◌, refl, fun_ext, Option, none, List, [], ◌∷◌, arith, leb, if◌then◌else◌, bit, Text,
  text_eq_iff, count, Dict, lookup, delete, keys, delete_all, HasUniqueKeys, lookup-delete,
}
use proxy_hopper_v.Backend.{is_due, not_due, is_some}
use proxy_hopper_v.Backend.Memory.{expired}

-- An address is found once if its time has come, and otherwise not at all.
pub count-expired :
    (now : ℕ) (a : Text) (d : Dict ℕ)
    → HasUniqueKeys d
    → count a (expired now d) ≡ bit (is_due now (lookup a d))
unfolding count expired lookup
count-expired now a [] h = refl
count-expired now a ((k, r) ∷ d) h = ground (arith, text_eq_iff a k, count-expired now a d h.1)

pub count-keys :
    (a : Text) (d : Dict ℕ) → HasUniqueKeys d → count a (keys d) ≡ bit (is_some (lookup a d))
unfolding count lookup
count-keys a [] h = refl
count-keys a ((k, r) ∷ d) h = ground (arith, text_eq_iff a k, count-keys a d h.1)

lookup-delete_all :
    (a : Text) (ks : List Text) (d : Dict ℕ)
    → lookup a (delete_all ks d) ≡ (if leb 1 (count a ks) then none else lookup a d)
unfolding count delete_all
lookup-delete_all a [] d = refl
lookup-delete_all a (k ∷ ks) d = ground (
  arith,
  text_eq_iff k a,
  text_eq_iff a k,
  lookup-delete k a d,
  lookup-delete_all a ks (delete k d),
)

-- The scan and the deletions together leave exactly the entries whose time has not come.
pub lookup-delete_expired :
    (now : ℕ) (d : Dict ℕ)
    → HasUniqueKeys d
    → ◌≡◌ {A = Text → Option ℕ}
        (λ a. lookup a (delete_all (expired now d) d))
        (λ a. not_due now (lookup a d))
lookup-delete_expired now d h =
    fun_ext λ a. ground (arith, lookup-delete_all a (expired now d) d, count-expired now a d h)
