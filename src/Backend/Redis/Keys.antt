-- ===== src/Backend/Redis/Keys.antt =====
-- The keys of different targets, and of the different uses of one target, are different, for
-- targets with no colon in their name.
use proxy_hopper_v.Common.{
  ◌≡◌, refl, sym, ◌∙◌, ap, false, ◌&&◌, [], ◌∷◌, ◌++◌, arith, Text, text_eq, text_eq_iff,
  text_eq_refl, Bool-cases, inl, inr,
}
use proxy_hopper_v.Strings.{has, partition}
use proxy_hopper_v.Backend.Redis.{key}

abbrev pub IsName : Text → Type 0
IsName target = has b':' target ≡ false

partition-append : (t x : Text) → IsName t → partition b':' (t ++ b':' ∷ x) ≡ (t, x)
unfolding has partition
partition-append [] x h = refl
partition-append (c ∷ t) x h = ground (arith, partition-append t x)

-- The target and the use, read from a key.
abbrev parts : Text → Text × Text
parts k = partition b':' (partition b':' k).1

parts-key : (t x : Text) → IsName t → parts (key t x) ≡ (t, x)
unfolding partition
parts-key t x h = partition-append t x h

-- Two keys are the same exactly if their targets and their uses are.
pub text_eq-key :
    (t u x y : Text)
    → IsName t
    → IsName u
    → text_eq (key t x) (key u y) ≡ text_eq t u && text_eq x y
text_eq-key t u x y h g = elim (Bool-cases (text_eq (key t x) (key u y))) [
  | inl e ↦
      let p : (t, x) ≡ (u, y) =
        sym (parts-key t x h)
        ∙ ap parts ((text_eq_iff (key t x) (key u y)).0 e)
        ∙ parts-key u y g in
      rw (e, ap (λ q. q.0) p, ap (λ q. q.1) p, text_eq_refl u, text_eq_refl y)
  | inr e ↦ rw e (distinct e)
]
  where
    distinct : text_eq (key t x) (key u y) ≡ false → false ≡ text_eq t u && text_eq x y
    distinct e = elim (Bool-cases (text_eq t u)) [
      | inl p ↦ elim (Bool-cases (text_eq x y)) [
        | inl q ↦
            ground (arith, (text_eq_iff t u).0 p, (text_eq_iff x y).0 q, text_eq_refl (key t x))
        | inr q ↦ rw (p, q)
      ]
      | inr p ↦ rw p
    ]
