-- ===== src/Prober/Addresses.antt =====
-- Which addresses are probed.
use proxy_hopper_v.Common.{
  ◌+◌, ◌≤◌, ◌≡◌, refl, ◌∙◌, Bool-cases, inl, inr, List, [], ◌∷◌, ◌++◌, arith, ltb, bit, Text,
  text_eq_iff, count, count-append, Result, ok, err,
}
use proxy_hopper_v.Config.{TargetConfig}
use proxy_hopper_v.TargetManager.{is_in}
use proxy_hopper_v.Prober.{IpProber, add_unique, all_addresses, prober_of, with_unique, new}

is_in-count : (a : Text) (xs : List Text) → is_in a xs ≡ ltb 0 (count a xs)
unfolding is_in count
is_in-count a [] = refl
is_in-count a (x ∷ xs) = ground (arith, is_in-count a xs)

count-add_unique :
    (x : Text) (unique all : List Text)
    → count x unique ≤ 1
    → count x (add_unique unique all) ≡ bit (ltb 0 (count x unique + count x all))
unfolding add_unique count
count-add_unique x unique [] h = ground arith
count-add_unique x unique (a ∷ all) h = elim (Bool-cases (is_in a unique)) [
  | inl e ↦
      rw e (ground (arith, count-add_unique x unique all, is_in-count a unique, text_eq_iff x a))
  | inr e ↦ rw e (
      ground (
        arith,
        count-add_unique x (unique ++ a ∷ []) all,
        count-append x unique (a ∷ []),
        is_in-count a unique,
        text_eq_iff x a,
      ))
]

with_unique-prober_of :
    (urls : List Text) (o : Result (List Text)) {p : IpProber} {all : List Text}
    → with_unique urls o ≡ ok p
    → o ≡ ok all
    → p ≡ prober_of urls (add_unique [] all)
with_unique-prober_of urls (err e) h k = cc
with_unique-prober_of urls (ok ys) h k = cc

pub new-prober_of :
    (targets : List TargetConfig) (urls all : List Text) (p : IpProber)
    → new targets urls ≡ ok p
    → all_addresses targets ≡ ok all
    → p ≡ prober_of urls (add_unique [] all)
unfolding new
new-prober_of targets urls all p h k =
    with_unique-prober_of urls (all_addresses targets) {p = p} {all = all} h k

-- A prober that can be made probes each address of the targets exactly once in a round, in however
-- many lists it stands, and no other address.
pub new-addresses :
    (targets : List TargetConfig) (urls all : List Text) (p : IpProber) (x : Text)
    → new targets urls ≡ ok p
    → all_addresses targets ≡ ok all
    → count x p.addresses ≡ bit (ltb 0 (count x all))
unfolding count
new-addresses targets urls all p x h k =
    rw (new-prober_of targets urls all p h k)
      (count-add_unique x [] all (omega arith) ∙ ground arith)
