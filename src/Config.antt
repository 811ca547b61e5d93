-- ===== src/Config.antt =====
-- config.py: the target configuration and its addresses.
pub mod Addresses
pub mod Loading
pub mod Settings
mod Tests
use proxy_hopper_v.Common.{
  ℕ, ◌≤◌, ◌≡◌, refl, List, [], ◌∷◌, ◌++◌, Option, none, some, ◌⊎◌, inl, inr, arith, codes,
  if◌then◌else◌, Text, Result, ok, err, value_error,
}
use proxy_hopper_v.Strings.{has, rpartition}
use proxy_hopper_v.Strings.Ints.{ℤ, parse_int, show_int}

-- Times and durations are numbers of milliseconds.
pub record TargetConfig : Type 0 where
  pub name : Text
  pub regex : Text
  pub ip_list : List Text
  pub min_request_interval : ℕ
  pub max_queue_wait : ℕ
  pub num_retries : ℕ
  pub ip_failures_until_quarantine : ℕ
  pub quarantine_time : ℕ
  pub default_proxy_port : ℤ

-- The validator of the field `regex`. `compile` is `re.compile`: a pattern, or the text of an
-- `re.error`.
unfoldable pub validate_regex : {P : Type 0} → (Text → Text ⊎ P) → Text → Result Text
validate_regex compile v = elim (compile v) [
  | inl exc ↦ err (value_error (codes "Invalid regex '" ++ v ++ codes "': " ++ exc))
  | inr pattern_of_v ↦ ok v
]

unfoldable pub compiled_regex : {P : Type 0} → (Text → Text ⊎ P) → TargetConfig → Text ⊎ P
compiled_regex compile c = compile c.regex

compiles :
    {P : Type 0} (v : Text) (r : Text ⊎ P)
    → validate_regex (λ u. r) v ≡ ok v
    → (p : P) × (r ≡ inr p)
unfolding validate_regex
compiles v (inl exc) h = absurd (ground (arith, h))
compiles v (inr p) h = (p, refl)

-- The pattern of a target that the validator lets through compiles, in every later call.
validate_regex-compiles :
    {P : Type 0} (compile : Text → Text ⊎ P) (c : TargetConfig)
    → validate_regex compile c.regex ≡ ok c.regex
    → (p : P) × (compiled_regex compile c ≡ inr p)
unfolding validate_regex compiled_regex
validate_regex-compiles compile c h = compiles c.regex (compile c.regex) h

-- The port of an entry: `int(port_str)`, which raises ValueError.
abbrev pub port_of : Text → Text → Option ℤ → Result (Text × ℤ)
port_of host port_str none = err (value_error port_str)
port_of host port_str (some port) = ok (host, port)

-- One round of the loop of `resolved_ip_list`.
unfoldable pub resolve : ℤ → Text → Result (Text × ℤ)
resolve default entry =
    if has b':' entry
    then (let (host, port_str) = rpartition b':' entry in
        port_of host port_str (parse_int port_str))
    else ok (entry, default)

abbrev pub cons_ok {ℓ} : {A : Type ℓ} → Result A → Result (List A) → Result (List A)
cons_ok (err e) _ = err e
cons_ok (ok a) (err e) = err e
cons_ok (ok a) (ok as') = ok (a ∷ as')

unfoldable pub resolve_all : ℤ → List Text → Result (List (Text × ℤ))
unfolding resolve
resolve_all default [] = ok []
resolve_all default (entry ∷ entries) =
    cons_ok (resolve default entry) (resolve_all default entries)

unfoldable pub resolved_ip_list : TargetConfig → Result (List (Text × ℤ))
unfolding resolve_all
resolved_ip_list c = resolve_all c.default_proxy_port c.ip_list

-- f"{host}:{port}"
unfoldable pub address : Text × ℤ → Text
address (host, port) = host ++ b':' ∷ show_int port
