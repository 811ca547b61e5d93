-- ===== src/Server/Head/Print.antt =====
-- A request as a client writes it, and what the server reads of it.
use proxy_hopper_v.Common.{
  ℕ, ◌≡◌, refl, false, none, List, [], ◌∷◌, ◌++◌, arith, Text, All, All-append, Dict, lookup,
  insert,
}
use mathlib.Core.List.{reverse, reverse-cons, reverse-reverse, reverse-append}
use proxy_hopper_v.Strings.{rstrip, lstrip, strip, lower, has, partition, is_space}
use proxy_hopper_v.Strings.Laws.{has-append_sep}
use proxy_hopper_v.Server.Head.{Head, lines, is_crlf, add_header}

abbrev pub NoCrlf : Text → Type 0
NoCrlf = All (λ c. is_crlf c ≡ false)

abbrev pub crlf : Text
crlf = b'\r' ∷ b'\n' ∷ []

abbrev pub header_line : Text × Text → Text
header_line (k, v) = (k ++ b':' ∷ b' ' ∷ v) ++ crlf

abbrev pub request_line : Head → Text
request_line h = (h.method ++ b' ' ∷ (h.target ++ b' ' ∷ h.version)) ++ crlf

abbrev pub header_lines : Dict Text → List Text
header_lines [] = []
header_lines (kv ∷ d) = header_line kv ∷ header_lines d

-- The lines of the head.
abbrev pub head_lines : Head → List Text
head_lines h = request_line h ∷ header_lines h.headers ++ crlf ∷ []

-- A header that reads as itself: its name is in lower case and stripped, without a colon, and its
-- value is stripped.
pub record IsPlain (kv : Text × Text) : Type 0 where
  pub no_end : NoCrlf kv.0 × NoCrlf kv.1
  pub no_colon : has b':' kv.0 ≡ false
  pub name : (strip kv.0 ≡ kv.0) × (lower kv.0 ≡ kv.0)
  pub value : strip kv.1 ≡ kv.1

lstrip-stop : (x : Text) → NoCrlf x → lstrip is_crlf x ≡ x
unfolding lstrip
lstrip-stop [] h = refl
lstrip-stop (c ∷ x) h = rw h.0

All-reverse : (P : ℕ → Type 0) (s : Text) → All P s → All P (reverse s)
All-reverse P [] h = tt
All-reverse P (c ∷ s) h =
    rw (reverse-cons c s) (All-append P (reverse s) (c ∷ []) (All-reverse P s h.1) (h.0, tt))

pub rstrip-crlf : (x : Text) → NoCrlf x → rstrip is_crlf (x ++ crlf) ≡ x
unfolding rstrip lstrip
rstrip-crlf x h =
    rw (reverse-append x crlf, lstrip-stop (reverse x) (All-reverse _ x h)) (reverse-reverse x)

pub lines-line : (x s : Text) → NoCrlf x → lines ((x ++ crlf) ++ s) ≡ (x ++ crlf) ∷ lines s
unfolding lines
lines-line [] s h = ground arith
lines-line (c ∷ x) s h = ground (arith, lines-line x s h.1)

pub partition-append :
    (sep : ℕ) (s t : Text) → has sep s ≡ false → partition sep (s ++ sep ∷ t) ≡ (s, t)
unfolding partition has
partition-append sep [] t h = ground arith
partition-append sep (c ∷ s) t h = ground (arith, partition-append sep s t)

insert-new : (k v : Text) (d : Dict Text) → lookup k d ≡ none → insert k v d ≡ d ++ (k, v) ∷ []
unfolding lookup insert
insert-new k v [] h = refl
insert-new k v ((j, w) ∷ d) h = ground (arith, insert-new k v d)

strip-space : (v : Text) → strip (b' ' ∷ v) ≡ strip v
unfolding strip lstrip is_space
strip-space v = refl

pub add_header-line :
    (k v : Text) (headers : Dict Text)
    → IsPlain (k, v)
    → lookup k headers ≡ none
    → add_header (header_line (k, v)) headers ≡ headers ++ (k, v) ∷ []
unfolding add_header
add_header-line k v headers h new =
    rw
      (
        rstrip-crlf (k ++ b':' ∷ b' ' ∷ v) (All-append _ k _ h.no_end.0 (refl, (refl, h.no_end.1))),
        has-append_sep b':' k (b' ' ∷ v),
        partition-append b':' k (b' ' ∷ v) h.no_colon,
        h.name.0,
        h.name.1,
        strip-space v,
        h.value,
      )
      (insert-new k v headers new)
