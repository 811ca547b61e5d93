-- ===== src/Server/Head/Roundtrip.antt =====
-- The server reads a request as the client wrote it.
use proxy_hopper_v.Common.{
  ℕ, ◌+◌, ◌≤◌, ◌<◌, ◌≡◌, ◌≢◌, refl, sym, ap, subst, ◌∙◌, true, false, Option-cases, inl, inr, none,
  some, List, [], ◌∷◌, ◌++◌, append_assoc, append-nil, arith, ltb, Text, text_eq, text_eq_iff,
  length, length-append, All, All-append, Dict, lookup, HasUniqueKeys, ok,
}
use proxy_hopper_v.Strings.{has, split_twice, ends_with}
use proxy_hopper_v.Strings.Laws.{has-append_sep}
use proxy_hopper_v.Server.Head.{
  Head, lines, flatten, overrun, is_blank, read_headers, read_request_head,
}
use proxy_hopper_v.Server.Head.Size.{size}
use proxy_hopper_v.Server.Head.Print.{
  NoCrlf, crlf, header_line, header_lines, head_lines, IsPlain, add_header-line, rstrip-crlf,
  lines-line, partition-append,
}

ends_with-length :
    (c : ℕ) (l : Text) {front : Text} → ends_with c l ≡ some front → length front < length l
unfolding ends_with
ends_with-length c [] h = cc
ends_with-length c (x ∷ []) h = ground arith
ends_with-length c (x ∷ y ∷ s) {front} h = elim (Option-cases (ends_with c (y ∷ s))) [
  | inl e ↦ ground arith
  | inr (f, e) ↦ ground (arith, ends_with-length c (y ∷ s) {front = f} e)
]

overrun-fits : (l : Text) → length l ≤ 65536 → overrun l ≡ false
unfolding overrun
overrun-fits l h = elim (Option-cases (ends_with b'\n' l)) [
  | inl e ↦ ground arith
  | inr (f, e) ↦ ground (arith, ends_with-length b'\n' l {front = f} e)
]

is_blank-long : (l : Text) → 2 < length l → is_blank l ≡ false
unfolding is_blank text_eq
is_blank-long [] h = absurd (omega arith)
is_blank-long (a ∷ []) h = absurd (omega arith)
is_blank-long (a ∷ b ∷ []) h = absurd (omega arith)
is_blank-long (a ∷ b ∷ c ∷ l) h = ground arith

is_blank-crlf : is_blank crlf ≡ true
unfolding is_blank text_eq
is_blank-crlf = refl

lookup-there : (k v : Text) (d e : Dict Text) → lookup k (d ++ (k, v) ∷ e) ≢ none
unfolding lookup
lookup-there k v [] e h = ground (arith, text_eq_iff k k)
lookup-there k v ((j, w) ∷ d) e h = ground (arith, lookup-there k v d e)

lookup-before : (k v : Text) (d e : Dict Text) → HasUniqueKeys (d ++ (k, v) ∷ e) → lookup k d ≡ none
unfolding lookup
lookup-before k v [] e h = refl
lookup-before k v ((j, w) ∷ d) e h =
    ground (arith, text_eq_iff k j, lookup-there k v d e, lookup-before k v d e)

header_line-length : (kv : Text × Text) → 2 < length (header_line kv)
header_line-length (k, v) =
    omega (arith, length-append (k ++ b':' ∷ b' ' ∷ v) crlf, length-append k (b':' ∷ b' ' ∷ v))

not_above : (m n : ℕ) → n ≤ m → ltb m n ≡ false
not_above m n h = ground arith

read_headers-lines :
    (total : ℕ) (acc headers : Dict Text) (rest : List Text)
    → All IsPlain headers
    → HasUniqueKeys (acc ++ headers)
    → total + size (header_lines headers) + 2 ≤ 65536
    → read_headers total acc (header_lines headers ++ crlf ∷ rest) ≡ (ok (acc ++ headers), rest)
unfolding read_headers
read_headers-lines total acc [] rest plain once h = rw (append-nil acc) (ground arith)
read_headers-lines total acc ((k, v) ∷ headers) rest plain once h =
    rw
      (
        overrun-fits (header_line (k, v)) (omega arith),
        is_blank-long (header_line (k, v)) (header_line-length (k, v)),
        add_header-line k v acc plain.0 (lookup-before k v acc headers once),
        not_above 65536 (total + length (header_line (k, v))) (omega arith),
      )
      (read_headers-lines (total + length (header_line (k, v))) (acc ++ (k, v) ∷ []) headers rest
          plain.1 (subst HasUniqueKeys (sym (append_assoc acc ((k, v) ∷ []) headers)) once)
          (omega arith)
        ∙ ap (λ d. (ok d, rest)) (append_assoc acc ((k, v) ∷ []) headers))

-- The head of a request that reads as itself.
pub record IsPlainHead (h : Head) : Type 0 where
  pub no_end : NoCrlf h.method × NoCrlf h.target × NoCrlf h.version
  pub no_gap : (has b' ' h.method ≡ false) × (has b' ' h.target ≡ false)
  pub headers : All IsPlain h.headers
  pub unique : HasUniqueKeys h.headers

split_twice-join :
    (m t v : Text)
    → has b' ' m ≡ false
    → has b' ' t ≡ false
    → split_twice b' ' (m ++ b' ' ∷ (t ++ b' ' ∷ v)) ≡ some (m, t, v)
unfolding split_twice
split_twice-join m t v h k =
    rw
      (
        partition-append b' ' m (t ++ b' ' ∷ v) h,
        partition-append b' ' t v k,
        has-append_sep b' ' m (t ++ b' ' ∷ v),
        has-append_sep b' ' t v,
      )
      refl

lines-headers :
    (headers : Dict Text) (s : Text)
    → All IsPlain headers
    → lines (flatten (header_lines headers ++ crlf ∷ []) ++ s)
      ≡ header_lines headers ++ crlf ∷ lines s
lines-headers [] s h = lines-line [] s tt
lines-headers ((k, v) ∷ headers) s h =
    ap lines (append_assoc (header_line (k, v)) (flatten (header_lines headers ++ crlf ∷ [])) s)
    ∙ lines-line (k ++ b':' ∷ b' ' ∷ v) (flatten (header_lines headers ++ crlf ∷ []) ++ s)
        (All-append _ k _ h.0.no_end.0 (refl, (refl, h.0.no_end.1)))
    ∙ ap (λ ls. header_line (k, v) ∷ ls) (lines-headers headers s h.1)

size-append : (ls ms : List Text) → size (ls ++ ms) ≡ size ls + size ms
size-append [] ms = omega arith
size-append (l ∷ ls) ms = omega (arith, size-append ls ms)

-- A client's request with at most 65,536 bytes of head, each header once, its name in lower case and
-- without spaces around it or around its value, is read as it was written, and what follows the
-- head is left for the body.
pub read_request_head-lines :
    (h : Head) (body : Text)
    → IsPlainHead h
    → size (head_lines h) ≤ 65536
    → read_request_head (lines (flatten (head_lines h) ++ body)) ≡ (ok h, lines body)
unfolding read_request_head
read_request_head-lines h body plain fits =
    let line = h.method ++ b' ' ∷ (h.target ++ b' ' ∷ h.version) in
    let plain_line : NoCrlf line =
      All-append _ h.method _ plain.no_end.0
        (refl, All-append _ h.target _ plain.no_end.1 (refl, plain.no_end.2)) in
    rw
      (
        append_assoc (line ++ crlf) (flatten (header_lines h.headers ++ crlf ∷ [])) body,
        lines-line line (flatten (header_lines h.headers ++ crlf ∷ []) ++ body) plain_line,
        overrun-fits (line ++ crlf) (omega arith),
        rstrip-crlf line plain_line,
        split_twice-join h.method h.target h.version plain.no_gap.0 plain.no_gap.1,
        lines-headers h.headers body plain.headers,
        read_headers-lines (length (line ++ crlf)) [] h.headers (lines body) plain.headers
            plain.unique (omega (arith, size-append (header_lines h.headers) (crlf ∷ []))),
      )
      refl
