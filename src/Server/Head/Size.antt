-- ===== src/Server/Head/Size.antt =====
-- The head of a request is never longer than the limit.
use proxy_hopper_v.Common.{
  ℕ, ◌+◌, ◌≤◌, ◌≡◌, Bool-cases, inl, inr, Option-cases, List, [], ◌∷◌, arith, Text, length, Dict,
  Result, ok, err,
}
use proxy_hopper_v.Strings.{split_twice, rstrip}
use proxy_hopper_v.Server.Head.{
  Head, overrun, is_crlf, add_header, read_headers, with_headers, read_request_head,
}

-- The number of bytes in lines.
abbrev pub size : List Text → ℕ
size [] = 0
size (l ∷ ls) = length l + size ls

read_headers-size :
    (total : ℕ) (headers : Dict Text) (ls : List Text) {found : Dict Text} {rest : List Text}
    → read_headers total headers ls ≡ (ok found, rest)
    → total + size ls ≤ 65536 + size rest
unfolding read_headers
read_headers-size total headers [] h = ground arith
read_headers-size total headers (l ∷ ls) {found} {rest} h = ground (
  arith,
  read_headers-size (total + length l) (add_header l headers) ls {found = found} {rest = rest},
)

with_headers-size :
    (m t v : Text) (out : Result (Dict Text) × List Text) {head : Head} {rest : List Text}
    → with_headers m t v out ≡ (ok head, rest)
    → out ≡ (ok head.headers, rest)
with_headers-size m t v (err e, ls) h = cc
with_headers-size m t v (ok hs, ls) h = cc

-- Of what a client sends, at most 65,536 bytes are read as the head of a request that is accepted.
pub read_request_head-size :
    (ls : List Text) (head : Head) (rest : List Text)
    → read_request_head ls ≡ (ok head, rest)
    → size ls ≤ 65536 + size rest
unfolding read_request_head
read_request_head-size [] head rest h = cc
read_request_head-size (l ∷ ls) head rest h = elim (Bool-cases (overrun l)) [
  | inl e ↦ ground arith
  | inr e ↦ elim (Option-cases (split_twice b' ' (rstrip is_crlf l))) [
    | inl n ↦ ground arith
    | inr ((m, t, v), p) ↦ ground (
      arith,
      with_headers-size m t v (read_headers (length l) [] ls) {head = head} {rest = rest},
      read_headers-size (length l) [] ls {found = head.headers} {rest = rest},
    )
  ]
]
