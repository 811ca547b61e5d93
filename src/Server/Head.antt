-- ===== src/Server/Head.antt =====
-- `_read_request_head` of server.py. What a client sends until it closes its side is a list of
-- lines, each with its end.
pub mod Size
pub mod Print
pub mod Roundtrip
use proxy_hopper_v.Common.{
  ℕ, ◌+◌, Bool, true, false, ◌||◌, Option, none, some, List, [], ◌∷◌, ◌++◌, ltb, ◌==◌,
  if◌then◌else◌, Text, codes, text_eq, length, Dict, insert, Error, value_error, connection_closed,
  Result, ok, err,
}
use proxy_hopper_v.Strings.{onto, rstrip, strip, lower, has, partition, split_twice, ends_with}

pub record Head : Type 0 where
  pub method : Text
  pub target : Text
  pub version : Text
  pub headers : Dict Text

-- The lines of what is sent; the last may have no end.
unfoldable pub lines : Text → List Text
lines [] = []
lines (c ∷ s) = let rest = lines s in if c == b'\n' then (c ∷ []) ∷ rest else onto c rest

-- What lines come to.
abbrev pub flatten : List Text → Text
flatten [] = []
flatten (l ∷ ls) = l ++ flatten ls

-- _MAX_HEADER_SIZE, and the limit of `StreamReader` for a line without its end
abbrev pub max_header_size : ℕ
max_header_size = 65536

-- Whether `readline` raises ValueError.
unfoldable pub overrun : Text → Bool
unfolding ends_with
overrun l = elim (ends_with b'\n' l) [
  | none ↦ ltb max_header_size (length l)
  | some front ↦ ltb max_header_size (length front)
]

abbrev pub is_crlf : ℕ → Bool
is_crlf c = c == b'\r' || c == b'\n'

unfoldable pub is_blank : Text → Bool
unfolding text_eq
is_blank l = text_eq l (b'\r' ∷ b'\n' ∷ []) || text_eq l (b'\n' ∷ []) || text_eq l []

-- What the loop does with a line of a header.
unfoldable pub add_header : Text → Dict Text → Dict Text
unfolding rstrip has partition strip lower insert
add_header l headers =
    let decoded = rstrip is_crlf l in
    if has b':' decoded
    then (let (name, value) = partition b':' decoded in
        insert (lower (strip name)) (strip value) headers)
    else headers

abbrev pub too_large : Error
too_large = value_error (codes "Request headers too large")

-- The loop, with what it has read so far. The end of the stream is read as an empty line.
unfoldable pub read_headers : ℕ → Dict Text → List Text → Result (Dict Text) × List Text
unfolding overrun is_blank add_header
read_headers total headers [] =
    if ltb max_header_size total then (err too_large, []) else (ok headers, [])
read_headers total headers (l ∷ ls) =
    let more = read_headers (total + length l) (add_header l headers) ls in
    if overrun l
    then (err (value_error []), ls)
    else if ltb max_header_size (total + length l)
    then (err too_large, ls)
    else if is_blank l
    then (ok headers, ls)
    else more

abbrev pub with_headers :
    Text → Text → Text → Result (Dict Text) × List Text → Result Head × List Text
with_headers method target version (err e, ls) = (err e, ls)
with_headers method target version (ok headers, ls) =
    (ok (record { method = method; target = target; version = version; headers = headers }), ls)

unfoldable pub read_request_head : List Text → Result Head × List Text
unfolding overrun split_twice rstrip read_headers
read_request_head [] = (err connection_closed, [])
read_request_head (l ∷ ls) =
    if overrun l then (err (value_error []), ls) else elim (split_twice b' ' (rstrip is_crlf l)) [
      | none ↦ (err (value_error (codes "Malformed request line")), ls)
      | some (method, target, version) ↦
          with_headers method target version (read_headers (length l) [] ls)
    ]
