-- ===== src/Server/Replies.antt =====
-- What server.py writes to its clients.
pub mod Errors
use proxy_hopper_v.Common.{
  ℕ, ◌+◌, ◌/◌, ◌%◌, List, [], ◌∷◌, ◌++◌, ltb, ◌==◌, if◌then◌else◌, Text, codes, length, Dict,
  value_error, Result, ok, err,
}
use proxy_hopper_v.Strings.Ints.{show_nat}
use proxy_hopper_v.Models.{ProxyResponse}
use proxy_hopper_v.TargetManager.{forward_headers}

-- c.encode(), in UTF-8
unfoldable pub utf8_char : ℕ → Text
utf8_char c =
    if ltb c 128
    then c ∷ []
    else if ltb c 2048
    then (192 + c / 64) ∷ (128 + c % 64) ∷ []
    else if ltb c 65536
    then (224 + c / 4096) ∷ (128 + c / 64 % 64) ∷ (128 + c % 64) ∷ []
    else (240 + c / 262144) ∷ (128 + c / 4096 % 64) ∷ (128 + c / 64 % 64) ∷ (128 + c % 64) ∷ []

-- s.encode(), for a text without surrogates
unfoldable pub utf8 : Text → Text
unfolding utf8_char
utf8 [] = []
utf8 (c ∷ s) = utf8_char c ++ utf8 s

abbrev pub onto_ok : ℕ → Result Text → Result Text
onto_ok c (ok s) = ok (c ∷ s)
onto_ok c (err e) = err e

-- s.encode("latin-1"), which raises UnicodeEncodeError, a ValueError
unfoldable pub latin1 : Text → Result Text
latin1 [] = ok []
latin1 (c ∷ s) =
    let rest = latin1 s in if ltb c 256 then onto_ok c rest else err (value_error (c ∷ []))

abbrev pub line_end : Text
line_end = b'\r' ∷ b'\n' ∷ []

-- Lines with their ends.
abbrev pub join_lines : List Text → Text
join_lines [] = []
join_lines (l ∷ ls) = (l ++ line_end) ++ join_lines ls

-- The lines of the head of an error.
abbrev pub error_lines : ℕ → Text → List Text
error_lines status message =
    (codes "HTTP/1.1 " ++ show_nat status ++ b' ' ∷ message)
    ∷ codes "Content-Type: text/plain"
    ∷ (codes "Content-Length: " ++ show_nat (length (utf8 message)))
    ∷ codes "Connection: close"
    ∷ []
    ∷ []

-- _write_error
unfoldable pub write_error : ℕ → Text → Text
unfolding utf8 show_nat
write_error status message = utf8 (join_lines (error_lines status message)) ++ utf8 message

-- _REASONS
abbrev pub reasons : List (ℕ × Text)
reasons =
    (200, codes "OK")
    ∷ (201, codes "Created")
    ∷ (204, codes "No Content")
    ∷ (301, codes "Moved Permanently")
    ∷ (302, codes "Found")
    ∷ (304, codes "Not Modified")
    ∷ (400, codes "Bad Request")
    ∷ (401, codes "Unauthorized")
    ∷ (403, codes "Forbidden")
    ∷ (404, codes "Not Found")
    ∷ (405, codes "Method Not Allowed")
    ∷ (408, codes "Request Timeout")
    ∷ (413, codes "Request Entity Too Large")
    ∷ (429, codes "Too Many Requests")
    ∷ (500, codes "Internal Server Error")
    ∷ (502, codes "Bad Gateway")
    ∷ (503, codes "Service Unavailable")
    ∷ (504, codes "Gateway Timeout")
    ∷ []

unfoldable pub reason_in : List (ℕ × Text) → ℕ → Text
reason_in [] status = codes "Unknown"
reason_in ((s, text) ∷ rest) status = if s == status then text else reason_in rest status

unfoldable pub reason : ℕ → Text
unfolding reason_in
reason status = reason_in reasons status

-- f"{k}: {v}\r\n" of each
unfoldable pub print_headers : Dict Text → Text
print_headers [] = []
print_headers ((k, v) ∷ d) = k ++ b':' ∷ b' ' ∷ v ++ line_end ++ print_headers d

abbrev pub with_body : Text → Result Text → Result Text
with_body body (ok head) = ok (head ++ body)
with_body body (err e) = err e

-- _write_http_response; the hop-by-hop headers are those of the target manager.
unfoldable pub write_http_response : Text → ProxyResponse → Result Text
unfolding print_headers latin1 reason show_nat forward_headers
write_http_response http_version r = with_body r.body (
    latin1 (
      (http_version ++ b' ' ∷ show_nat r.status ++ b' ' ∷ reason r.status ++ line_end)
      ++ print_headers (forward_headers r.headers)
      ++ line_end))
