-- ===== src/Server/Replies/Errors.antt =====
-- How a client reads the answer to a request that is refused.
use proxy_hopper_v.Common.{
  ℕ, ◌≡◌, refl, sym, ap, ◌∙◌, true, false, Bool-cases, inl, inr, some, List, [], ◌∷◌, ◌++◌, map,
  append_assoc, arith, ltb, Text, codes, length, All, All-append,
}
use proxy_hopper_v.Strings.Ints.{pos, is_digit, parse_int, show_int, show_nat}
use proxy_hopper_v.Strings.Laws.{show_nat-AllDigits, parse_int-show_int}
use proxy_hopper_v.Server.Head.{lines, flatten, is_crlf}
use proxy_hopper_v.Server.Head.Print.{NoCrlf, crlf, lines-line}
use proxy_hopper_v.Server.Client.Routes.{flatten-lines}
use proxy_hopper_v.Server.Replies.{utf8_char, utf8, join_lines, error_lines, write_error}

utf8-append : (s t : Text) → utf8 (s ++ t) ≡ utf8 s ++ utf8 t
unfolding utf8
utf8-append [] t = refl
utf8-append (c ∷ s) t = rw (utf8-append s t) (sym (append_assoc (utf8_char c) (utf8 s) (utf8 t)))

utf8_char-NoCrlf : (c : ℕ) → is_crlf c ≡ false → NoCrlf (utf8_char c)
unfolding utf8_char
utf8_char-NoCrlf c h = elim (Bool-cases (ltb c 128)) [
  | inl one ↦ rw one (h, tt)
  | inr more ↦ elim (Bool-cases (ltb c 2048)) [
    | inl two ↦ rw (more, two) (ground arith)
    | inr longer ↦ elim (Bool-cases (ltb c 65536)) [
      | inl three ↦ rw (more, longer, three) (ground arith)
      | inr four ↦ rw (more, longer, four) (ground arith)
    ]
  ]
]

utf8-NoCrlf : (s : Text) → NoCrlf s → NoCrlf (utf8 s)
unfolding utf8
utf8-NoCrlf [] h = tt
utf8-NoCrlf (c ∷ s) h =
    All-append _ (utf8_char c) (utf8 s) (utf8_char-NoCrlf c h.0) (utf8-NoCrlf s h.1)

-- A line as it is sent.
abbrev pub sent : Text → Text
sent l = utf8 l ++ crlf

utf8-line : (l rest : Text) → utf8 ((l ++ crlf) ++ rest) ≡ sent l ++ utf8 rest
unfolding utf8 utf8_char
utf8-line l rest = utf8-append (l ++ crlf) rest ∙ ap (λ s. s ++ utf8 rest) (utf8-append l crlf)

lines-join_lines :
    (ls : List Text) (body : Text)
    → All NoCrlf ls
    → lines (utf8 (join_lines ls) ++ body) ≡ map sent ls ++ lines body
unfolding utf8
lines-join_lines [] body h = refl
lines-join_lines (l ∷ ls) body h =
    rw (utf8-line l (join_lines ls), append_assoc (sent l) (utf8 (join_lines ls)) body)
      (lines-line (utf8 l) (utf8 (join_lines ls) ++ body) (utf8-NoCrlf l h.0)
        ∙ ap (λ ms. sent l ∷ ms) (lines-join_lines ls body h.1))

digit-no_end : (c : ℕ) → is_digit c ≡ true → is_crlf c ≡ false
digit-no_end c h = ground arith

digits-NoCrlf : (s : Text) → All (λ c. is_digit c ≡ true) s → NoCrlf s
digits-NoCrlf [] h = tt
digits-NoCrlf (c ∷ s) h = (digit-no_end c h.0, digits-NoCrlf s h.1)

show_nat-NoCrlf : (n : ℕ) → NoCrlf (show_nat n)
show_nat-NoCrlf n = digits-NoCrlf (show_nat n) (show_nat-AllDigits n)

error_lines-NoCrlf :
    (status : ℕ) (message : Text) → NoCrlf message → All NoCrlf (error_lines status message)
error_lines-NoCrlf status message h = (
  All-append _ (codes "HTTP/1.1 ") _ (ground arith)
      (All-append _ (show_nat status) _ (show_nat-NoCrlf status) (refl, h)),
  (
    ground arith,
    (
      All-append _ (codes "Content-Length: ") _ (ground arith)
          (show_nat-NoCrlf (length (utf8 message))),
      (ground arith, (tt, tt)),
    ),
  ),
)

-- The answer to a refused request, with a message on one line: a client that reads lines up to the
-- empty one reads the status and the message, the type, a length and that the connection closes;
-- what follows the empty line is the message, in UTF-8, and the length is a number that `int` reads
-- as that of its bytes.
pub write_error-lines :
    (status : ℕ) (message : Text)
    → NoCrlf message
    → (n : Text) × (lines (write_error status message)
        ≡ map sent (
            (codes "HTTP/1.1 " ++ show_nat status ++ b' ' ∷ message)
            ∷ codes "Content-Type: text/plain"
            ∷ (codes "Content-Length: " ++ n)
            ∷ codes "Connection: close"
            ∷ []
            ∷ [])
          ++ lines (utf8 message))
      × (flatten (lines (utf8 message)) ≡ utf8 message)
      × (parse_int n ≡ some (pos (length (utf8 message))))
unfolding write_error show_int
write_error-lines status message h = (
  show_nat (length (utf8 message)),
  lines-join_lines (error_lines status message) (utf8 message)
      (error_lines-NoCrlf status message h),
  flatten-lines (utf8 message),
  parse_int-show_int (pos (length (utf8 message))),
)
