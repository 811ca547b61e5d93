-- ===== src/Server/Http/Submission.antt =====
-- Which requests reach a target manager.
use proxy_hopper_v.Common.{
  ℕ, ◌≤◌, ◌<◌, ◌≡◌, Bool, true, false, Option, none, some, List, [], ◌∷◌, ◌++◌, Text, codes, length,
  All, Dict, lookup,
}
use proxy_hopper_v.Strings.Ints.{pos, negsuc, parse_int}
use proxy_hopper_v.Config.{TargetConfig}
use proxy_hopper_v.Server.Head.{Head}
use proxy_hopper_v.Server.Replies.{write_error}
use proxy_hopper_v.Server.Http.{
  Body, entity_too_large, bad_request, body, Handling, replies, submits_to, pending_request,
}

-- What `read_body` found, and why.
pub data Received (headers : Dict Text) (s : Text) : Body → Type 0 where
  unannounced : lookup (codes "content-length") headers ≡ none → Received headers s (body none)
  empty_length : lookup (codes "content-length") headers ≡ some [] → Received headers s (body none)
  no_number :
      (text : Text)
      → lookup (codes "content-length") headers ≡ some text
      → parse_int text ≡ none
      → Received headers s bad_request
  negative :
      (text : Text) (n : ℕ)
      → lookup (codes "content-length") headers ≡ some text
      → parse_int text ≡ some (negsuc n)
      → Received headers s bad_request
  too_short :
      (text : Text) (n : ℕ)
      → lookup (codes "content-length") headers ≡ some text
      → parse_int text ≡ some (pos n)
      → n ≤ 10485760
      → length s < n
      → Received headers s bad_request
  too_long :
      (text : Text) (n : ℕ)
      → lookup (codes "content-length") headers ≡ some text
      → parse_int text ≡ some (pos n)
      → 10485760 < n
      → Received headers s entity_too_large
  whole :
      (text : Text) (n : ℕ) (b rest : Text)
      → lookup (codes "content-length") headers ≡ some text
      → parse_int text ≡ some (pos n)
      → n ≤ 10485760
      → length b ≡ n
      → s ≡ b ++ rest
      → Received headers s (body (some b))

module _ (search : Text → Text → Bool) (managers : List TargetConfig) (h : Head) (s : Text)
    (future now : ℕ) where
  abbrev Misses : TargetConfig → Type 0
  Misses m = search m.regex h.target ≡ false

  -- What becomes of a request, and why.
  pub data Handled : Handling search → Type 0 where
    refused_large :
        Received h.headers s entity_too_large
        → Handled (replies (write_error 413 (codes "Request Entity Too Large")))
    refused_bad :
        Received h.headers s bad_request → Handled (replies (write_error 400 (codes "Bad Request")))
    unmatched :
        (content : Option Text)
        → Received h.headers s (body content)
        → All Misses managers
        → Handled (replies (write_error 502 (codes "No target configured for URL: " ++ h.target)))
    submitted :
        (content : Option Text) (before : List TargetConfig) (m : TargetConfig)
        (after : List TargetConfig)
        → Received h.headers s (body content)
        → managers ≡ before ++ m ∷ after
        → All Misses before
        → search m.regex h.target ≡ true
        → Handled (submits_to m (pending_request search h content future now m))

  abbrev Found : List TargetConfig → Option TargetConfig → Type 0
  Found ms none = All Misses ms
  Found ms (some m) =
      (before : List TargetConfig) × (after : List TargetConfig) × (ms ≡ before ++ m ∷ after)
      × All Misses before
      × (search m.regex h.target ≡ true)
