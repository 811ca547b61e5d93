-- ===== src/Server/Http.antt =====
-- `_handle_http` of server.py: a request that goes through the queue of a target manager.
pub mod Submission
pub mod Answered
use proxy_hopper_v.Common.{
  ℕ, zero, suc, ◌+◌, Bool, Option, none, some, List, [], ◌∷◌, ◌++◌, ltb, if◌then◌else◌, Text, codes,
  length, Dict, lookup, Error, timeout_error, client_error, true, Result, ok, err,
}
use proxy_hopper_v.Strings.Ints.{ℤ, pos, negsuc, parse_int}
use proxy_hopper_v.Config.{TargetConfig}
use proxy_hopper_v.Models.{
  PendingRequest, FutureState, pending, resolved, raised, cancelled, Futures, settle,
}
use proxy_hopper_v.Server.Head.{Head}
use proxy_hopper_v.Server.Replies.{write_error, write_http_response}

-- _MAX_BODY_SIZE
abbrev pub max_body_size : ℕ
max_body_size = 10485760

-- The first bytes of a text, and the others.
unfoldable pub split_at : ℕ → Text → Text × Text
split_at zero s = ([], s)
split_at (suc n) [] = ([], [])
split_at (suc n) (c ∷ s) = let rest = split_at n s in (c ∷ rest.0, rest.1)

-- What comes of the body of a request.
pub data Body : Type 0 where
  entity_too_large : Body
  bad_request : Body
  body : Option Text → Body

-- readexactly(n), which raises ValueError and IncompleteReadError, after the test of the size
unfoldable pub read_exactly : Option ℤ → Text → Body
unfolding split_at
read_exactly none s = bad_request
read_exactly (some (negsuc n)) s = bad_request
read_exactly (some (pos n)) s =
    if ltb max_body_size n
    then entity_too_large
    else if ltb (length s) n
    then bad_request
    else body (some (split_at n s).0)

-- The body, from the bytes that follow the head.
unfoldable pub read_body : Dict Text → Text → Body
unfolding read_exactly parse_int
read_body headers s = elim (lookup (codes "content-length") headers) [
  | none ↦ body none
  | some [] ↦ body none
  | some (c ∷ text) ↦ read_exactly (parse_int (c ∷ text)) s
]

-- The managers are told by their configurations; `search` is `re.search` of a target's pattern.
module _ (search : Text → Text → Bool) where
  unfoldable pub find_manager : Text → List TargetConfig → Option TargetConfig
  find_manager url [] = none
  find_manager url (m ∷ ms) =
      let rest = find_manager url ms in if search m.regex url then some m else rest

  -- What the handler does before it waits for the future.
  pub data Handling : Type 0 where
    replies : Text → Handling
    submits_to : TargetConfig → PendingRequest → Handling

  abbrev pub pending_request : Head → Option Text → ℕ → ℕ → TargetConfig → PendingRequest
  pending_request h content future now m = record {
    method = h.method;
    url = h.target;
    headers = h.headers;
    body = content;
    future = future;
    arrival_time = now;
    max_queue_wait = m.max_queue_wait;
    num_retries = m.num_retries;
    failure_count = 0;
  }

  abbrev pub submission : Head → Option Text → ℕ → ℕ → Option TargetConfig → Handling
  submission h content future now none =
      replies (write_error 502 (codes "No target configured for URL: " ++ h.target))
  submission h content future now (some m) = submits_to m (pending_request h content future now m)

  abbrev pub with_entity : List TargetConfig → Head → ℕ → ℕ → Body → Handling
  with_entity managers h future now entity_too_large =
      replies (write_error 413 (codes "Request Entity Too Large"))
  with_entity managers h future now bad_request = replies (write_error 400 (codes "Bad Request"))
  with_entity managers h future now (body content) =
      submission h content future now (find_manager h.target managers)

  -- For a head and the bytes that follow it.
  unfoldable pub handle_http : List TargetConfig → Head → Text → ℕ → ℕ → Handling
  unfolding read_body find_manager
  handle_http managers h s future now = with_entity managers h future now (read_body h.headers s)

-- The end of `wait_for`: a future that is not done by then is cancelled.
unfoldable pub end_of_wait : ℕ → Futures → Futures
unfolding settle
end_of_wait f all = settle f cancelled all

-- What is written once the wait is over, and nothing before; `message` is `str` of an
-- exception.
unfoldable pub http_reply : (Error → Text) → Text → FutureState → Result Text
unfolding write_http_response
http_reply message http_version pending = ok []
http_reply message http_version (resolved r) = write_http_response http_version r
http_reply message http_version (raised (timeout_error why)) =
    ok (write_error 504 (codes "Gateway Timeout"))
http_reply message http_version (raised (client_error true why)) =
    ok (write_error 504 (codes "Gateway Timeout"))
http_reply message http_version (raised e) =
    ok (write_error 502 (codes "Bad Gateway: " ++ message e))
http_reply message http_version cancelled = ok (write_error 504 (codes "Gateway Timeout"))
