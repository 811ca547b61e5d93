-- ===== src/TargetManager/Forward.antt =====
-- target_manager.py: the request as it is sent on, without its hop-by-hop headers.
use proxy_hopper_v.Common.{
  ℕ, Bool, true, false, Option, List, [], ◌∷◌, ◌++◌, if◌then◌else◌, max, Text, codes, text_eq, Dict,
}
use proxy_hopper_v.Strings.{lower}
use proxy_hopper_v.Models.{PendingRequest, time_remaining}

abbrev pub hop_by_hop : List Text
hop_by_hop =
    codes "connection"
    ∷ codes "keep-alive"
    ∷ codes "proxy-authenticate"
    ∷ codes "proxy-authorization"
    ∷ codes "proxy-connection"
    ∷ codes "te"
    ∷ codes "trailers"
    ∷ codes "transfer-encoding"
    ∷ codes "upgrade"
    ∷ []

unfoldable pub is_in : Text → List Text → Bool
is_in x [] = false
is_in x (y ∷ ys) = if text_eq x y then true else is_in x ys

-- k.lower() in _HOP_BY_HOP
unfoldable pub is_hop_by_hop : Text → Bool
unfolding is_in lower
is_hop_by_hop k = is_in (lower k) hop_by_hop

-- {k: v for k, v in request.headers.items() if k.lower() not in _HOP_BY_HOP}
unfoldable pub forward_headers : Dict Text → Dict Text
forward_headers [] = []
forward_headers ((k, v) ∷ d) =
    let rest = forward_headers d in if is_hop_by_hop k then rest else (k, v) ∷ rest

-- The arguments of `session.request`.
pub record Outbound : Type 0 where
  pub method : Text
  pub url : Text
  pub headers : Dict Text
  pub body : Option Text
  pub proxy : Text
  pub allow_redirects : Bool
  pub timeout : ℕ

unfoldable pub outbound : ℕ → Text → PendingRequest → Outbound
unfolding forward_headers time_remaining
outbound now address r = record {
  method = r.method;
  url = r.url;
  headers = forward_headers r.headers;
  body = r.body;
  proxy = codes "http://" ++ address;
  allow_redirects = false;
  timeout = max 30000 (time_remaining now r);
}
