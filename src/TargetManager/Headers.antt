-- ===== src/TargetManager/Headers.antt =====
-- The headers that target_manager.py and server.py pass on.
use proxy_hopper_v.Common.{
  ◌⊎◌, inl, inr, max, leb, Bool-cases, List, ◌+◌, ◌-◌, ℕ, ◌≡◌, false, none, [], ◌∷◌, ◌++◌, ◌≤◌,
  refl, codes, arith, if◌then◌else◌, Text, text_eq_iff, Dict, lookup,
}
use proxy_hopper_v.Strings.{lower}
use proxy_hopper_v.Models.{PendingRequest, time_remaining, deadline}
use proxy_hopper_v.TargetManager.{is_in, is_hop_by_hop, forward_headers, outbound}

max-cases : (m n : ℕ) → (max m n ≡ m) ⊎ (max m n ≡ n)
max-cases m n = elim (Bool-cases (leb n m)) [
  | inl e ↦ inl (ground (arith, e))
  | inr e ↦ inr (ground (arith, e))
]

lookup-forward_headers :
    (k : Text) (d : Dict Text)
    → lookup k (forward_headers d) ≡ (if is_hop_by_hop k then none else lookup k d)
unfolding forward_headers lookup
lookup-forward_headers k [] = ground arith
lookup-forward_headers k ((j, v) ∷ d) = ground (arith, text_eq_iff k j, lookup-forward_headers k d)

-- The names of the hop-by-hop headers, in lower case.
abbrev pub dropped : List Text
dropped =
    codes "connection"
    ∷ codes "keep-alive"
    ∷ codes "proxy-authenticate"
    ∷ codes "proxy-authorization"
    ∷ codes "proxy-connection"
    ∷ codes "te"
    ∷ codes "trailers"
    ∷ codes "transfer-encoding"
    ∷ codes "upgrade"
    ∷ []

-- Of the headers of a request exactly these nine are gone when it is sent on, in whatever case their
-- names are written: connection, keep-alive, proxy-authenticate, proxy-authorization,
-- proxy-connection, te, trailers, transfer-encoding and upgrade; the others have the values they
-- had. The method, the URL and the body are the client's, the proxy is the address, redirects are
-- not followed, and the time limit is the time to the deadline, or 30 seconds if that is less.
pub outbound-headers :
    (now : ℕ) (address k : Text) (r : PendingRequest)
    → let o = outbound now address r in
      let left = r.arrival_time + r.max_queue_wait - now in
      (lookup k o.headers ≡ (if is_in (lower k) dropped then none else lookup k r.headers))
      × (o.method ≡ r.method)
      × (o.url ≡ r.url)
      × (o.body ≡ r.body)
      × (o.proxy ≡ codes "http://" ++ address)
      × (o.allow_redirects ≡ false)
      × (30000 ≤ o.timeout)
      × (left ≤ o.timeout)
      × ((o.timeout ≡ 30000) ⊎ (o.timeout ≡ left))
unfolding outbound is_hop_by_hop time_remaining deadline
outbound-headers now address k r = (
  lookup-forward_headers k r.headers,
  refl,
  refl,
  refl,
  refl,
  refl,
  ground arith,
  ground arith,
  max-cases 30000 (r.arrival_time + r.max_queue_wait - now),
)
