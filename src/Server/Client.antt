-- ===== src/Server/Client.antt =====
-- `_handle_client` and `_dispatch` of server.py: from the bytes of a client to one of the handlers.
pub mod Routes
use proxy_hopper_v.Common.{
  Bool, true, false, List, [], ◌∷◌, ◌++◌, if◌then◌else◌, Text, codes, text_eq, Result, ok, err,
  Exec,
}
use proxy_hopper_v.Strings.{upper}
use proxy_hopper_v.Server.Head.{Head, flatten, read_request_head}

-- The handler that `_dispatch` calls: `_handle_connect` with a target and a version, or
-- `_handle_http` with the head and the bytes that follow it.
pub data Route : Type 0 where
  tunnels : Text → Text → Route
  fetches : Head → Text → Route

abbrev pub is_connect : Text → Bool
is_connect method = text_eq (upper method) (codes "CONNECT")

abbrev pub routed : Result Head × List Text → Result Route
routed (err e, rest) = err e
routed (ok h, rest) =
    ok (if is_connect h.method then tunnels h.target h.version else fetches h (flatten rest))

unfoldable pub dispatch : List Text → Result Route
unfolding read_request_head
dispatch ls = routed (read_request_head ls)

-- A client's connection: what was written to it, and whether it is closed.
pub record Connection : Type 0 where
  pub written : Text
  pub closed : Bool

-- `_handle_client`, around what `_dispatch` does: no exception goes further, and the connection is
-- closed.
unfoldable pub handle_client : Exec Connection (Unit {0}) → Connection → Connection
handle_client run conn = record (run conn).1 { closed = true }
