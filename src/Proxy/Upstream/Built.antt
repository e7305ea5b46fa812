-- ===== src/Proxy/Upstream/Built.antt =====
-- The requests that `buildOutbound` of internal/s3proxy/server.go makes.
use stowage.Base.{Option, ◌≡◌, true, false, some, List, [], ◌∷◌, arith, if◌then◌else◌, Str, codes}
use stowage.Base.Dict.{Dict, lookup}
use stowage.Base.Int64.{lt64}
use stowage.Proxy.Route.{RouteInfo, null}
use stowage.Proxy.Upstream.{
  Outbound, Wire, do_upstream, Inbound, Endpoint, is_buffered, build_outbound, Signature,
}
use stowage.Base.Http.{header_set}
use stowage.Proxy.Rewrite.{Url}
use stowage.Sigv4.Verifier.{unsigned_payload}
use stowage.Proxy.Upstream.Attempts.{Tries, do_upstream-Tries}

-- A request whose body is not nil and whose declared length is not positive, as net/http hands
-- over each inbound request without a body, is sent once, whatever its method: its outbound form
-- has a body that cannot be replayed.
pub bodyless-once :
    (w : Wire) (url : Url) (sent : List Outbound) (r : Inbound) (route : RouteInfo) (bucket : Str)
    (backend : Endpoint) (out : Outbound)
    → r.has_body ≡ true
    → lt64 0 r.content_length ≡ false
    → build_outbound url r route bucket backend ≡ some out
    → Tries 1 w out sent (do_upstream w out sent)
unfolding build_outbound is_buffered
bodyless-once w url sent r route bucket backend out body short h =
    (do_upstream-Tries w out sent).2 (ground arith) (ground arith)

-- the headers that buildOutbound, signOutbound and the signer set
abbrev pub set_by_proxy : List Str
set_by_proxy =
    codes "Host"
    ∷ codes "X-Amz-Content-Sha256"
    ∷ codes "X-Amz-Date"
    ∷ codes "X-Amz-Security-Token"
    ∷ codes "Authorization"
    ∷ []

-- the signer's answer for the backend's key in the backend's region is on the request
unfoldable pub IsSignedBy : (Str → Outbound → Option Signature) → Endpoint → Outbound → Type 0
IsSignedBy sign backend out =
    (region : Str) × (unsigned : Outbound) × (sig : Signature) × (sign region unsigned ≡ some sig)
    × (unsigned.host ≡ out.host)
    × (unsigned.path ≡ out.path)
    × (unsigned.raw_query ≡ out.raw_query)
    × (out.signer ≡ some (backend.access_key, region))
    × (null backend.region ≡ false → region ≡ backend.region)
    × (lookup (codes "Authorization") out.headers ≡ some (sig.authorization ∷ []))

-- the request that signOutbound hands to the signer
abbrev to_sign : Endpoint → Outbound → Outbound
to_sign backend built = record built {
  headers = header_set (codes "X-Amz-Content-Sha256") unsigned_payload built.headers;
  signer =
      some (backend.access_key, if null backend.region then codes "us-east-1" else backend.region);
}
