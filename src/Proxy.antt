-- ===== src/Proxy.antt =====
-- internal/proxy/proxy.go: the handler that passes requests on to a backend.
-- `Web` holds what the code calls of the packages `net`, `net/url` and `net/http`. Header maps are
-- those of Middleware, their keys in canonical form: `X-Real-IP` is the key `X-Real-Ip`.
pub mod Backend
pub mod Rewrite
pub mod Forwarded
use tsbridge.Prelude.{String, List, Option, Bool}
use tsbridge.Errors.{Err, Result}
use tsbridge.Middleware.{Header}

-- The scheme and the host of a URL; the rest of it is passed on.
pub record Url : Type 0 where
  pub scheme : String
  pub host : String

pub record Web : Type 1 where
  pub Ip : Type 0
  pub IpNet : Type 0
  pub parse_ip : String → Option Ip
  pub parse_cidr : String → Result IpNet
  -- The network of one address: a mask of 32 or 128 bits.
  pub single : Ip → IpNet
  pub contains : IpNet → Ip → Bool
  -- The host that `net.SplitHostPort` returns, and its error.
  pub split_host_port : String → Result (String × String)
  pub parse_url : String → Result Url
  -- `http.CanonicalHeaderKey`
  pub canonical : String → String
  -- The removal of hop-by-hop headers before the rewrite.
  pub without_hop_by_hop : Header → Header

-- What the rewrite reads of a request: the headers, the addresses, whether it came over TLS, and
-- the source of a Funnel connection.
pub record Incoming : Type 0 where
  pub header : Header
  pub remote_addr : String
  pub host : String
  pub is_tls : Bool
  pub funnel_src : Option String
