-- ===== src/Proxy/Backend.antt =====
-- internal/proxy/proxy.go: the backend's address, the trusted proxies and the transport.
use Prim.Native.String.{◌++◌ as append}
use tsbridge.Prelude.Int.{ℤ, pos, is_pos}
use tsbridge.Prelude.Bytes.{bytes, contains, has_prefix}
use tsbridge.Prelude.{
  ℕ, String, List, [], ◌∷◌, Option, none, some, Bool, true, false, ◌||◌, is_empty, if◌then◌else◌,
  str_eq,
}
use tsbridge.Constants.{
  default_max_idle_conns, default_max_conns_per_host, default_max_idle_conns_per_host,
}
use tsbridge.Errors.{Err, Result, ok, err, new_config_error, wrap_config, text, str}
use tsbridge.Service.{TransportConfig}
use tsbridge.Proxy.{Url, Web}

module _ (web : Web) where
  unfoldable pub parse_backend_url : String → Result Url
  parse_backend_url addr =
      if str_eq addr ""
      then err (new_config_error (text "backend address cannot be empty"))
      else if has_prefix (bytes addr) (bytes "unix://")
      then ok (record { scheme = "http"; host = "unix" })
      else elim (web.parse_url
          (if contains (bytes addr) (bytes "://") then addr else append "http://" addr)) [
            | err e ↦ err e
            | ok url ↦
                if str_eq url.host ""
                then err (new_config_error (text "backend address must have a host"))
                else ok url
          ]

  -- A range of addresses or a single one.
  unfoldable pub trusted_proxy : String → Result web.IpNet
  trusted_proxy proxy =
      if contains (bytes proxy) (bytes "/")
      then elim (web.parse_cidr proxy) [
        | err e ↦ err (wrap_config (some e) (text "invalid trusted proxy CIDR"))
        | ok net ↦ ok net
      ]
      else elim (web.parse_ip proxy) [
        | none ↦ err (
            new_config_error
              (record { format = "invalid trusted proxy IP: %s"; args = str proxy ∷ [] }))
        | some ip ↦ ok (web.single ip)
      ]

  -- The networks in their order; the first that does not parse is the error.
  unfoldable pub configure_trusted_proxies : List String → Result (List web.IpNet)
  unfolding trusted_proxy
  configure_trusted_proxies [] = ok []
  configure_trusted_proxies (proxy ∷ proxies) =
      let rest = configure_trusted_proxies proxies in
      elim (trusted_proxy proxy) [
        | err e ↦ err e
        | ok net ↦ elim rest [ err e ↦ err e | ok nets ↦ ok (net ∷ nets) ]
      ]

  abbrev any_contains : web.Ip → List web.IpNet → Bool
  any_contains ip [] = false
  any_contains ip (net ∷ nets) = web.contains net ip || any_contains ip nets

  unfoldable pub is_trusted_proxy : List web.IpNet → String → Bool
  is_trusted_proxy trusted_proxies ip =
      if is_empty trusted_proxies then false else elim (web.parse_ip ip) [
        | none ↦ false
        | some parsed_ip ↦ any_contains parsed_ip trusted_proxies
      ]

-- The settings of `http.Transport`.
pub record Transport : Type 0 where
  pub unix_socket : Bool
  pub disable_compression : Bool
  pub force_attempt_http2 : Bool
  pub max_idle_conns : ℕ
  pub max_conns_per_host : ℕ
  pub max_idle_conns_per_host : ℕ
  pub dial_timeout : ℤ
  pub idle_conn_timeout : ℤ
  pub tls_handshake_timeout : ℤ
  pub expect_continue_timeout : ℤ
  pub response_header_timeout : ℤ
  -- `InsecureSkipVerify` of the TLS settings, if there are any.
  pub tls_client : Option Bool

unfoldable pub create_proxy_transport : String → TransportConfig → Bool → Transport
create_proxy_transport backend_addr config insecure_skip_verify = record {
  unix_socket = has_prefix (bytes backend_addr) (bytes "unix://");
  disable_compression = true;
  force_attempt_http2 = false;
  max_idle_conns = default_max_idle_conns;
  max_conns_per_host = default_max_conns_per_host;
  max_idle_conns_per_host = default_max_idle_conns_per_host;
  dial_timeout = config.dial_timeout;
  idle_conn_timeout = config.idle_conn_timeout;
  tls_handshake_timeout = config.tls_handshake_timeout;
  expect_continue_timeout = config.expect_continue_timeout;
  response_header_timeout =
      if is_pos config.response_header_timeout then config.response_header_timeout else pos 0;
  tls_client =
      if has_prefix (bytes backend_addr) (bytes "https://")
      then some insecure_skip_verify
      else none;
}

-- The status that a failed request is answered with; `times_out` is `isTimeoutError`.
unfoldable pub error_status : (times_out : Err → Bool) → Err → ℕ
error_status times_out e = if times_out e then 504 else 502
