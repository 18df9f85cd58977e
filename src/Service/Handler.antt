-- ===== src/Service/Handler.antt =====
-- internal/service/service.go: CreateHandler, the middleware around the proxy of a service.
use tsbridge.Prelude.Int.{ℤ, pos, is_pos}
use tsbridge.Prelude.{List, [], ◌∷◌, Bool, true, false, ◌&&◌, deref, or_else, if◌then◌else◌}
use tsbridge.Constants.{default_whois_timeout, default_max_request_body_size}
use tsbridge.Errors.{Result, ok, err}
use tsbridge.Config.{Service, Config}
use tsbridge.Service.{
  TransportConfig, HandlerConfig, Layer, request_id, max_bytes, whois, strip_tailscale_headers,
  metrics, access_log, HandlerWithClose, Host,
}

unfoldable pub is_access_log_enabled : Config → Service → Bool
is_access_log_enabled global_config svc =
    deref (or_else svc.access_log global_config.global.access_log) true

unfoldable pub get_max_request_body_size : Config → Service → ℤ
get_max_request_body_size global_config svc =
    deref (or_else svc.max_request_body_size global_config.global.max_request_body_size)
      default_max_request_body_size

unfoldable pub transport_config : Config → Service → TransportConfig
transport_config global_config svc = record {
  response_header_timeout = deref svc.response_header_timeout (pos 0);
  dial_timeout = deref global_config.global.dial_timeout (pos 0);
  keep_alive_timeout = deref global_config.global.keep_alive_timeout (pos 0);
  idle_conn_timeout = deref global_config.global.idle_conn_timeout (pos 0);
  tls_handshake_timeout = deref global_config.global.tls_handshake_timeout (pos 0);
  expect_continue_timeout = deref global_config.global.expect_continue_timeout (pos 0);
}

unfoldable pub handler_config : Config → Service → Bool → HandlerConfig
unfolding transport_config
handler_config global_config svc collects = record {
  backend_addr = svc.backend_addr;
  transport_config = transport_config global_config svc;
  trusted_proxies = global_config.global.trusted_proxies;
  collects_metrics = collects;
  service_name = svc.name;
  upstream_headers = svc.upstream_headers;
  downstream_headers = svc.downstream_headers;
  remove_upstream = svc.remove_upstream;
  remove_downstream = svc.remove_downstream;
  flush_interval = svc.flush_interval;
  insecure_skip_verify = deref svc.insecure_skip_verify false;
}

-- Wraps the layers so far in one more, if the condition holds.
abbrev wrap_if : Bool → Layer → List Layer → List Layer
wrap_if b l ls = if b then l ∷ ls else ls

-- The layers around the proxy, put on from the inside to the outside.
unfoldable pub layers : Config → Service → (has_server collects : Bool) → List Layer
unfolding is_access_log_enabled get_max_request_body_size
layers global_config svc has_server collects =
    let inner = request_id ∷ [] in
    let max_body_size = get_max_request_body_size global_config svc in
    let limited = wrap_if (is_pos max_body_size) (max_bytes max_body_size) inner in
    let whois_enabled = deref svc.whois_enabled false in
    let identified =
      wrap_if (whois_enabled && has_server) (whois (deref svc.whois_timeout default_whois_timeout))
        limited in
    let stripped = strip_tailscale_headers ∷ identified in
    let measured = wrap_if collects (metrics svc.name) stripped in
    wrap_if (is_access_log_enabled global_config svc) (access_log svc.name) measured

module _ {W L H : Type 0} (host : Host W L H) where
  unfoldable pub create_handler :
      Config → Service → (collects : Bool) → W → W × Result (HandlerWithClose H)
  unfolding handler_config layers
  create_handler global_config svc collects w =
      let (w', made) = host.new_handler (handler_config global_config svc collects) w in
      (
        w',
        elim made [
          | err e ↦ err e
          | ok h ↦ ok (record {
            layers = layers global_config svc (host.has_service_server svc.name w') collects;
            close_handler = h;
          })
        ],
      )
