-- ===== src/Service/Lifecycle.antt =====
-- internal/service/service.go: starting and stopping one service.
use tsbridge.Prelude.Int.{pos}
use tsbridge.Prelude.{Option, none, some, Bool, false, deref}
use tsbridge.Constants.{default_read_header_timeout}
use tsbridge.Errors.{Err, Result, ok, err, text, wrap_resource}
use tsbridge.Config.{Service, Config}
use tsbridge.Service.{Host, HttpServer, RunningService}
use tsbridge.Service.Handler.{create_handler}

-- The configured timeouts in place of the defaults of `http.Server`.
unfoldable pub http_server : Service → HttpServer
http_server svc_cfg = record {
  read_header_timeout = deref svc_cfg.read_header_timeout default_read_header_timeout;
  write_timeout = deref svc_cfg.write_timeout (pos 0);
  idle_timeout = deref svc_cfg.idle_timeout (pos 0);
  conn_context = deref svc_cfg.funnel_enabled false;
}

module _ {W L H : Type 0} (host : Host W L H) where
  unfoldable pub start_service : Config → Service → Bool → W → W × Result (RunningService L H)
  unfolding http_server create_handler
  start_service config svc_cfg collects w =
      let (w₁, listened) =
        host.listen svc_cfg svc_cfg.tls_mode (deref svc_cfg.funnel_enabled false) w in
      elim listened [
        | err e ↦ (w₁, err (wrap_resource (some e) (text "creating listener")))
        | ok listener ↦
            let (w₂, created) = create_handler host config svc_cfg collects w₁ in
            elim created [
              | err e ↦
                  ((host.close_service svc_cfg.name (host.close_listener listener w₂).0).0, err e)
              | ok handler ↦
                  let server = http_server svc_cfg in
                  (
                    host.serve server listener handler w₂,
                    ok (record {
                      name = svc_cfg.name;
                      config = svc_cfg;
                      listener = listener;
                      server = server;
                      handler = handler;
                    }),
                  )
            ]
      ]

  -- A failed shutdown of the server ends `Stop`; later failures are only logged.
  unfoldable pub stop : RunningService L H → W → W × Option Err
  stop svc w =
      let (w₁, failed) = host.shutdown_server svc.server svc.listener w in
      elim failed [
        | some e ↦ (w₁, some e)
        | none ↦
            let w₂ = (host.close_listener svc.listener w₁).0 in
            ((host.close_handler svc.handler.close_handler w₂).0, none)
      ]
