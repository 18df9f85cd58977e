-- ===== src/Config/Defaults.antt =====
-- internal/config/config.go: SetDefaults and Normalize.
use tsbridge.Prelude.{some, or_else, map, str_eq, if◌then◌else◌, true}
use tsbridge.Constants.{
  default_read_header_timeout, default_write_timeout, default_idle_timeout,
  default_shutdown_timeout, default_startup_timeout, default_whois_timeout, default_dial_timeout,
  default_keep_alive_timeout, default_idle_conn_timeout, default_tls_handshake_timeout,
  default_expect_continue_timeout, default_metrics_read_header_timeout, default_access_log_enabled,
  default_whois_enabled, default_tls_mode, default_max_request_body_size,
}
use tsbridge.Config.{Config, Tailscale, Global, Service}

-- A value is put in only where the pointer is nil: `or_else`.
unfoldable pub set_global_defaults : Global → Global
set_global_defaults g = record g {
  read_header_timeout = or_else g.read_header_timeout (some default_read_header_timeout);
  write_timeout = or_else g.write_timeout (some default_write_timeout);
  idle_timeout = or_else g.idle_timeout (some default_idle_timeout);
  shutdown_timeout = or_else g.shutdown_timeout (some default_shutdown_timeout);
  startup_timeout = or_else g.startup_timeout (some default_startup_timeout);
  access_log = or_else g.access_log (some default_access_log_enabled);
  max_request_body_size = or_else g.max_request_body_size (some default_max_request_body_size);
  dial_timeout = or_else g.dial_timeout (some default_dial_timeout);
  keep_alive_timeout = or_else g.keep_alive_timeout (some default_keep_alive_timeout);
  idle_conn_timeout = or_else g.idle_conn_timeout (some default_idle_conn_timeout);
  tls_handshake_timeout = or_else g.tls_handshake_timeout (some default_tls_handshake_timeout);
  expect_continue_timeout =
      or_else g.expect_continue_timeout (some default_expect_continue_timeout);
  metrics_read_header_timeout =
      or_else g.metrics_read_header_timeout (some default_metrics_read_header_timeout);
}

unfoldable pub set_tailscale_defaults : Tailscale → Tailscale
set_tailscale_defaults t = record t {
  oauth_preauthorized = or_else t.oauth_preauthorized (some true);
}

unfoldable pub set_service_defaults : Service → Service
set_service_defaults svc = record svc {
  whois_enabled = or_else svc.whois_enabled (some default_whois_enabled);
  whois_timeout = or_else svc.whois_timeout (some default_whois_timeout);
  tls_mode = if str_eq svc.tls_mode "" then default_tls_mode else svc.tls_mode;
}

unfoldable pub set_defaults : Config → Config
unfolding set_global_defaults set_tailscale_defaults
set_defaults c = record c {
  tailscale = set_tailscale_defaults c.tailscale;
  global = set_global_defaults c.global;
  services = map set_service_defaults c.services;
}

-- One round of the loop of `Normalize`. A nil global value leaves the nil service value as it is.
unfoldable pub normalize_service : Tailscale → Global → Service → Service
normalize_service ts g svc = record svc {
  startup_timeout = or_else svc.startup_timeout g.startup_timeout;
  read_header_timeout = or_else svc.read_header_timeout g.read_header_timeout;
  write_timeout = or_else svc.write_timeout g.write_timeout;
  idle_timeout = or_else svc.idle_timeout g.idle_timeout;
  response_header_timeout = or_else svc.response_header_timeout g.response_header_timeout;
  access_log = or_else svc.access_log g.access_log;
  flush_interval = or_else svc.flush_interval g.flush_interval;
  max_request_body_size = or_else svc.max_request_body_size g.max_request_body_size;
  tags = or_else svc.tags ts.default_tags;
}

unfoldable pub normalize : Config → Config
normalize c = record c { services = map (normalize_service c.tailscale c.global) c.services }
