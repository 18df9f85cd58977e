-- ===== src/Service.antt =====
-- internal/service/service.go: a running service and the registry of the running services.
-- The Tailscale server, the proxy and Go's HTTP server enter as the operations `Host` over a state
-- `W` of the outside world; `L` and `H` are their listeners and proxy handlers. The registry's
-- Tailscale server and configuration are never nil in the program, and the mutex makes each
-- operation one step.
pub mod Handler
pub mod Lifecycle
pub mod Operations
pub mod Refines
pub mod Gauge
pub mod Start
pub mod Partial
use tsbridge.Prelude.Int.{ℤ}
use tsbridge.Prelude.{String, ℕ, List, Option, Bool}
use tsbridge.Errors.{Err, Result}
use tsbridge.Config.{Service, Config}

-- `proxy.TransportConfig`; a zero duration stands for one that is not set.
pub record TransportConfig : Type 0 where
  pub response_header_timeout : ℤ
  pub dial_timeout : ℤ
  pub keep_alive_timeout : ℤ
  pub idle_conn_timeout : ℤ
  pub tls_handshake_timeout : ℤ
  pub expect_continue_timeout : ℤ

-- `proxy.HandlerConfig`
pub record HandlerConfig : Type 0 where
  pub backend_addr : String
  pub transport_config : TransportConfig
  pub trusted_proxies : List String
  pub collects_metrics : Bool
  pub service_name : String
  pub upstream_headers : List (String × String)
  pub downstream_headers : List (String × String)
  pub remove_upstream : List String
  pub remove_downstream : List String
  pub flush_interval : Option ℤ
  pub insecure_skip_verify : Bool

-- A middleware, with what it is given.
pub data Layer : Type 0 where
  request_id : Layer
  max_bytes : (limit : ℤ) → Layer
  whois : (timeout : ℤ) → Layer
  strip_tailscale_headers : Layer
  metrics : (service : String) → Layer
  access_log : (service : String) → Layer

-- A proxy handler under its middleware, the outermost first. `Close` reaches the proxy handler.
pub record HandlerWithClose (H : Type 0) : Type 0 where
  pub layers : List Layer
  pub close_handler : H

-- The fields of `http.Server` that the program sets.
pub record HttpServer : Type 0 where
  pub read_header_timeout : ℤ
  pub write_timeout : ℤ
  pub idle_timeout : ℤ
  pub conn_context : Bool

pub record RunningService (L H : Type 0) : Type 0 where
  pub name : String
  pub config : Service
  pub listener : L
  pub server : HttpServer
  pub handler : HandlerWithClose H

pub record Host (W L H : Type 0) : Type 0 where
  pub listen : Service → String → Bool → W → W × Result L
  pub has_service_server : String → W → Bool
  pub close_service : String → W → W × Option Err
  pub new_handler : HandlerConfig → W → W × Result H
  pub serve : HttpServer → L → HandlerWithClose H → W → W
  pub shutdown_server : HttpServer → L → W → W × Option Err
  pub close_listener : L → W → W × Option Err
  pub close_handler : H → W → W × Option Err

-- What the metrics collector has been told: the service operations, the newest first, and the
-- gauge of active services.
pub record Collector : Type 0 where
  pub operations : List (String × Bool)
  pub active_services : ℕ

pub record Registry (W L H : Type 0) : Type 0 where
  pub config : Config
  pub services : List (String × RunningService L H)
  pub metrics_collector : Option Collector
  pub world : W
