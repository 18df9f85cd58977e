-- ===== src/Network.antt =====
-- internal/service over internal/tailscale: the registry with the Tailscale server behind its host.
pub mod Starting
pub mod Linked
use tsbridge.Prelude.Assoc.{has_key}
use tsbridge.Prelude.{ℕ, String, Option, Bool}
use tsbridge.Errors.{Err, Result}
use tsbridge.Config.{Service}
use tsbridge.Config.Credentials.{Os}
use tsbridge.Service.{Host, HttpServer, HandlerConfig, HandlerWithClose}
use tsbridge.Tailscale.{Tsnet, Server}
use tsbridge.Tailscale.Secrets.{Api}
use tsbridge.Tailscale.Directory.{Files}
use tsbridge.Tailscale.Listening.{listen, close_service}

-- The proxy and Go's HTTP server, over a state `U` of their own. A listener is a number.
pub record Outer (U H : Type 0) : Type 0 where
  pub new_handler : HandlerConfig → U → U × Result H
  pub serve : HttpServer → ℕ → HandlerWithClose H → U → U
  pub shutdown_server : HttpServer → ℕ → U → U × Option Err
  pub close_listener : ℕ → U → U × Option Err
  pub close_handler : H → U → U × Option Err

-- What the registry calls, over the Tailscale server and the outer state.
abbrev pub network_host :
    {U H : Type 0} → Tsnet → Api → Files → Os → Outer U H → Host (Server × U) ℕ H
network_host tsnet api files os outer = record {
  listen = λ svc mode funnel (s, u).
      let (s', result) = listen tsnet api files os svc mode funnel s in ((s', u), result);
  has_service_server = λ name (s, u). has_key name s.service_servers;
  close_service = λ name (s, u). let (s', failed) = close_service tsnet name s in ((s', u), failed);
  new_handler = λ cfg (s, u). let (u', result) = outer.new_handler cfg u in ((s, u'), result);
  serve = λ server listener handler (s, u). (s, outer.serve server listener handler u);
  shutdown_server = λ server listener (s, u).
      let (u', failed) = outer.shutdown_server server listener u in ((s, u'), failed);
  close_listener =
      λ listener (s, u). let (u', failed) = outer.close_listener listener u in ((s, u'), failed);
  close_handler =
      λ handler (s, u). let (u', failed) = outer.close_handler handler u in ((s, u'), failed);
}
