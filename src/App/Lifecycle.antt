-- ===== src/App/Lifecycle.antt =====
-- internal/app/app.go: NewAppWithOptions, Start and Shutdown.
-- `Parts` holds the operations of the parts that the application starts and stops, over a state of
-- any type: the provider's watcher, the metrics server, the registry and the Tailscale server.
use tsbridge.Prelude.{String, Option, none, some, Bool, true, false, not, if◌then◌else◌}
use tsbridge.Errors.{
  Err, Errs, no_errs, more_errs, joined, Result, ok, err, wrap_resource, wrap_internal, wrap_config,
  new_validation_error, is_timeout, text,
}
use tsbridge.Errors.Startup.{as_service_startup_error, all_failed}
use tsbridge.Config.{Config}
use tsbridge.Config.Address.{Net}
use tsbridge.Config.Validate.{validate, is_set}
use tsbridge.Tailscale.{Server}
use tsbridge.Tailscale.Listening.{new_server_with_factory}

-- The configuration to run with: that of the provider, if there is one.
unfoldable pub chosen_config : Option (String × Result Config) → Option Config → Result Config
chosen_config (some (name, err e)) cfg =
    err (wrap_config (some e) (text "failed to load config from provider"))
chosen_config (some (name, ok loaded)) cfg = ok loaded
chosen_config none (some cfg) = ok cfg
chosen_config none none = err (new_validation_error (text "config cannot be nil"))

abbrev provider_name : Option (String × Result Config) → String
provider_name none = ""
provider_name (some (name, loaded)) = name

-- The configuration, the new Tailscale server and whether there is a metrics server. Of the failure
-- to set up metrics, after which the new Tailscale server is closed, only the error is kept.
unfoldable pub new_app_with_options :
    Net
    → (provider : Option (String × Result Config)) → Option Config
    → (metrics_error : Option Err) → Result (Config × Server × Bool)
unfolding chosen_config
new_app_with_options net provider given metrics_error = elim (chosen_config provider given) [
  | err e ↦ err e
  | ok cfg ↦ elim (validate net cfg (provider_name provider)) [
    | some e ↦ err e
    | none ↦ elim (new_server_with_factory cfg.tailscale) [
      | err e ↦ err (wrap_resource (some e) (text "failed to create tailscale server"))
      | ok server ↦
          if is_set cfg.global.metrics_addr
          then elim metrics_error [
            | some e ↦ err (wrap_resource (some e) (text "failed to setup metrics"))
            | none ↦ ok (cfg, server, true)
          ]
          else ok (cfg, server, false)
    ]
  ]
]

pub record Parts (W : Type 0) : Type 0 where
  -- `Watch` of the provider with the loop over its configurations, and their end.
  pub watch : W → W
  pub cancel_watch : W → W
  pub start_metrics : W → W × Option Err
  pub shutdown_metrics : W → W × Option Err
  pub start_services : W → W × Option Err
  pub shutdown_services : W → W × Option Err
  pub close_server : W → W × Option Err

-- The application: the state of its parts, which of them it has, and what has been done once.
pub record Lifecycle (W : Type 0) : Type 0 where
  pub world : W
  pub has_provider : Bool
  pub has_metrics : Bool
  pub watching : Bool
  pub started : Bool
  pub stopped : Bool

-- Whether the services that failed to start are some, but not all.
unfoldable pub is_partial : Err → Bool
is_partial e = elim (as_service_startup_error (some e)) [
  | none ↦ false
  | some x ↦ not (all_failed x)
]

abbrev pub with_error : Option Err → Errs → Errs
with_error none errs = errs
with_error (some e) errs = more_errs e errs

abbrev pub error_of : Errs → Option Err
error_of no_errs = none
error_of (more_errs e errs) = some (joined (more_errs e errs))

-- The errors of the three shutdowns that count.
abbrev pub metrics_shutdown_error : Option Err → Option Err
metrics_shutdown_error none = none
metrics_shutdown_error (some e) =
    some (wrap_internal (some e) (text "failed to shutdown metrics server"))

unfoldable pub close_error : Option Err → Option Err
unfolding is_timeout
close_error none = none
close_error (some e) =
    if is_timeout (some e)
    then none
    else some (wrap_resource (some e) (text "failed to close tailscale server"))

-- The errors of a shutdown, joined.
unfoldable pub shutdown_error : (services metrics closing : Option Err) → Option Err
unfolding close_error
shutdown_error services metrics closing = error_of (
    with_error services
      (with_error (metrics_shutdown_error metrics) (with_error (close_error closing) no_errs)))

module _ {W : Type 0} (parts : Parts W) where
  -- The services, after the watcher and the metrics server.
  unfoldable pub start_registry : Bool → W → W × Option Err
  unfolding is_partial
  start_registry has_metrics w =
      let (w', failed) = parts.start_services w in
      elim failed [
        | none ↦ (w', none)
        | some e ↦
            if is_partial e
            then (w', none)
            else ((if has_metrics then (parts.shutdown_metrics w').0 else w'), some e)
      ]

  unfoldable pub start_once : Bool → W → W × Option Err
  unfolding start_registry
  start_once has_metrics w =
      let (w', failed) = parts.start_metrics w in
      if has_metrics
      then elim failed [
        | some e ↦ (w', some (wrap_resource (some e) (text "failed to start metrics server")))
        | none ↦ start_registry true w'
      ]
      else start_registry false w

  unfoldable pub start : Lifecycle W → Lifecycle W × Option Err
  unfolding start_once
  start a =
      let watched = if a.has_provider then parts.watch a.world else a.world in
      let (w, failed) = start_once a.has_metrics watched in
      if a.started
      then (a, none)
      else (record a { world = w; watching = a.has_provider; started = true }, failed)

  unfoldable pub perform_shutdown : Lifecycle W → W × Option Err
  unfolding shutdown_error
  perform_shutdown a =
      let w = if a.watching then parts.cancel_watch a.world else a.world in
      let (w₁, services) = parts.shutdown_services w in
      let (w₂, metrics) = if a.has_metrics then parts.shutdown_metrics w₁ else (w₁, none) in
      let (w₃, closing) = parts.close_server w₂ in (w₃, shutdown_error services metrics closing)

  unfoldable pub shutdown : Lifecycle W → Lifecycle W × Option Err
  unfolding perform_shutdown
  shutdown a =
      let (w, failed) = perform_shutdown a in
      if a.stopped then (a, none) else (record a { world = w; stopped = true }, failed)
