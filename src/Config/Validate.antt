-- ===== src/Config/Validate.antt =====
-- internal/config/config.go: Validate and the methods it calls.
-- A chain of `if err := ...; err != nil { return err }` is the first error of a list of checks.
use tsbridge.Prelude.Int.{pos}
use tsbridge.Prelude.Bytes.{bytes, has_prefix, contains, to_lower}
use tsbridge.Prelude.{
  ℕ, suc, String, List, [], ◌∷◌, map, Option, none, some, Bool, true, false, ◌&&◌, ◌||◌, not,
  is_empty, or_else, deref, if◌then◌else◌, str_eq,
}
use tsbridge.Constants.{tls_mode_auto, tls_mode_off}
use tsbridge.Errors.{Err, new_validation_error, wrap_validation, str, int, text}
use tsbridge.Config.Timeout.{validate_timeout, validate_timeout_positive}
use tsbridge.Config.Address.{Net, validate_addr, validate_backend_address}
use tsbridge.Config.{Tailscale, Global, Service, Config}

abbrev pub first_error : List (Option Err) → Option Err
first_error [] = none
first_error (e ∷ es) = or_else e (first_error es)

abbrev pub is_set : String → Bool
is_set s = not (str_eq s "")

-- `seen[name]`
unfoldable pub is_seen : String → List String → Bool
is_seen n [] = false
is_seen n (m ∷ seen) = if str_eq m n then true else is_seen n seen

unfoldable pub validate_auth_method_selection : Tailscale → Option Err
validate_auth_method_selection ts =
    if is_set ts.auth_key && (is_set ts.oauth_client_id || is_set ts.oauth_client_secret)
    then some (new_validation_error (text "cannot specify both OAuth and AuthKey credentials"))
    else none

unfoldable pub validate_oauth : Tailscale → Option Err
unfolding validate_auth_method_selection
validate_oauth ts = elim (validate_auth_method_selection ts) [
  | some e ↦ some e
  | none ↦
      if is_set ts.auth_key
      then none
      else if is_set ts.oauth_client_id && not (is_set ts.oauth_client_secret)
      then some
          (new_validation_error (text "OAuth client secret is required when client ID is provided"))
      else if not (is_set ts.oauth_client_id) && is_set ts.oauth_client_secret
      then some
          (new_validation_error (text "OAuth client ID is required when client secret is provided"))
      else none
]

module _ (net : Net) where
  unfoldable pub metrics_addr_error : String → Option Err
  metrics_addr_error addr =
      if is_set addr
      then elim (net.tcp_addr_error (bytes addr)) [
        | none ↦ none
        | some e ↦ some (
            wrap_validation (some e)
              (record { format = "invalid metrics address %q"; args = str addr ∷ [] }))
      ]
      else none

  -- One round of the loop over the trusted proxies.
  unfoldable pub proxy_error : String → Option Err
  proxy_error proxy =
      if contains (bytes proxy) (bytes "/")
      then elim (net.cidr_error (bytes proxy)) [
        | none ↦ none
        | some e ↦ some (
            wrap_validation (some e)
              (record { format = "invalid trusted proxy CIDR %q"; args = str proxy ∷ [] }))
      ]
      else if net.is_ip (bytes proxy)
      then none
      else some (
          new_validation_error
            (record { format = "invalid trusted proxy IP %q"; args = str proxy ∷ [] }))

  abbrev pub global_checks : Global → List (Option Err)
  global_checks g =
      validate_timeout "read_header_timeout" g.read_header_timeout false
      ∷ validate_timeout "write_timeout" g.write_timeout false
      ∷ validate_timeout "idle_timeout" g.idle_timeout false
      ∷ validate_timeout_positive "shutdown_timeout" g.shutdown_timeout
      ∷ validate_timeout_positive "startup_timeout" g.startup_timeout
      ∷ validate_timeout "response_header_timeout" g.response_header_timeout false
      ∷ validate_timeout "dial_timeout" g.dial_timeout false
      ∷ validate_timeout "keep_alive_timeout" g.keep_alive_timeout false
      ∷ validate_timeout "idle_conn_timeout" g.idle_conn_timeout false
      ∷ validate_timeout "tls_handshake_timeout" g.tls_handshake_timeout false
      ∷ validate_timeout "expect_continue_timeout" g.expect_continue_timeout false
      ∷ validate_timeout "metrics_read_header_timeout" g.metrics_read_header_timeout false
      ∷ validate_timeout "flush_interval" g.flush_interval true
      ∷ metrics_addr_error g.metrics_addr
      ∷ map proxy_error g.trusted_proxies

  unfoldable pub validate_global : Global → Option Err
  validate_global g = first_error (global_checks g)

  -- The checks of validateService that are written in place, in its order.
  unfoldable pub insecure_error : Service → Option Err
  insecure_error svc =
      if deref svc.insecure_skip_verify false
        && not (has_prefix (to_lower (bytes svc.backend_addr)) (bytes "https://"))
      then some
          (new_validation_error (text "insecure_skip_verify is only supported for HTTPS backends"))
      else none

  unfoldable pub whois_error : Service → Option Err
  whois_error svc =
      if deref svc.whois_enabled true
      then validate_timeout "whois_timeout" svc.whois_timeout false
      else none

  unfoldable pub tls_mode_error : Service → Option Err
  tls_mode_error svc =
      if is_set svc.tls_mode
        && not (str_eq svc.tls_mode tls_mode_auto || str_eq svc.tls_mode tls_mode_off)
      then some (
          new_validation_error (record {
            format = "invalid tls_mode %q: must be '%s' or '%s'";
            args = str svc.tls_mode ∷ str tls_mode_auto ∷ str tls_mode_off ∷ [];
          }))
      else none

  unfoldable pub listen_error : Service → Option Err
  listen_error svc =
      if is_set svc.listen_addr
      then validate_addr net (bytes svc.listen_addr) "listen_addr"
      else none

  unfoldable pub tags_error : Tailscale → Service → Option Err
  tags_error ts svc =
      if (is_set ts.oauth_client_id || is_set ts.oauth_client_secret)
        && is_empty (deref svc.tags [])
      then some (
          new_validation_error
            (text "service must have at least one tag when using OAuth authentication"))
      else none

  abbrev pub service_checks : Tailscale → Service → List (Option Err)
  service_checks ts svc =
      validate_backend_address net (bytes svc.backend_addr)
      ∷ insecure_error svc
      ∷ whois_error svc
      ∷ tls_mode_error svc
      ∷ validate_timeout_positive "startup_timeout" svc.startup_timeout
      ∷ validate_timeout "read_header_timeout" svc.read_header_timeout false
      ∷ validate_timeout "write_timeout" svc.write_timeout false
      ∷ validate_timeout "idle_timeout" svc.idle_timeout false
      ∷ validate_timeout "response_header_timeout" svc.response_header_timeout false
      ∷ validate_timeout "flush_interval" svc.flush_interval true
      ∷ listen_error svc
      ∷ tags_error ts svc
      ∷ []

  unfoldable pub validate_service : Tailscale → Service → Option Err
  validate_service ts svc = first_error (service_checks ts svc)

  -- The loop over the services from index `i` on, with the names seen before.
  unfoldable pub validate_services : Tailscale → ℕ → List String → List Service → Option Err
  validate_services ts i seen [] = none
  validate_services ts i seen (svc ∷ rest) =
      let later = validate_services ts (suc i) (svc.name ∷ seen) rest in
      if not (is_set svc.name)
      then some (
          new_validation_error
            (record { format = "service[%d]: service name is required"; args = int (pos i) ∷ [] }))
      else if is_seen svc.name seen
      then some (
          new_validation_error
            (record { format = "duplicate service name: %q"; args = str svc.name ∷ [] }))
      else elim (validate_service ts svc) [
        | some e ↦
            some (
              wrap_validation (some e) (record { format = "service %q"; args = str svc.name ∷ [] }))
        | none ↦ later
      ]

  unfoldable pub none_error : List Service → String → Option Err
  none_error services provider =
      if is_empty services && not (str_eq provider "docker")
      then some (
          new_validation_error
            (text "at least one service must be defined in the [[services]] array"))
      else none

  abbrev pub checks : Config → String → List (Option Err)
  checks c provider =
      validate_oauth c.tailscale
      ∷ validate_global c.global
      ∷ none_error c.services provider
      ∷ validate_services c.tailscale 0 [] c.services
      ∷ []

  unfoldable pub validate : Config → String → Option Err
  validate c provider = first_error (checks c provider)
