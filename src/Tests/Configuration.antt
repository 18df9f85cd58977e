-- ===== src/Tests/Configuration.antt =====
-- Configurations and their parts at concrete values.
use tsbridge.Prelude.Assoc.{lookup}
use tsbridge.Prelude.Bytes.{bytes}
use tsbridge.Prelude.{[], ◌∷◌, none, some, true, All, ◌≡◌, ◌↔◌, ◌⊎◌, refl, String, List}
use tsbridge.Errors.{ok}
use tsbridge.Config.{Tailscale, Service, Config}
use tsbridge.Config.Redact.{redacted, tailscale_string, with_secrets, redacted-with_secrets}
use tsbridge.Config.Compare.{service_config_equal, slices_eq, maps_eq, sort}
use tsbridge.Config.SameSettings.{SameSettings, HasMaps, service_config_equal_iff}
use tsbridge.Config.Defaults.{set_defaults, normalize}
use tsbridge.Config.Resolved.{
  AllInherit, IsResolved, normalize-set_defaults-IsResolved, normalize-set_defaults-AllInherit,
}
use tsbridge.Config.Hostname.{is_valid_hostname, IsHostname, is_valid_hostname_iff}
use tsbridge.Config.Address.{validate_addr, validate_backend_address, IsAddr}
use tsbridge.Config.Backend.{
  IsSocket, IsWebUrl, IsTcp, validate_addr_iff, validate_backend_address_iff,
}
use tsbridge.Config.Validate.{validate}
use tsbridge.Config.Accepts.{IsValid, validate_iff}
use tsbridge.Config.FilePath.{validate_file_path, IsSafePath, validate_file_path_iff}
use tsbridge.Config.Credentials.{resolve_secret, resolve_secret_with_fallback}
use tsbridge.Config.Secrets.{SourceOrFallback, resolve_secret_with_fallback_iff}
use tsbridge.Config.Process.{
  process_loaded_config_with_provider, resolve_secrets, resolve_client_id, resolve_client_secret,
  resolve_auth_key, resolve_state_dir,
}
use tsbridge.Config.Loaded.{IsReady, process_loaded_config_iff, resolve_secrets-hides}
use tsbridge.Samples.{sample_service, sample_config, sample_tailscale, sample_net, sample_os}

abbrev one_service : Config
one_service = sample_config (sample_service "web" "localhost:8080" ∷ [])

normalize-set_defaults-AllInherit_example :
    AllInherit one_service.tailscale one_service.global one_service.services
      (normalize (set_defaults one_service)).services
normalize-set_defaults-AllInherit_example = normalize-set_defaults-AllInherit one_service

normalize-set_defaults-IsResolved_example :
    All IsResolved (normalize (set_defaults one_service)).services
normalize-set_defaults-IsResolved_example = normalize-set_defaults-IsResolved one_service

is_valid_hostname_iff_example :
    (is_valid_hostname (bytes "my-host.local") ≡ true) ↔ IsHostname (bytes "my-host.local")
is_valid_hostname_iff_example = is_valid_hostname_iff (bytes "my-host.local")

validate_addr_iff_example :
    (validate_addr sample_net (bytes "localhost:8080") "listen_addr" ≡ none)
    ↔ IsAddr sample_net (bytes "localhost:8080")
validate_addr_iff_example = validate_addr_iff sample_net (bytes "localhost:8080") "listen_addr"

validate_backend_address_iff_example :
    (validate_backend_address sample_net (bytes "unix:///run/a.sock") ≡ none) ↔ (
      IsSocket sample_net (bytes "unix:///run/a.sock")
      ⊎ IsWebUrl sample_net (bytes "unix:///run/a.sock")
      ⊎ IsTcp sample_net (bytes "unix:///run/a.sock"))
validate_backend_address_iff_example =
    validate_backend_address_iff sample_net (bytes "unix:///run/a.sock")

validate_iff_example :
    (validate sample_net one_service "file" ≡ none) ↔ IsValid sample_net one_service "file"
validate_iff_example = validate_iff sample_net one_service "file"

validate_file_path_iff_example :
    (validate_file_path (bytes "/run/secrets/key") ≡ none) ↔ IsSafePath (bytes "/run/secrets/key")
validate_file_path_iff_example = validate_file_path_iff (bytes "/run/secrets/key")

resolve_secret_with_fallback_iff_example :
    (resolve_secret_with_fallback sample_os "" "MISSING_KEY" "" "SAMPLE_KEY" ≡ ok "tskey")
    ↔ SourceOrFallback sample_os "" "MISSING_KEY" "" "SAMPLE_KEY" "tskey"
resolve_secret_with_fallback_iff_example =
    resolve_secret_with_fallback_iff sample_os "" "MISSING_KEY" "" "SAMPLE_KEY" "tskey"

process_loaded_config_iff_example :
    ((process_loaded_config_with_provider sample_net sample_os one_service "file").1
      ≡ ok one_service)
    ↔ IsReady sample_net sample_os one_service "file" one_service
process_loaded_config_iff_example =
    process_loaded_config_iff sample_net sample_os one_service "file" one_service

secrets_resolve : (out : Tailscale) × ((resolve_secrets sample_os sample_tailscale).1 ≡ ok out)
unfolding resolve_secrets resolve_client_id resolve_client_secret resolve_auth_key resolve_state_dir
    resolve_secret_with_fallback resolve_secret lookup
secrets_resolve = (record sample_tailscale { auth_key = "tskey"; auth_key_env = "" }, refl)

resolve_secrets-hides_example :
    (lookup "TS_AUTHKEY" (resolve_secrets sample_os sample_tailscale).0.env ≡ none)
    × (lookup "TS_AUTH_KEY" (resolve_secrets sample_os sample_tailscale).0.env ≡ none)
resolve_secrets-hides_example =
    resolve_secrets-hides sample_os sample_tailscale secrets_resolve.0 secrets_resolve.1

-- Tags in another order make no difference.
abbrev tagged : List String → Service
tagged tags = record (sample_service "web" "localhost:8080") { tags = some tags }

tags_in_any_order :
    service_config_equal (tagged ("tag:a" ∷ "tag:b" ∷ [])) (tagged ("tag:b" ∷ "tag:a" ∷ [])) ≡ true
unfolding service_config_equal slices_eq maps_eq sort lookup
tags_in_any_order = refl

tagged-HasMaps : (tags : List String) → HasMaps (tagged tags)
tagged-HasMaps tags = record { upstream_headers = tt; downstream_headers = tt }

service_config_equal_iff_example :
    (service_config_equal (tagged ("tag:a" ∷ "tag:b" ∷ [])) (tagged ("tag:b" ∷ "tag:a" ∷ []))
      ≡ true)
    ↔ SameSettings (tagged ("tag:a" ∷ "tag:b" ∷ [])) (tagged ("tag:b" ∷ "tag:a" ∷ []))
service_config_equal_iff_example =
    service_config_equal_iff (tagged ("tag:a" ∷ "tag:b" ∷ [])) (tagged ("tag:b" ∷ "tag:a" ∷ []))
      (tagged-HasMaps ("tag:a" ∷ "tag:b" ∷ [])) (tagged-HasMaps ("tag:b" ∷ "tag:a" ∷ []))

redacted-with_secrets_example :
    (redacted (with_secrets "one" "" one_service) ≡ redacted (with_secrets "two" "" one_service))
    × (tailscale_string (with_secrets "one" "" one_service).tailscale
        ≡ tailscale_string (with_secrets "two" "" one_service).tailscale)
redacted-with_secrets_example = redacted-with_secrets one_service "one" "two" "" "" refl refl
