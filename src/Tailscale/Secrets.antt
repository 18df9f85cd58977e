-- ===== src/Tailscale/Secrets.antt =====
-- internal/tailscale/oauth.go, and the checks of credentials in tailscale.go.
-- `Api` holds what the Tailscale API and the library of retries answer to each attempt.
use Prim.Native.String.{◌++◌ as append}
use tsbridge.Prelude.{
  ℕ, String, List, [], ◌∷◌, Option, none, some, Bool, true, false, ◌&&◌, ◌||◌, not, deref, or_else,
  ltb, leb, ◌==◌, if◌then◌else◌, str_eq,
}
use tsbridge.Constants.{retry_max_attempts, auth_key_expiry_seconds}
use tsbridge.Errors.{
  Err, Result, ok, err, network, wrap_network, wrap_internal, new_config_error,
  new_network_error_with_status, is_type, text, num, as_target, typed, typed_over, type_eq,
}
use tsbridge.Config.{Tailscale, Service}
use tsbridge.Config.Validate.{is_set}
use tsbridge.Config.Credentials.{Os, getenv}

-- `authKeyRequest` with its capabilities.
pub record AuthKeyRequest : Type 0 where
  pub expiry_seconds : ℕ
  pub tags : Option (List String)
  pub reusable : Bool
  pub ephemeral : Bool
  pub preauthorized : Bool

-- The answer to one request: no response, or a status with the key that its body decodes to.
pub data Response : Type 0 where
  unreachable : Err → Response
  answered : (status_code : ℕ) → Result String → Response

-- What an attempt of the operation to retry comes to: a key, an error to retry, or a permanent one.
pub data Outcome : Type 0 where
  key : String → Outcome
  again : Err → Outcome
  permanent : Err → Outcome

-- The key or the error of an attempt; the mark of a permanent error is taken off.
unfoldable pub outcome : Outcome → Result String
outcome (key k) = ok k
outcome (again e) = err e
outcome (permanent e) = err e

pub record Api : Type 0 where
  -- The response to an attempt, of the token URL, the base URL and the request.
  pub respond : (attempt : ℕ) → (token_url api_base : String) → AuthKeyRequest → Response
  -- `backoff.Retry` with `WithMaxRetries`: how many attempts it makes of an operation.
  pub retry : (max_retries : ℕ) → (operation : (attempt : ℕ) → Outcome) → ℕ
  -- Whether the text of an error says timeout, connection refused or no such host.
  pub is_transient_text : Err → Bool

-- The target `*Error`: its type and its HTTP status.
abbrev as_status : Err → Option (Bool × ℕ)
as_status (typed t m c) = some (type_eq t network, c)
as_status (typed_over t m c e) = some (type_eq t network, c)
as_status _ = none

unfoldable pub validate_tailscale_secrets : Tailscale → Option Err
validate_tailscale_secrets cfg =
    if is_set cfg.auth_key
    then none
    else if is_set cfg.oauth_client_id && is_set cfg.oauth_client_secret
    then none
    else if str_eq cfg.oauth_client_id "" && str_eq cfg.oauth_client_secret ""
    then some (
        new_config_error
          (text "either auth key or OAuth credentials (client ID and secret) must be provided"))
    else if str_eq cfg.oauth_client_id ""
    then some (new_config_error (text "OAuth client ID is missing"))
    else some (new_config_error (text "OAuth client secret is missing"))

module _ (api : Api) where
  unfoldable pub is_retryable_error : Err → Bool
  unfolding as_target
  is_retryable_error e = elim (as_target as_status e) [
    | none ↦ false
    | some (is_network, status) ↦
        is_network && ((leb 500 status && ltb status 600) || api.is_transient_text e)
  ]

  -- The request, the status and the body. The standard library's encoding of the request and its
  -- construction do not fail.
  unfoldable pub generate_auth_key_direct :
      (attempt : ℕ) → (token_url api_base : String) → AuthKeyRequest → Result String
  generate_auth_key_direct attempt token_url api_base request =
      elim (api.respond attempt token_url api_base request) [
        | unreachable e ↦ err (wrap_network (some e) (text "making request"))
        | answered status body ↦
            if not (status == 200)
            then err (
                new_network_error_with_status
                  (record { format = "API returned status %d: %v"; args = num status ∷ [] }) status)
            else elim body [
              | err e ↦ err (wrap_internal (some e) (text "decoding response"))
              | ok k ↦ ok k
            ]
      ]

  -- The operation to retry.
  unfoldable pub operation :
      (attempt : ℕ) → (token_url api_base : String) → AuthKeyRequest → Outcome
  unfolding generate_auth_key_direct is_retryable_error
  operation attempt token_url api_base request =
      elim (generate_auth_key_direct attempt token_url api_base request) [
        | ok k ↦ key k
        | err e ↦ if is_type (some e) network || is_retryable_error e then again e else permanent e
      ]

  -- The number of attempts, and the key or the error of the last one.
  unfoldable pub generate_auth_key_with_oauth :
      (token_url api_base : String) → AuthKeyRequest → ℕ × Result String
  unfolding operation outcome
  generate_auth_key_with_oauth token_url api_base request =
      let attempts =
        api.retry retry_max_attempts (λ attempt. operation attempt token_url api_base request) in
      (attempts, outcome (operation attempts token_url api_base request))

  -- The endpoint of the API, and the one that the environment sets.
  unfoldable pub endpoints : Os → String × String
  endpoints os =
      if is_set (getenv os "TSBRIDGE_OAUTH_ENDPOINT")
      then (
        append (getenv os "TSBRIDGE_OAUTH_ENDPOINT") "/api/v2/oauth/token",
        getenv os "TSBRIDGE_OAUTH_ENDPOINT",
      )
      else ("https://api.tailscale.com/api/v2/oauth/token", "https://api.tailscale.com")

  unfoldable pub auth_key_request : Tailscale → Service → AuthKeyRequest
  auth_key_request ts svc = record {
    expiry_seconds = auth_key_expiry_seconds;
    tags = svc.tags;
    reusable = false;
    ephemeral = svc.ephemeral;
    preauthorized = deref (or_else svc.oauth_preauthorized ts.oauth_preauthorized) true;
  }

  unfoldable pub generate_or_resolve_auth_key : Os → Tailscale → Service → Result String
  unfolding generate_auth_key_with_oauth endpoints auth_key_request
  generate_or_resolve_auth_key os ts svc =
      let (token_url, api_base) = endpoints os in
      if is_set ts.oauth_client_id && is_set ts.oauth_client_secret
      then (generate_auth_key_with_oauth token_url api_base (auth_key_request ts svc)).1
      else if is_set ts.auth_key
      then ok ts.auth_key
      else err (new_config_error (text "no authentication method configured"))
