-- ===== src/Config/Process.antt =====
-- internal/config/config.go: resolveSecrets and ProcessLoadedConfigWithProvider.
use tsbridge.Prelude.Assoc.{delete}
use tsbridge.Prelude.{String, [], ◌∷◌, Option, none, some, ◌&&◌, ◌||◌, if◌then◌else◌, str_eq}
use tsbridge.Errors.{
  Err, Result, ok, err, wrapping, plain, wrap_provider_error, config, str, text, Message,
}
use tsbridge.Config.Defaults.{set_defaults, normalize}
use tsbridge.Config.Address.{Net}
use tsbridge.Config.Validate.{is_set, validate}
use tsbridge.Config.Credentials.{Os, getenv, resolve_secret_with_fallback}
use tsbridge.Config.{Tailscale, Config}

-- One of the three blocks: the value, the environment variable and the file of a credential.
unfoldable pub resolve_credential :
    Os → (value env_var file_path fallback : String) → Message → Result (String × String × String)
resolve_credential os value env_var file_path fallback message =
    if is_set env_var || (is_set file_path || is_set value)
    then elim (resolve_secret_with_fallback os value env_var file_path fallback) [
      | err e ↦ err (wrapping message e)
      | ok resolved ↦ ok (resolved, "", "")
    ]
    else if is_set (getenv os fallback)
    then ok (getenv os fallback, env_var, file_path)
    else ok (value, env_var, file_path)

unfoldable pub resolve_client_id : Os → Tailscale → Result Tailscale
unfolding resolve_credential
resolve_client_id os ts =
    elim (resolve_credential os ts.oauth_client_id ts.oauth_client_id_env ts.oauth_client_id_file
      "TS_OAUTH_CLIENT_ID" (text "resolving OAuth client ID: %w")) [
        | err e ↦ err e
        | ok (value, env_var, file_path) ↦ ok (record ts {
          oauth_client_id = value;
          oauth_client_id_env = env_var;
          oauth_client_id_file = file_path;
        })
      ]

unfoldable pub resolve_client_secret : Os → Tailscale → Result Tailscale
unfolding resolve_credential
resolve_client_secret os ts =
    elim (resolve_credential os ts.oauth_client_secret ts.oauth_client_secret_env
      ts.oauth_client_secret_file "TS_OAUTH_CLIENT_SECRET"
      (text "resolving OAuth client secret: %w")) [
        | err e ↦ err e
        | ok (value, env_var, file_path) ↦ ok (record ts {
          oauth_client_secret = value;
          oauth_client_secret_env = env_var;
          oauth_client_secret_file = file_path;
        })
      ]

unfoldable pub resolve_auth_key : Os → Tailscale → Result Tailscale
unfolding resolve_credential
resolve_auth_key os ts =
    elim (resolve_credential os ts.auth_key ts.auth_key_env ts.auth_key_file "TS_AUTHKEY"
      (text "resolving auth key: %w")) [
        | err e ↦ err e
        | ok (value, env_var, file_path) ↦
            ok (record ts { auth_key = value; auth_key_env = env_var; auth_key_file = file_path })
      ]

-- `os.Unsetenv`
unfoldable pub unsetenv : String → Os → Os
unsetenv name os = record os { env = delete name os.env }

unfoldable pub resolve_state_dir : Os → Tailscale → Result Tailscale
resolve_state_dir os ts =
    if str_eq ts.state_dir "" && is_set ts.state_dir_env
    then if str_eq (getenv os ts.state_dir_env) ""
      then err (
          plain (record {
            format = "resolving state directory: environment variable %q is not set";
            args = str ts.state_dir_env ∷ [];
          }))
      else ok (record ts { state_dir = getenv os ts.state_dir_env; state_dir_env = "" })
    else ok ts

-- The environment after the call, and the configuration with its secrets.
unfoldable pub resolve_secrets : Os → Tailscale → Os × Result Tailscale
unfolding resolve_client_id resolve_client_secret resolve_auth_key unsetenv resolve_state_dir
resolve_secrets os ts = elim (resolve_client_id os ts) [
  | err e ↦ (os, err e)
  | ok ts1 ↦ elim (resolve_client_secret os ts1) [
    | err e ↦ (os, err e)
    | ok ts2 ↦ elim (resolve_auth_key os ts2) [
      | err e ↦ (os, err e)
      | ok ts3 ↦
          let cleared = unsetenv "TS_AUTH_KEY" (unsetenv "TS_AUTHKEY" os) in
          (cleared, resolve_state_dir cleared ts3)
    ]
  ]
]

-- What a caller gets of a call that returns an error or nil and has changed the configuration.
abbrev pub finish : Option Err → Config → Result Config
finish none cfg = ok cfg
finish (some e) cfg = err e

unfoldable pub process_loaded_config_with_provider : Net → Os → Config → String → Os × Result Config
process_loaded_config_with_provider net os cfg provider =
    let (os1, resolved) = resolve_secrets os cfg.tailscale in
    elim resolved [
      | err e ↦ (
        os1,
        finish (wrap_provider_error (some e) provider config (text "resolving secrets")) cfg,
      )
      | ok ts ↦
          let ready = normalize (set_defaults (record cfg { tailscale = ts })) in
          elim (validate net ready provider) [
            | some e ↦ (
              os1,
              finish (wrap_provider_error (some e) provider config (text "validating config"))
                  ready,
            )
            | none ↦ (os1, ok ready)
          ]
    ]

unfoldable pub process_loaded_config : Net → Os → Config → Os × Result Config
process_loaded_config net os cfg = process_loaded_config_with_provider net os cfg "unknown"
