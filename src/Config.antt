-- ===== src/Config.antt =====
-- internal/config/config.go: the configuration as data.
-- A pointer to a scalar that may be nil is `Option`; so is a slice that the code tells from nil. A
-- string map is an association list; durations and sizes are signed integers.
pub mod Defaults
pub mod Resolved
pub mod Hostname
pub mod Timeout
pub mod Address
pub mod Backend
pub mod Validate
pub mod Valid
pub mod ValidService
pub mod Accepts
pub mod FilePath
pub mod Credentials
pub mod Secrets
pub mod ByteSize
pub mod Process
pub mod Settled
pub mod ResolvedTwice
pub mod Loaded
pub mod Compare
pub mod Sorted
pub mod SameMap
pub mod SameSettings
pub mod Redact
pub mod Equivalence
use tsbridge.Prelude.Int.{ℤ}
use tsbridge.Prelude.{String, List, Option, Bool}

pub record Tailscale : Type 0 where
  pub oauth_client_id : String
  pub oauth_client_id_env : String
  pub oauth_client_id_file : String
  pub oauth_client_secret : String
  pub oauth_client_secret_env : String
  pub oauth_client_secret_file : String
  pub auth_key : String
  pub auth_key_env : String
  pub auth_key_file : String
  pub state_dir : String
  pub state_dir_env : String
  pub default_tags : Option (List String)
  pub control_url : String
  pub oauth_preauthorized : Option Bool

pub record Global : Type 0 where
  pub flush_interval : Option ℤ
  pub access_log : Option Bool
  pub trusted_proxies : List String
  pub metrics_addr : String
  pub response_header_timeout : Option ℤ
  pub shutdown_timeout : Option ℤ
  pub startup_timeout : Option ℤ
  pub write_timeout : Option ℤ
  pub idle_timeout : Option ℤ
  pub read_header_timeout : Option ℤ
  pub max_request_body_size : Option ℤ
  pub dial_timeout : Option ℤ
  pub keep_alive_timeout : Option ℤ
  pub idle_conn_timeout : Option ℤ
  pub tls_handshake_timeout : Option ℤ
  pub expect_continue_timeout : Option ℤ
  pub metrics_read_header_timeout : Option ℤ

pub record Service : Type 0 where
  pub name : String
  pub backend_addr : String
  pub listen_addr : String
  pub whois_enabled : Option Bool
  pub whois_timeout : Option ℤ
  pub tls_mode : String
  pub tags : Option (List String)
  pub startup_timeout : Option ℤ
  pub read_header_timeout : Option ℤ
  pub write_timeout : Option ℤ
  pub idle_timeout : Option ℤ
  pub response_header_timeout : Option ℤ
  pub access_log : Option Bool
  pub max_request_body_size : Option ℤ
  pub funnel_enabled : Option Bool
  pub ephemeral : Bool
  pub oauth_preauthorized : Option Bool
  pub flush_interval : Option ℤ
  pub insecure_skip_verify : Option Bool
  pub upstream_headers : List (String × String)
  pub downstream_headers : List (String × String)
  pub remove_upstream : List String
  pub remove_downstream : List String

pub record Config : Type 0 where
  pub tailscale : Tailscale
  pub global : Global
  pub services : List Service
