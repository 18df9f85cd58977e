-- ===== src/Config/Redact.antt =====
-- internal/config/redact.go: a configuration for the logs; and the String method of Tailscale.
-- What `String` writes is a list of labels with the values after them; a value that fmt prints with
-- `%v` is `many`.
use tsbridge.Prelude.{String, List, [], ◌∷◌, Option, deref, if◌then◌else◌, ◌≡◌, arith, refl}
use tsbridge.Config.Validate.{is_set}
use tsbridge.Config.{Tailscale, Global, Service, Config}

pub record RedactedTailscale : Type 0 where
  pub oauth_client_id : String
  pub oauth_client_id_env : String
  pub oauth_client_id_file : String
  pub oauth_client_secret : String
  pub oauth_client_secret_env : String
  pub oauth_client_secret_file : String
  pub auth_key : String
  pub auth_key_env : String
  pub auth_key_file : String
  pub state_dir : String
  pub default_tags : Option (List String)

pub record RedactedConfig : Type 0 where
  pub tailscale : RedactedTailscale
  pub global : Global
  pub services : List Service

-- A mask for a secret that is set.
abbrev pub masked : String → String
masked secret = if is_set secret then "[REDACTED]" else ""

unfoldable pub redacted : Config → RedactedConfig
redacted c = record {
  tailscale = record {
    oauth_client_id = c.tailscale.oauth_client_id;
    oauth_client_id_env = c.tailscale.oauth_client_id_env;
    oauth_client_id_file = c.tailscale.oauth_client_id_file;
    oauth_client_secret = masked c.tailscale.oauth_client_secret;
    oauth_client_secret_env = c.tailscale.oauth_client_secret_env;
    oauth_client_secret_file = c.tailscale.oauth_client_secret_file;
    auth_key = masked c.tailscale.auth_key;
    auth_key_env = c.tailscale.auth_key_env;
    auth_key_file = c.tailscale.auth_key_file;
    state_dir = c.tailscale.state_dir;
    default_tags = c.tailscale.default_tags;
  };
  global = c.global;
  services = c.services;
}

pub data Field : Type 0 where
  one : (label value : String) → Field
  many : (label : String) → List String → Field

unfoldable pub tailscale_string : Tailscale → List Field
tailscale_string t =
    one "OAuthClientID" t.oauth_client_id
    ∷ one "OAuthClientIDEnv" t.oauth_client_id_env
    ∷ one "OAuthClientIDFile" t.oauth_client_id_file
    ∷ one "OAuthClientSecret" (masked t.oauth_client_secret)
    ∷ one "OAuthClientSecretEnv" t.oauth_client_secret_env
    ∷ one "OAuthClientSecretFile" t.oauth_client_secret_file
    ∷ one "AuthKey" (masked t.auth_key)
    ∷ one "AuthKeyEnv" t.auth_key_env
    ∷ one "AuthKeyFile" t.auth_key_file
    ∷ one "StateDir" t.state_dir
    ∷ one "StateDirEnv" t.state_dir_env
    ∷ many "DefaultTags" (deref t.default_tags [])
    ∷ one "ControlURL" t.control_url
    ∷ []

-- A configuration with other secrets.
abbrev pub with_secrets : String → String → Config → Config
with_secrets secret key c = record c {
  tailscale = record c.tailscale { oauth_client_secret = secret; auth_key = key };
}

masked_same : (s t : String) → is_set s ≡ is_set t → masked s ≡ masked t
masked_same s t h = ground arith

-- Two configurations that differ in the values of the OAuth secret and the auth key only, and in
-- which the same of the two are set, have one redacted form and are printed alike.
pub redacted-with_secrets :
    (c : Config) (s t k l : String)
    → is_set s ≡ is_set t
    → is_set k ≡ is_set l
    → (redacted (with_secrets s k c) ≡ redacted (with_secrets t l c))
      × (tailscale_string (with_secrets s k c).tailscale
          ≡ tailscale_string (with_secrets t l c).tailscale)
unfolding redacted tailscale_string
redacted-with_secrets c s t k l hs hk =
    let secret = masked_same s t hs in
    let key = masked_same k l hk in (rw (secret, key) refl, rw (secret, key) refl)
