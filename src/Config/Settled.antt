-- ===== src/Config/Settled.antt =====
-- About resolving the secrets of settings that have been resolved before.
use tsbridge.Prelude.Assoc.{lookup-delete}
use tsbridge.Prelude.{String, ◌≡◌, ◌≢◌, ◌⊎◌, arith, str_eq, str_eq_iff, inl, inr, if◌then◌else◌}
use tsbridge.Errors.{ok, Result-cases, Message, text}
use tsbridge.Config.Credentials.{Os, getenv, resolve_secret, resolve_secret_with_fallback}
use tsbridge.Config.Process.{
  resolve_credential, resolve_client_id, resolve_client_secret, resolve_auth_key, unsetenv,
}
use tsbridge.Config.{Tailscale}

-- Nothing is left to look up: the value is there, or the fallback variable is empty too.
abbrev IsSettledSecret : Os → (value env_var file_path fallback : String) → Type 0
IsSettledSecret os value env_var file_path fallback =
    (env_var ≡ "") × (file_path ≡ "") × ((value ≢ "") ⊎ (getenv os fallback ≡ ""))

pub record IsSettled (os : Os) (ts : Tailscale) : Type 0 where
  pub client_id :
      IsSettledSecret os ts.oauth_client_id ts.oauth_client_id_env ts.oauth_client_id_file
        "TS_OAUTH_CLIENT_ID"
  pub client_secret :
      IsSettledSecret os ts.oauth_client_secret ts.oauth_client_secret_env
        ts.oauth_client_secret_file "TS_OAUTH_CLIENT_SECRET"
  pub auth_key : IsSettledSecret os ts.auth_key ts.auth_key_env ts.auth_key_file "TS_AUTHKEY"
  pub state_dir : (ts.state_dir ≢ "") ⊎ (ts.state_dir_env ≡ "")

resolve_credential-settles :
    (os : Os) (value env_var file_path fallback v e f : String) (message : Message)
    → fallback ≢ ""
    → resolve_credential os value env_var file_path fallback message ≡ ok (v, e, f)
    → IsSettledSecret os v e f fallback
unfolding resolve_credential resolve_secret_with_fallback
resolve_credential-settles os value env_var file_path fallback v e f message filled h =
    elim (Result-cases (resolve_secret os value env_var file_path)) [
      | inl (x, failed) ↦ ground (
        arith,
        str_eq_iff env_var "",
        str_eq_iff file_path "",
        str_eq_iff value "",
        str_eq_iff (getenv os fallback) "",
        str_eq_iff v "",
      )
      | inr (found, done) ↦ ground (
        arith,
        str_eq_iff env_var "",
        str_eq_iff file_path "",
        str_eq_iff value "",
        str_eq_iff (getenv os fallback) "",
        str_eq_iff v "",
        str_eq_iff found "",
        str_eq_iff fallback "",
      )
    ]

resolve_credential-settled :
    (os : Os) (v e f fallback : String) (message : Message)
    → IsSettledSecret os v e f fallback
    → resolve_credential os v e f fallback message ≡ ok (v, e, f)
unfolding resolve_credential resolve_secret_with_fallback resolve_secret
resolve_credential-settled os v e f fallback message (no_env, no_file, h) =
    ground
      (arith, str_eq_iff e "", str_eq_iff f "", str_eq_iff v "", str_eq_iff (getenv os fallback) "")

getenv-unsetenv :
    (name other : String) (os : Os)
    → getenv (unsetenv name os) other ≡ (if str_eq name other then "" else getenv os other)
unfolding unsetenv
getenv-unsetenv name other os = ground (arith, lookup-delete name other os.env)

unsetenv-IsSettledSecret :
    (name : String) (os : Os) (v e f fallback : String)
    → IsSettledSecret os v e f fallback
    → IsSettledSecret (unsetenv name os) v e f fallback
unsetenv-IsSettledSecret name os v e f fallback (no_env, no_file, inl there) =
    (no_env, no_file, inl there)
unsetenv-IsSettledSecret name os v e f fallback (no_env, no_file, inr missing) =
    (no_env, no_file, inr (ground (arith, getenv-unsetenv name fallback os)))

pub unsetenv-IsSettled :
    (name : String) (os : Os) (ts : Tailscale) → IsSettled os ts → IsSettled (unsetenv name os) ts
unsetenv-IsSettled name os ts s = record {
  client_id = unsetenv-IsSettledSecret name os _ _ _ _ s.client_id;
  client_secret = unsetenv-IsSettledSecret name os _ _ _ _ s.client_secret;
  auth_key = unsetenv-IsSettledSecret name os _ _ _ _ s.auth_key;
  state_dir = s.state_dir;
}

pub resolve_client_id-settles :
    (os : Os) (ts out : Tailscale)
    → resolve_client_id os ts ≡ ok out
    → (v : String) × (e : String) × (f : String) × IsSettledSecret os v e f "TS_OAUTH_CLIENT_ID"
      × (out ≡ record ts { oauth_client_id = v; oauth_client_id_env = e; oauth_client_id_file = f })
unfolding resolve_client_id
resolve_client_id-settles os ts out h =
    let message = text "resolving OAuth client ID: %w" in
    elim (Result-cases (
      resolve_credential os ts.oauth_client_id ts.oauth_client_id_env ts.oauth_client_id_file
        "TS_OAUTH_CLIENT_ID" message)) [
          | inl (x, failed) ↦ absurd (ground arith)
          | inr ((v, e, f), done) ↦ (
            v,
            e,
            f,
            resolve_credential-settles os ts.oauth_client_id ts.oauth_client_id_env
                ts.oauth_client_id_file "TS_OAUTH_CLIENT_ID" v e f message (λ no_name. cc) done,
            ground arith,
          )
        ]

pub resolve_client_id-settled :
    (os : Os) (ts : Tailscale)
    → IsSettledSecret os ts.oauth_client_id ts.oauth_client_id_env ts.oauth_client_id_file
        "TS_OAUTH_CLIENT_ID"
    → resolve_client_id os ts ≡ ok ts
unfolding resolve_client_id
resolve_client_id-settled os ts h = ground (
  arith,
  resolve_credential-settled os ts.oauth_client_id ts.oauth_client_id_env ts.oauth_client_id_file
      "TS_OAUTH_CLIENT_ID" (text "resolving OAuth client ID: %w") h,
)

pub resolve_client_secret-settles :
    (os : Os) (ts out : Tailscale)
    → resolve_client_secret os ts ≡ ok out
    → (v : String) × (e : String) × (f : String) × IsSettledSecret os v e f "TS_OAUTH_CLIENT_SECRET"
      × (out ≡ record ts {
        oauth_client_secret = v;
        oauth_client_secret_env = e;
        oauth_client_secret_file = f;
      })
unfolding resolve_client_secret
resolve_client_secret-settles os ts out h =
    let message = text "resolving OAuth client secret: %w" in
    elim (Result-cases (
      resolve_credential os ts.oauth_client_secret ts.oauth_client_secret_env
        ts.oauth_client_secret_file "TS_OAUTH_CLIENT_SECRET" message)) [
          | inl (x, failed) ↦ absurd (ground arith)
          | inr ((v, e, f), done) ↦ (
            v,
            e,
            f,
            resolve_credential-settles os ts.oauth_client_secret ts.oauth_client_secret_env
                ts.oauth_client_secret_file "TS_OAUTH_CLIENT_SECRET" v e f message (λ no_name. cc)
                done,
            ground arith,
          )
        ]

pub resolve_client_secret-settled :
    (os : Os) (ts : Tailscale)
    → IsSettledSecret os ts.oauth_client_secret ts.oauth_client_secret_env
        ts.oauth_client_secret_file "TS_OAUTH_CLIENT_SECRET"
    → resolve_client_secret os ts ≡ ok ts
unfolding resolve_client_secret
resolve_client_secret-settled os ts h = ground (
  arith,
  resolve_credential-settled os ts.oauth_client_secret ts.oauth_client_secret_env
      ts.oauth_client_secret_file "TS_OAUTH_CLIENT_SECRET"
      (text "resolving OAuth client secret: %w") h,
)

pub resolve_auth_key-settles :
    (os : Os) (ts out : Tailscale)
    → resolve_auth_key os ts ≡ ok out
    → (v : String) × (e : String) × (f : String) × IsSettledSecret os v e f "TS_AUTHKEY"
      × (out ≡ record ts { auth_key = v; auth_key_env = e; auth_key_file = f })
unfolding resolve_auth_key
resolve_auth_key-settles os ts out h =
    let message = text "resolving auth key: %w" in
    elim (Result-cases
      (resolve_credential os ts.auth_key ts.auth_key_env ts.auth_key_file "TS_AUTHKEY" message)) [
        | inl (x, failed) ↦ absurd (ground arith)
        | inr ((v, e, f), done) ↦ (
          v,
          e,
          f,
          resolve_credential-settles os ts.auth_key ts.auth_key_env ts.auth_key_file "TS_AUTHKEY" v
              e f message (λ no_name. cc) done,
          ground arith,
        )
      ]

pub resolve_auth_key-settled :
    (os : Os) (ts : Tailscale)
    → IsSettledSecret os ts.auth_key ts.auth_key_env ts.auth_key_file "TS_AUTHKEY"
    → resolve_auth_key os ts ≡ ok ts
unfolding resolve_auth_key
resolve_auth_key-settled os ts h = ground (
  arith,
  resolve_credential-settled os ts.auth_key ts.auth_key_env ts.auth_key_file "TS_AUTHKEY"
      (text "resolving auth key: %w") h,
)
