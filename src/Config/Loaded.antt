-- ===== src/Config/Loaded.antt =====
-- What a caller may rely on of a configuration that ProcessLoadedConfigWithProvider returns.
use tsbridge.Prelude.Assoc.{lookup, delete, lookup-delete}
use tsbridge.Prelude.{String, none, All, ◌≡◌, ◌↔◌, arith, Option-cases, inl, inr}
use tsbridge.Errors.{ok, wrap_provider_error}
use tsbridge.Errors.{Result-cases}
use tsbridge.Config.Defaults.{set_defaults, normalize}
use tsbridge.Config.Resolved.{IsResolved, normalize-set_defaults-IsResolved}
use tsbridge.Config.Address.{Net}
use tsbridge.Config.Accepts.{IsValid, validate_iff}
use tsbridge.Config.Validate.{validate}
use tsbridge.Config.Credentials.{Os}
use tsbridge.Config.Process.{
  resolve_secrets, resolve_client_id, resolve_client_secret, resolve_auth_key, unsetenv,
  process_loaded_config_with_provider,
}
use tsbridge.Config.{Tailscale, Config}

-- The configuration that is validated once the secrets are known.
abbrev pub prepared : Config → Tailscale → Config
prepared cfg ts = normalize (set_defaults (record cfg { tailscale = ts }))

pub record IsReady (net : Net) (os : Os) (cfg : Config) (provider : String) (c : Config)
    : Type 0 where
  pub secrets : Tailscale
  pub resolves : (resolve_secrets os cfg.tailscale).1 ≡ ok secrets
  pub is : c ≡ prepared cfg secrets
  pub is_valid : IsValid net c provider

-- Loading returns a configuration exactly if the secrets resolve and the configuration with
-- them, its defaults and the values its services inherit is valid; it returns that one.
pub process_loaded_config_iff :
    (net : Net) (os : Os) (cfg : Config) (provider : String) (c : Config)
    → ((process_loaded_config_with_provider net os cfg provider).1 ≡ ok c)
      ↔ IsReady net os cfg provider c
unfolding process_loaded_config_with_provider wrap_provider_error
process_loaded_config_iff net os cfg provider c = (to, from)
  where
    to :
        (process_loaded_config_with_provider net os cfg provider).1 ≡ ok c
        → IsReady net os cfg provider c
    to h = elim (Result-cases (resolve_secrets os cfg.tailscale).1) [
      | inl (e, failed) ↦ ground arith
      | inr (ts, done) ↦ elim (Option-cases (validate net (prepared cfg ts) provider)) [
        | inr (e, failed) ↦ ground arith
        | inl valid ↦
            let same : prepared cfg ts ≡ c = ground arith in
            record {
              secrets = ts;
              resolves = done;
              is = (ground arith);
              is_valid = (validate_iff net c provider).0 (ground arith);
            }
      ]
    ]

    from :
        IsReady net os cfg provider c
        → (process_loaded_config_with_provider net os cfg provider).1 ≡ ok c
    from l =
        let valid = (validate_iff net c provider).1 l.is_valid in
        ground (arith, valid, l.is, l.resolves)

-- Every service of a loaded configuration has all its settings.
pub process_loaded_config-IsResolved :
    (net : Net) (os : Os) (cfg : Config) (provider : String) (c : Config)
    → (process_loaded_config_with_provider net os cfg provider).1 ≡ ok c
    → All IsResolved c.services
process_loaded_config-IsResolved net os cfg provider c h =
    let l = (process_loaded_config_iff net os cfg provider c).0 h in
    rw l.is (normalize-set_defaults-IsResolved (record cfg { tailscale = l.secrets }))

-- Once the secrets have been resolved without an error, neither of the two variables for an auth
-- key is set in the environment any more.
pub resolve_secrets-hides :
    (os : Os) (ts out : Tailscale)
    → (resolve_secrets os ts).1 ≡ ok out
    → (lookup "TS_AUTHKEY" (resolve_secrets os ts).0.env ≡ none)
      × (lookup "TS_AUTH_KEY" (resolve_secrets os ts).0.env ≡ none)
unfolding resolve_secrets unsetenv
resolve_secrets-hides os ts out h = elim (Result-cases (resolve_client_id os ts)) [
  | inl (e, failed) ↦ ground arith
  | inr (ts1, one) ↦ elim (Result-cases (resolve_client_secret os ts1)) [
    | inl (e, failed) ↦ ground arith
    | inr (ts2, two) ↦ elim (Result-cases (resolve_auth_key os ts2)) [
      | inl (e, failed) ↦ ground arith
      | inr (ts3, three) ↦
          let without = delete "TS_AUTHKEY" os.env in
          (
            ground (
              arith,
              lookup-delete "TS_AUTH_KEY" "TS_AUTHKEY" without,
              lookup-delete "TS_AUTHKEY" "TS_AUTHKEY" os.env,
            ),
            ground (arith, lookup-delete "TS_AUTH_KEY" "TS_AUTH_KEY" without),
          )
    ]
  ]
]
