-- ===== src/Docker/Cached.antt =====
-- About Load: the Tailscale settings that it caches.
use tsbridge.Prelude.{
  List, [], ◌∷◌, Option, none, some, Bool, true, or_else, All, ◌≡◌, refl, arith, Option-cases, inl,
  inr, ap, sym, subst, ◌∙◌,
}
use tsbridge.Errors.{Result, ok, err, Result-cases}
use tsbridge.Config.{Tailscale, Config}
use tsbridge.Config.Address.{Net}
use tsbridge.Config.Credentials.{Os}
use tsbridge.Config.Defaults.{set_tailscale_defaults, set_defaults, normalize}
use tsbridge.Config.Validate.{validate}
use tsbridge.Config.Process.{process_loaded_config_with_provider, resolve_secrets, unsetenv}
use tsbridge.Config.Loaded.{process_loaded_config_iff, prepared}
use tsbridge.Config.Settled.{IsSettled, unsetenv-IsSettled}
use tsbridge.Config.ResolvedTwice.{resolve_secrets-IsSettled, resolve_secrets-settled}
use tsbridge.Docker.{Daemon, Provider}
use tsbridge.Docker.Parse.{Readers}
use tsbridge.Docker.Load.{load, labelled_config, find_self_container, find_service_containers}

-- Settings that neither their defaults nor another resolution changes.
abbrev pub IsStable : Os → Tailscale → Type 0
IsStable os ts = IsSettled os ts × (set_tailscale_defaults ts ≡ ts)

set_defaults-IsStable :
    (os : Os) (ts : Tailscale) → IsSettled os ts → IsStable os (set_tailscale_defaults ts)
unfolding set_tailscale_defaults
set_defaults-IsStable os ts s = (
  record {
    client_id = s.client_id;
    client_secret = s.client_secret;
    auth_key = s.auth_key;
    state_dir = s.state_dir;
  },
  ap (λ (o : Option Bool). record ts { oauth_preauthorized = o })
      (or_else_twice ts.oauth_preauthorized),
)
  where
    or_else_twice :
        (o : Option Bool) → or_else (or_else o (some true)) (some true) ≡ or_else o (some true)
    or_else_twice none = refl
    or_else_twice (some b) = refl

-- The environment after processing is that after resolving the secrets.
process-os :
    (net : Net) (os : Os) (cfg : Config)
    → (process_loaded_config_with_provider net os cfg "docker").0
      ≡ (resolve_secrets os cfg.tailscale).0
unfolding process_loaded_config_with_provider
process-os net os cfg = elim (Result-cases (resolve_secrets os cfg.tailscale).1) [
  | inl (e, failed) ↦ ground arith
  | inr (ts, done) ↦ elim (Option-cases (validate net (prepared cfg ts) "docker")) [
    | inl valid ↦ ground arith
    | inr (e, failed) ↦ ground arith
  ]
]

-- The settings that come out of processing are stable.
process-IsStable :
    (net : Net) (os : Os) (cfg c : Config)
    → (process_loaded_config_with_provider net os cfg "docker").1 ≡ ok c
    → IsStable (process_loaded_config_with_provider net os cfg "docker").0 c.tailscale
unfolding normalize set_defaults
process-IsStable net os cfg c h =
    let ready = (process_loaded_config_iff net os cfg "docker" c).0 h in
    let settled = resolve_secrets-IsSettled os cfg.tailscale ready.secrets ready.resolves in
    subst (λ (o : Os). IsStable o c.tailscale) (sym (process-os net os cfg))
      (subst (λ (ts : Tailscale). IsStable (resolve_secrets os cfg.tailscale).0 ts)
        (sym (ap (λ (c : Config). c.tailscale) ready.is))
        (set_defaults-IsStable (resolve_secrets os cfg.tailscale).0 ready.secrets settled))

-- Stable settings come out of processing as they were, and stay stable.
process-stable :
    (net : Net) (os : Os) (cfg c : Config)
    → IsStable os cfg.tailscale
    → (process_loaded_config_with_provider net os cfg "docker").1 ≡ ok c
    → c.tailscale ≡ cfg.tailscale
unfolding normalize set_defaults
process-stable net os cfg c (settled, fixed) h =
    let ready = (process_loaded_config_iff net os cfg "docker" c).0 h in
    let same : ready.secrets ≡ cfg.tailscale =
      ground (arith, resolve_secrets-settled os cfg.tailscale settled, ready.resolves) in
    ap (λ (c : Config). c.tailscale) ready.is ∙ ap set_tailscale_defaults same ∙ fixed

process-os-IsStable :
    (net : Net) (os : Os) (cfg : Config)
    → IsStable os cfg.tailscale
    → IsStable (process_loaded_config_with_provider net os cfg "docker").0 cfg.tailscale
process-os-IsStable net os cfg (settled, fixed) = (
  subst (λ (o : Os). IsSettled o cfg.tailscale)
      (sym (
        process-os net os cfg
        ∙ ap (λ (q : Os × Result Tailscale). q.0)
            (resolve_secrets-settled os cfg.tailscale settled)))
      (unsetenv-IsSettled "TS_AUTH_KEY" (unsetenv "TS_AUTHKEY" os) cfg.tailscale
        (unsetenv-IsSettled "TS_AUTHKEY" os cfg.tailscale settled)),
  fixed,
)

-- The provider has cached the settings, and they are stable in its environment.
abbrev pub IsCached : Tailscale → Provider → Type 0
IsCached ts p = (p.cached_tailscale ≡ some ts) × IsStable p.os ts

-- What the labels say about Tailscale does not count once settings are cached.
labelled_config_again :
    (rd : Readers) (d : Daemon) (p : Provider) (ts : Tailscale) (cfg : Config)
    → p.cached_tailscale ≡ some ts
    → labelled_config rd d p ≡ ok cfg
    → cfg.tailscale ≡ ts
unfolding labelled_config
labelled_config_again rd d p ts cfg h k =
    elim (Result-cases (find_self_container d p.label_prefix)) [
      | inl (e, failed) ↦ absurd (ground arith)
      | inr (self, found) ↦ elim (Result-cases (find_service_containers d p.label_prefix)) [
        | inl (e, failed) ↦ absurd (ground arith)
        | inr (containers, listed) ↦ ground arith
      ]
    ]

-- The first load that returns a configuration caches its settings.
load-IsCached :
    (rd : Readers) (d : Daemon) (p : Provider) (cfg : Config)
    → p.cached_tailscale ≡ none
    → (load rd d p).1 ≡ ok cfg
    → IsCached cfg.tailscale (load rd d p).0
unfolding load
load-IsCached rd d p cfg h k = elim (Result-cases (labelled_config rd d p)) [
  | inl (e, failed) ↦ absurd (ground arith)
  | inr (labelled, found) ↦
      elim (Result-cases (process_loaded_config_with_provider rd.net p.os labelled "docker").1) [
        | inl (e, failed) ↦ absurd (ground arith)
        | inr (c, done) ↦
            let same : c ≡ cfg = ground arith in
            let left = (process_loaded_config_with_provider rd.net p.os labelled "docker").0 in
            let stable = process-IsStable rd.net p.os labelled c done in
            let os_is : (process_loaded_config_with_provider rd.net p.os labelled "docker").0
                ≡ (load rd d p).0.os =
              ground arith in
            (
              ground arith,
              subst (λ (o : Os). IsStable o cfg.tailscale) os_is
                  (subst (λ (c : Config). IsStable left c.tailscale) same stable),
            )
      ]
]

-- Every later load returns the cached settings, and keeps them.
load_again :
    (rd : Readers) (d : Daemon) (p : Provider) (ts : Tailscale)
    → IsCached ts p
    → IsCached ts (load rd d p).0 × ((cfg : Config) → (load rd d p).1 ≡ ok cfg → cfg.tailscale ≡ ts)
unfolding load
load_again rd d p ts (cached, stable) = elim (Result-cases (labelled_config rd d p)) [
  | inl (e, failed) ↦
      let same : (load rd d p).0 ≡ p = ground arith in
      (
        subst (λ (q : Provider). IsCached ts q) (sym same) (cached, stable),
        λ cfg k. absurd (ground arith),
      )
  | inr (labelled, found) ↦
      let is = labelled_config_again rd d p ts labelled cached found in
      let here = subst (λ (t : Tailscale). IsStable p.os t) (sym is) stable in
      let left = (process_loaded_config_with_provider rd.net p.os labelled "docker").0 in
      let after =
        subst (λ (t : Tailscale). IsStable left t) is
          (process-os-IsStable rd.net p.os labelled here) in
      elim (Result-cases (process_loaded_config_with_provider rd.net p.os labelled "docker").1) [
        | inl (e, failed) ↦
            let os_is : (process_loaded_config_with_provider rd.net p.os labelled "docker").0
                ≡ (load rd d p).0.os =
              ground arith in
            (
              (ground arith, subst (λ (o : Os). IsStable o ts) os_is after),
              λ cfg k. absurd (ground arith),
            )
        | inr (c, done) ↦
            let os_is : (process_loaded_config_with_provider rd.net p.os labelled "docker").0
                ≡ (load rd d p).0.os =
              ground arith in
            (
              (ground arith, subst (λ (o : Os). IsStable o ts) os_is after),
              λ cfg k.
                  let same : c ≡ cfg = ground arith in
                  ap (λ (c : Config). c.tailscale) (sym same)
                  ∙ process-stable rd.net p.os labelled c here done
                  ∙ is,
            )
      ]
]

-- The configurations that loads in a row return.
unfoldable pub loads : Readers → List Daemon → Provider → List Config
loads rd [] p = []
loads rd (d ∷ ds) p =
    let (p', loaded) = load rd d p in
    let rest = loads rd ds p' in elim loaded [ ok cfg ↦ cfg ∷ rest | err e ↦ rest ]

loads_again :
    (rd : Readers) (ds : List Daemon) (p : Provider) (ts : Tailscale)
    → IsCached ts p
    → All (λ (c : Config). c.tailscale ≡ ts) (loads rd ds p)
unfolding loads
loads_again rd [] p ts h = tt
loads_again rd (d ∷ ds) p ts h =
    let (kept, same) = load_again rd d p ts h in
    let rest = loads_again rd ds (load rd d p).0 ts kept in
    elim (Result-cases (load rd d p).1) [
      | inl (e, failed) ↦ rw (failed, All) rest
      | inr (cfg, loaded) ↦ rw (loaded, All) (same cfg loaded, rest)
    ]

-- Once a first load has returned a configuration, every configuration that a later load returns has
-- the same Tailscale settings, whatever the labels then say, although the variables of the auth key
-- have been removed from the environment.
pub loads-same_tailscale :
    (rd : Readers) (d : Daemon) (later : List Daemon) (p : Provider) (cfg : Config)
    → p.cached_tailscale ≡ none
    → (load rd d p).1 ≡ ok cfg
    → All (λ (c : Config). c.tailscale ≡ cfg.tailscale) (loads rd later (load rd d p).0)
loads-same_tailscale rd d later p cfg h k =
    loads_again rd later (load rd d p).0 cfg.tailscale (load-IsCached rd d p cfg h k)
