-- ===== src/App/Program.antt =====
-- The parts together: validated configurations, the registry that starts the first of them, and
-- the reloads that bring the later ones, with the program's own comparison of services.
use tsbridge.Prelude.{
  ℕ, String, List, [], ◌∷◌, Option, none, some, Bool, false, ◌≡◌, arith, All, inl,
}
use tsbridge.Errors.{Err}
use tsbridge.Config.{Service, Config}
use tsbridge.Config.Address.{Net}
use tsbridge.Config.Validate.{validate}
use tsbridge.Config.Accepts.{validate_iff}
use tsbridge.Config.Compare.{service_config_equal}
use tsbridge.Config.Equivalence.{service_config_equal_trans}
use tsbridge.Service.{Host, Collector}
use tsbridge.Service.Operations.{new_registry, start_services}
use tsbridge.Service.Refines.{running, registry_ops, registry_contract}
use tsbridge.Service.Partial.{is_failed, running-start_services_partial}
use tsbridge.App.{App, watch_config_changes}
use tsbridge.App.Lists.{find_service, UniqueNames}
use tsbridge.App.Converge.{Agrees}
use tsbridge.App.Watch.{last_config, watch_config_changes-Agrees}

Agrees-refl : (equal : Service → Service → Bool) (x y : Option Service) → x ≡ y → Agrees equal x y
Agrees-refl equal none none e = tt
Agrees-refl equal (some s) (some t) e = inl (ground arith)
Agrees-refl equal none (some t) e = cc
Agrees-refl equal (some s) none e = cc

module _ (net : Net) {W L H : Type 0} (host : Host W L H)
    (url_parse_error : List ℕ → Option Err) where
  validate-UniqueNames :
      (provider : String) (c : Config) → validate net c provider ≡ none → UniqueNames c.services
  validate-UniqueNames provider c h = ((validate_iff net c provider).0 h).unique

  each-UniqueNames :
      (provider : String) (cs : List Config)
      → All (λ (c : Config). validate net c provider ≡ none) cs
      → All (λ (c : Config). UniqueNames c.services) cs
  each-UniqueNames provider [] h = tt
  each-UniqueNames provider (c ∷ cs) (h, hs) =
      (validate-UniqueNames provider c h, each-UniqueNames provider cs hs)

  -- An application whose registry has been started with a configuration.
  abbrev pub started_app :
      Config → Option Collector → W → App (registry_ops host url_parse_error) service_config_equal
  started_app cfg collector w = record {
    cfg = cfg;
    registry = (start_services host (new_registry host cfg collector w)).0;
    reloads = none;
  }

  -- An application that has started the services of a validated configuration, all of them or, as
  -- Start goes on then, only some, and that then receives validated configurations, none of whose
  -- reloads reports an error, runs under every name that the start does not report as failed exactly
  -- the service of the last configuration, up to ServiceConfigEqual, and nothing where that has no
  -- service of the name.
  pub running-watch_config_changes :
      (provider : String) (cfg : Config) (collector : Option Collector) (w : W)
      (later : List Config)
      → validate net cfg provider ≡ none
      → All (λ (c : Config). validate net c provider ≡ none) later
      → (watch_config_changes
          (registry_ops host url_parse_error)
          service_config_equal
          later
          (started_app cfg collector w)).1
        ≡ []
      → (n : String)
      → is_failed n (start_services host (new_registry host cfg collector w)).1 ≡ false
      → Agrees service_config_equal
          (running
            (watch_config_changes
              (registry_ops host url_parse_error)
              service_config_equal
              later
              (started_app cfg collector w)).0.registry
            n)
          (find_service n (last_config cfg later).services)
  running-watch_config_changes provider cfg collector w later v vs fine n runs =
      let unique = validate-UniqueNames provider cfg v in
      watch_config_changes-Agrees (registry_ops host url_parse_error)
        (registry_contract host url_parse_error) service_config_equal service_config_equal_trans
        later (started_app cfg collector w) n unique
        (Agrees-refl service_config_equal _ _
          (running-start_services_partial host cfg collector w unique n runs))
        (each-UniqueNames provider later vs) fine
