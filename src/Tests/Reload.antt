-- ===== src/Tests/Reload.antt =====
-- Reloads of a registry on the sample host.
use tsbridge.Prelude.Assoc.{lookup, insert, delete}
use tsbridge.Prelude.Bytes.{contains, cut_prefix, split}
use tsbridge.Prelude.{
  List, Option, ℕ, ◌<◌, String, [], ◌∷◌, Option, none, some, true, ◌≡◌, ◌≢◌, ◌↔◌, ◌⊎◌, refl, arith,
  inl,
}
use tsbridge.Errors.{Err}
use tsbridge.Errors.Reload.{ReloadError, to_error, has_errors, new_reload_error, record_success}
use tsbridge.Config.{Service, Config}
use tsbridge.App.{
  App, find_services_to_remove, find_services_to_add, find_services_to_update,
  reload_config_with_registry, watch_config_changes, reload_config, process, update_step, add_step,
  remove_step, apply_changes, name_set, service_map,
}
use tsbridge.App.Keys.{find_by}
use tsbridge.App.Lists.{find_service, UniqueNames}
use tsbridge.App.Loop.{is_recorded}
use tsbridge.App.Contract.{RegistryContract}
use tsbridge.App.Converge.{Agrees, planned, reload_converges, reload_success}
use tsbridge.App.Performed.{perform_all, failures, successes, reload_counts}
use tsbridge.App.Watch.{InSync, watch_config_changes-InSync, watch_config_changes-IsMissing}
use tsbridge.Service.{Registry}
use tsbridge.Service.Lifecycle.{start_service, stop}
use tsbridge.Service.Operations.{
  new_registry, start_services, start_all, start_step, add_service, remove_service, update_service,
  validate_service_config,
}
use tsbridge.Service.Refines.{running, registry_ops, registry_contract}
use tsbridge.Service.Start.{running-start_services}
use tsbridge.Samples.{
  sample_service, sample_config, sample_host, sample_parse, same_backend, same_backend_trans,
}

abbrev old_config : Config
old_config =
    sample_config (sample_service "a" "localhost:1" ∷ sample_service "b" "localhost:2" ∷ [])

abbrev new_config : Config
new_config =
    sample_config (sample_service "b" "localhost:3" ∷ sample_service "c" "localhost:4" ∷ [])

abbrev started_registry : Registry ℕ ℕ ℕ
started_registry = (start_services sample_host (new_registry sample_host old_config none 0)).0

old-UniqueNames : UniqueNames old_config.services
unfolding find_by
old-UniqueNames = (refl, (refl, tt))

new-UniqueNames : UniqueNames new_config.services
unfolding find_by
new-UniqueNames = (refl, (refl, tt))

Agrees-same : (x y : Option Service) → x ≡ y → Agrees same_backend x y
Agrees-same none none e = tt
Agrees-same (some s) (some t) e = inl (ground arith)
Agrees-same none (some t) e = cc
Agrees-same (some s) none e = cc

start_succeeds : (start_services sample_host (new_registry sample_host old_config none 0)).1 ≡ none
unfolding start_services new_registry start_service
start_succeeds = refl

started-synced :
    (n : String)
    → Agrees same_backend (running started_registry n) (find_service n old_config.services)
started-synced n =
    Agrees-same _ _
      (running-start_services sample_host old_config none 0 old-UniqueNames start_succeeds n)

abbrev sample_contract : RegistryContract (registry_ops sample_host sample_parse) running
sample_contract = registry_contract sample_host sample_parse

abbrev reloaded : Registry ℕ ℕ ℕ × ReloadError
reloaded =
    planned (registry_ops sample_host sample_parse) sample_contract same_backend old_config
      new_config started_registry

abbrev reload : Config → Registry ℕ ℕ ℕ → Registry ℕ ℕ ℕ × Option Err
reload new r =
    reload_config_with_registry (registry_ops sample_host sample_parse) same_backend old_config new
      r

reload_converges_example :
    (is_recorded "b" reloaded.1 ≡ true)
    ⊎ Agrees same_backend (running reloaded.0 "b") (find_service "b" new_config.services)
reload_converges_example =
    reload_converges (registry_ops sample_host sample_parse) sample_contract same_backend old_config
      new_config old-UniqueNames new-UniqueNames started_registry same_backend_trans started-synced
      "b"

reload_succeeds : (reload new_config started_registry).1 ≡ none
unfolding reload_config_with_registry find_services_to_remove lookup insert delete to_error process
    find_services_to_update update_step update_service find_services_to_add add_step add_service
    remove_step remove_service start_services new_registry start_service stop apply_changes name_set
    service_map has_errors new_reload_error record_success contains cut_prefix
    validate_service_config start_all start_step split
reload_succeeds = refl

reload_success_example :
    Agrees same_backend
      (running (reload new_config started_registry).0 "c")
      (find_service "c" new_config.services)
reload_success_example =
    reload_success (registry_ops sample_host sample_parse) sample_contract same_backend old_config
      new_config old-UniqueNames new-UniqueNames started_registry same_backend_trans started-synced
      reload_succeeds "c"

abbrev performed : Registry ℕ ℕ ℕ × List (Option Err)
performed =
    perform_all (registry_ops sample_host sample_parse)
      (find_services_to_remove old_config new_config) (find_services_to_add old_config new_config)
      (find_services_to_update same_backend old_config new_config) started_registry

reload_counts_example :
    ((reload new_config started_registry).0 ≡ performed.0)
    × (reloaded.1.failed ≡ failures performed.1)
    × (reloaded.1.successful ≡ successes performed.1)
    × (((reload new_config started_registry).1 ≢ none) ↔ (0 < failures performed.1))
reload_counts_example =
    reload_counts (registry_ops sample_host sample_parse) sample_contract same_backend old_config
      new_config started_registry

abbrev sample_app : App (registry_ops sample_host sample_parse) same_backend
sample_app = record { cfg = old_config; registry = started_registry; reloads = none }

sample-InSync :
    InSync (registry_ops sample_host sample_parse) sample_contract same_backend sample_app
sample-InSync = record { unique = old-UniqueNames; synced = started-synced }

no_errors :
    (watch_config_changes
      (registry_ops sample_host sample_parse)
      same_backend
      (new_config ∷ [])
      sample_app).1
    ≡ []
unfolding watch_config_changes reload_config reload_config_with_registry find_services_to_remove
    lookup insert delete to_error process find_services_to_update update_step update_service
    find_services_to_add add_step add_service remove_step remove_service start_services new_registry
    start_service stop apply_changes name_set service_map has_errors new_reload_error record_success
    contains cut_prefix validate_service_config start_all start_step split
no_errors = refl

watch_config_changes-InSync_example :
    InSync
      (registry_ops sample_host sample_parse)
      sample_contract
      same_backend
      (watch_config_changes
        (registry_ops sample_host sample_parse)
        same_backend
        (new_config ∷ [])
        sample_app).0
    × ((watch_config_changes
          (registry_ops sample_host sample_parse)
          same_backend
          (new_config ∷ [])
          sample_app).0.cfg
        ≡ new_config)
watch_config_changes-InSync_example =
    watch_config_changes-InSync (registry_ops sample_host sample_parse) sample_contract same_backend
      same_backend_trans (new_config ∷ []) sample_app sample-InSync (new-UniqueNames, tt) no_errors

-- A service that never started.
abbrev bad_config : Config
bad_config = sample_config (sample_service "bad" "localhost:1" ∷ [])

abbrev bad_app : App (registry_ops sample_host sample_parse) same_backend
bad_app = record {
  cfg = bad_config;
  registry = new_registry sample_host bad_config none 0;
  reloads = none;
}

bad_unique : (addr : String) → UniqueNames (sample_service "bad" addr ∷ [])
unfolding find_by
bad_unique addr = (refl, tt)

bad_found :
    (addr : String)
    → find_service "bad" (sample_service "bad" addr ∷ []) ≡ some (sample_service "bad" addr)
unfolding find_by
bad_found addr = refl

bad_missing : running bad_app.registry "bad" ≡ none
unfolding new_registry lookup
bad_missing = refl

watch_config_changes-IsMissing_example :
    running
      (watch_config_changes
        (registry_ops sample_host sample_parse)
        same_backend
        (sample_config (sample_service "bad" "localhost:2" ∷ []) ∷ [])
        bad_app).0.registry
      "bad"
    ≡ none
watch_config_changes-IsMissing_example =
    watch_config_changes-IsMissing (registry_ops sample_host sample_parse) sample_contract
      same_backend "bad" (sample_config (sample_service "bad" "localhost:2" ∷ []) ∷ []) bad_app
      (bad_unique "localhost:1", (sample_service "bad" "localhost:1", bad_found "localhost:1"))
      (
        (bad_unique "localhost:2", (sample_service "bad" "localhost:2", bad_found "localhost:2")),
        tt,
      )
      bad_missing
