-- ===== src/Tests/Registry.antt =====
-- The registry on the sample host.
use tsbridge.Prelude.Assoc.{lookup, insert}
use tsbridge.Prelude.{ℕ, ◌+◌, ◌<◌, List, [], ◌∷◌, none, some, ◌≡◌, refl}
use tsbridge.Errors.{Err}
use tsbridge.Errors.Startup.{StartupError, as_service_startup_error, new_service_startup_error}
use tsbridge.Config.{Config}
use tsbridge.App.Keys.{find_by}
use tsbridge.App.Lists.{find_service, UniqueNames}
use tsbridge.App.Contract.{RegistryContract}
use tsbridge.Service.{Registry}
use tsbridge.Service.Lifecycle.{start_service}
use tsbridge.Service.Operations.{new_registry, start_services, start_all, start_step}
use tsbridge.Service.Refines.{running, registry_ops, registry_contract}
use tsbridge.Service.Gauge.{Call, add, remove, update, run_calls, IsMetered, run_calls-IsMetered}
use tsbridge.Service.Start.{running-start_services, start_services_counts}
use tsbridge.Samples.{sample_service, sample_config, sample_host, sample_parse}

registry_contract_example : RegistryContract (registry_ops sample_host sample_parse) running
registry_contract_example = registry_contract sample_host sample_parse

abbrev fresh : Registry ℕ ℕ ℕ
fresh =
    new_registry sample_host (sample_config [])
      (some (record { operations = []; active_services = 0 })) 0

fresh-IsMetered : IsMetered fresh
unfolding new_registry
fresh-IsMetered = record { distinct = tt; named = tt; gauge = refl }

abbrev calls : List (Call sample_host sample_parse)
calls =
    add (sample_service "a" "localhost:1")
    ∷ add (sample_service "bad" "localhost:2")
    ∷ update (sample_service "a" "localhost:3")
    ∷ remove "a"
    ∷ []

run_calls-IsMetered_example : IsMetered (run_calls sample_host sample_parse calls fresh)
run_calls-IsMetered_example =
    run_calls-IsMetered sample_host sample_parse calls fresh fresh-IsMetered

abbrev two_services : Config
two_services =
    sample_config (sample_service "a" "localhost:1" ∷ sample_service "b" "localhost:2" ∷ [])

abbrev one_bad : Config
one_bad = sample_config (sample_service "a" "localhost:1" ∷ sample_service "bad" "localhost:2" ∷ [])

two-UniqueNames : UniqueNames two_services.services
unfolding find_by
two-UniqueNames = (refl, (refl, tt))

bad-UniqueNames : UniqueNames one_bad.services
unfolding find_by
bad-UniqueNames = (refl, (refl, tt))

both_start : (start_services sample_host (new_registry sample_host two_services none 0)).1 ≡ none
unfolding start_services new_registry start_service
both_start = refl

running-start_services_example :
    running (start_services sample_host (new_registry sample_host two_services none 0)).0 "b"
    ≡ find_service "b" two_services.services
running-start_services_example =
    running-start_services sample_host two_services none 0 two-UniqueNames both_start "b"

one_fails :
    (e : Err) × ((start_services sample_host (new_registry sample_host one_bad none 0)).1 ≡ some e)
unfolding start_services new_registry start_service start_all start_step lookup insert
    new_service_startup_error
one_fails = (_, refl)

start_services_counts_example :
    (x : StartupError) × (as_service_startup_error (some one_fails.0) ≡ some x)
    × (x.total ≡ 2)
    × (x.successful + x.failed ≡ x.total)
    × (0 < x.failed)
start_services_counts_example =
    start_services_counts sample_host one_bad none 0 one_fails.0 bad-UniqueNames one_fails.1
