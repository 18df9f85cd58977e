-- ===== src/Tests/Program.antt =====
-- A start and a reload of the whole program.
use tsbridge.Prelude.Assoc.{lookup, insert, delete}
use tsbridge.Prelude.Bytes.{contains, cut_prefix, split}
use tsbridge.Prelude.Decimal.{atoi}
use tsbridge.Prelude.{[], ◌∷◌, none, true, false, ◌≡◌, refl}
use tsbridge.Errors.Startup.{new_service_startup_error, as_service_startup_error}
use tsbridge.Errors.Reload.{to_error, has_errors, new_reload_error, record_success}
use tsbridge.Config.{Service, Config}
use tsbridge.Config.Hostname.{is_valid_hostname, is_alpha_num}
use tsbridge.Config.Timeout.{validate_timeout, validate_timeout_positive}
use tsbridge.Config.Address.{host_port_error, validate_addr, validate_backend_address}
use tsbridge.Config.Compare.{service_config_equal, slices_eq, maps_eq, sort}
use tsbridge.Config.Validate.{
  validate, validate_oauth, validate_auth_method_selection, validate_global, metrics_addr_error,
  proxy_error, insecure_error, whois_error, tls_mode_error, listen_error, tags_error,
  validate_service, is_seen, validate_services, none_error,
}
use tsbridge.Service.Lifecycle.{start_service, stop}
use tsbridge.Service.Operations.{
  new_registry, start_services, start_all, start_step, add_service, remove_service, update_service,
  validate_service_config,
}
use tsbridge.Service.Partial.{is_failed}
use tsbridge.Service.Refines.{running, registry_ops}
use tsbridge.App.{
  find_services_to_remove, find_services_to_add, find_services_to_update,
  reload_config_with_registry, watch_config_changes, reload_config, process, update_step, add_step,
  remove_step, apply_changes, name_set, service_map,
}
use tsbridge.App.Lists.{find_service}
use tsbridge.App.Converge.{Agrees}
use tsbridge.App.Program.{started_app, running-watch_config_changes}
use tsbridge.Samples.{sample_service, sample_config, sample_host, sample_net, sample_parse}

-- A service that fails to start.
abbrev unlucky : Service
unlucky = sample_service "bad" "localhost:3"

abbrev first : Config
first = sample_config (sample_service "a" "localhost:1" ∷ unlucky ∷ [])

abbrev second : Config
second = sample_config (sample_service "a" "localhost:2" ∷ unlucky ∷ [])

first_valid : validate sample_net first "file" ≡ none
unfolding validate validate_oauth validate_auth_method_selection validate_global metrics_addr_error
    proxy_error insecure_error whois_error tls_mode_error listen_error tags_error validate_service
    is_seen validate_services none_error validate_timeout validate_timeout_positive host_port_error
    validate_addr validate_backend_address is_valid_hostname is_alpha_num contains cut_prefix split
    atoi
first_valid = refl

second_valid : validate sample_net second "file" ≡ none
unfolding validate validate_oauth validate_auth_method_selection validate_global metrics_addr_error
    proxy_error insecure_error whois_error tls_mode_error listen_error tags_error validate_service
    is_seen validate_services none_error validate_timeout validate_timeout_positive host_port_error
    validate_addr validate_backend_address is_valid_hostname is_alpha_num contains cut_prefix split
    atoi
second_valid = refl

partly_started :
    is_failed "bad" (start_services sample_host (new_registry sample_host first none 0)).1 ≡ true
unfolding start_services new_registry start_service start_all start_step lookup insert
    new_service_startup_error as_service_startup_error
partly_started = refl

first_starts :
    is_failed "a" (start_services sample_host (new_registry sample_host first none 0)).1 ≡ false
unfolding start_services new_registry start_service start_all start_step lookup insert
    new_service_startup_error as_service_startup_error
first_starts = refl

second_comes :
    (watch_config_changes
      (registry_ops sample_host sample_parse)
      service_config_equal
      (second ∷ [])
      (started_app sample_net sample_host sample_parse first none 0)).1
    ≡ []
unfolding watch_config_changes reload_config reload_config_with_registry find_services_to_remove
    lookup insert delete to_error process find_services_to_update update_step update_service
    find_services_to_add add_step add_service remove_step remove_service start_services new_registry
    start_service stop apply_changes name_set service_map has_errors new_reload_error record_success
    contains cut_prefix validate_service_config start_all start_step split service_config_equal
    slices_eq maps_eq sort
second_comes = refl

running-watch_config_changes_example :
    Agrees service_config_equal
      (running
        (watch_config_changes
          (registry_ops sample_host sample_parse)
          service_config_equal
          (second ∷ [])
          (started_app sample_net sample_host sample_parse first none 0)).0.registry
        "a")
      (find_service "a" second.services)
running-watch_config_changes_example =
    running-watch_config_changes sample_net sample_host sample_parse "file" first none 0
      (second ∷ []) first_valid (second_valid, tt) second_comes "a" first_starts
