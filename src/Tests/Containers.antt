-- ===== src/Tests/Containers.antt =====
-- Containers with labels, and the provider that reads them.
use tsbridge.Config.Compare.{service_config_equal, maps_eq, slices_eq}
use tsbridge.Config.Timeout.{validate_timeout, validate_timeout_positive}
use tsbridge.Config.Defaults.{normalize, set_defaults, set_service_defaults, normalize_service}
use tsbridge.Config.Validate.{
  validate_global, validate_oauth, validate, metrics_addr_error, none_error, tags_error,
  validate_service, listen_error, whois_error, is_seen, insecure_error, tls_mode_error,
  validate_services,
}
use tsbridge.Config.Process.{resolve_secrets, process_loaded_config_with_provider}
use tsbridge.Config.Credentials.{trim_space, resolve_secret, resolve_secret_with_fallback}
use tsbridge.Prelude.Int.{pos}
use tsbridge.Prelude.Assoc.{lookup, insert, delete}
use tsbridge.Prelude.{ℕ, [], ◌∷◌, none, some, true, false, All, map, ◌≡◌, refl, arith, inl}
use tsbridge.Docker.Labels.{
  get_string, get_bool, get_duration, get_string_slice, get_byte_size, get_headers,
}
use tsbridge.Prelude.Text.{cut_text}
use tsbridge.Config.Address.{validate_backend_address, validate_addr, host_port_error}
use tsbridge.Prelude.Bytes.{cut_prefix, split}
use tsbridge.Prelude.Decimal.{atoi}
use tsbridge.Config.Hostname.{is_valid_hostname, is_alpha_num}
use tsbridge.Errors.{Result, ok, err, wrap_provider_error}
use tsbridge.Config.{Service, Config}
use tsbridge.Config.ByteSize.{Floats}
use tsbridge.Docker.{Container, Daemon, Provider}
use tsbridge.Docker.Parse.{Readers, parse_service_config, parse_global_config}
use tsbridge.Docker.Load.{
  load, same_services, remove_service_by_container_name, find_self_container,
  find_service_containers,
}
use tsbridge.Docker.Watching.{sent, busy, immediate_reload}
use tsbridge.Docker.Headers.{IsSafeHeader, parse_service_config-AllSafe}
use tsbridge.Docker.Backoff.{watch_loop, capped_doubling, failures_before, watch_loop-capped}
use tsbridge.Docker.Removal.{IsWithout, remove-IsWithout}
use tsbridge.Docker.Delivered.{Reload, reloads, IsInStep, reloads-IsInStep, immediate_reload-busy}
use tsbridge.Docker.Cached.{loads, loads-same_tailscale}
use tsbridge.Samples.{sample_service, sample_config, sample_net, sample_os}

abbrev sample_floats : Floats
sample_floats = record {
  Float = ℕ;
  parse_float = λ s. some 1;
  below_zero = λ f. false;
  product = λ f m. pos m;
}

abbrev sample_readers : Readers
sample_readers = record { net = sample_net; floats = sample_floats; parse_duration = λ s. none }

abbrev web_container : Container
web_container = record {
  id = "0123456789abcdef";
  names = "/web" ∷ [];
  labels =
      ("tsbridge.enabled", "true")
      ∷ ("tsbridge.service.port", "80")
      ∷ ("tsbridge.service.upstream_headers.X-Team", "a")
      ∷ ("tsbridge.service.upstream_headers.X Bad", "b")
      ∷ [];
  private_ports = [];
}

abbrev bridge_container : Container
bridge_container = record {
  id = "fedcba9876543210";
  names = "/bridge" ∷ [];
  labels = ("tsbridge.tailscale.auth_key", "tskey") ∷ [];
  private_ports = [];
}

-- Every container is listed, whatever is asked for.
abbrev sample_daemon : Daemon
sample_daemon = record {
  container_list = λ options. ok (bridge_container ∷ web_container ∷ []);
  hostname_file = ok "fedcba987654";
  range = map (λ (id, c). c);
}

abbrev sample_provider : Provider
sample_provider = record {
  label_prefix = "tsbridge";
  socket_path = "unix:///var/run/docker.sock";
  os = sample_os;
  last_config = none;
  cached_tailscale = none;
  debouncing = false;
}

watch_loop-capped_example :
    watch_loop (false ∷ false ∷ true ∷ false ∷ [])
    ≡ map capped_doubling (failures_before 0 (false ∷ false ∷ true ∷ false ∷ []))
watch_loop-capped_example = watch_loop-capped (false ∷ false ∷ true ∷ false ∷ [])

abbrev two_services : Config
two_services = sample_config (sample_service "a" "web:80" ∷ sample_service "b" "other:80" ∷ [])

remove-IsWithout_example :
    IsWithout "web" two_services.services
      (remove_service_by_container_name two_services "web").services
remove-IsWithout_example = remove-IsWithout two_services "web" (λ e. cc) (ground arith)

abbrev held_provider : Provider
held_provider = record sample_provider { last_config = some two_services }

abbrev one_reload : Reload
one_reload = record { daemon = sample_daemon; done = false; delivery = sent }

reloads-IsInStep_example :
    IsInStep
      (reloads sample_readers (one_reload ∷ []) held_provider two_services).0
      (reloads sample_readers (one_reload ∷ []) held_provider two_services).1
reloads-IsInStep_example =
    reloads-IsInStep sample_readers (one_reload ∷ []) held_provider two_services (refl, tt)
      (two_services, refl, inl refl)

abbrev or_sample : Result Service → Service
or_sample (ok svc) = svc
or_sample (err e) = sample_service "a" "b"

web_parses :
    (svc : Service) × (parse_service_config sample_readers "tsbridge" web_container ≡ ok svc)
unfolding parse_service_config get_string get_bool lookup cut_text wrap_provider_error
    validate_backend_address validate_addr host_port_error cut_prefix split atoi is_valid_hostname
    is_alpha_num
web_parses = (or_sample (parse_service_config sample_readers "tsbridge" web_container), refl)

parse_service_config-AllSafe_example :
    All IsSafeHeader web_parses.0.upstream_headers
    × All IsSafeHeader web_parses.0.downstream_headers
parse_service_config-AllSafe_example =
    parse_service_config-AllSafe sample_readers "tsbridge" web_container web_parses.0 web_parses.1

abbrev or_held : Result Config → Config
or_held (ok cfg) = cfg
or_held (err e) = two_services

first_load : (cfg : Config) × ((load sample_readers sample_daemon sample_provider).1 ≡ ok cfg)
unfolding load find_self_container cut_text trim_space find_service_containers
    process_loaded_config_with_provider resolve_secrets parse_global_config get_string lookup
    resolve_secret_with_fallback resolve_secret validate validate_oauth normalize set_defaults
    validate_global validate_timeout get_duration validate_timeout_positive metrics_addr_error
    get_string_slice none_error insert parse_service_config wrap_provider_error
    validate_backend_address cut_prefix validate_addr split host_port_error atoi is_valid_hostname
    is_alpha_num get_bool validate_services normalize_service set_service_defaults is_seen
    validate_service insecure_error whois_error tls_mode_error listen_error tags_error
first_load = (or_held (load sample_readers sample_daemon sample_provider).1, refl)

loads-same_tailscale_example :
    All
      (λ (c : Config). c.tailscale ≡ first_load.0.tailscale)
      (loads sample_readers
        (sample_daemon ∷ [])
        (load sample_readers sample_daemon sample_provider).0)
loads-same_tailscale_example =
    loads-same_tailscale sample_readers sample_daemon (sample_daemon ∷ []) sample_provider
      first_load.0 refl first_load.1

second_load :
    (load sample_readers sample_daemon
      (immediate_reload sample_readers sample_daemon false busy sample_provider).0).1
    ≡ ok first_load.0
unfolding first_load immediate_reload load find_self_container cut_text trim_space
    find_service_containers process_loaded_config_with_provider resolve_secrets parse_global_config
    get_string lookup resolve_secret_with_fallback resolve_secret validate validate_oauth normalize
    set_defaults validate_global validate_timeout get_duration validate_timeout_positive
    metrics_addr_error get_string_slice none_error insert parse_service_config wrap_provider_error
    validate_backend_address cut_prefix validate_addr split host_port_error atoi is_valid_hostname
    is_alpha_num get_bool validate_services normalize_service set_service_defaults is_seen
    validate_service insecure_error whois_error tls_mode_error listen_error tags_error delete
second_load = refl

same_again : same_services first_load.0 first_load.0 ≡ true
unfolding first_load same_services load find_self_container cut_text trim_space
    find_service_containers process_loaded_config_with_provider resolve_secrets parse_global_config
    get_string lookup resolve_secret_with_fallback resolve_secret validate validate_oauth normalize
    set_defaults validate_global validate_timeout get_duration validate_timeout_positive
    metrics_addr_error get_string_slice none_error insert parse_service_config wrap_provider_error
    validate_backend_address cut_prefix validate_addr split host_port_error atoi is_valid_hostname
    is_alpha_num get_bool validate_services normalize_service set_service_defaults is_seen
    validate_service insecure_error whois_error tls_mode_error listen_error tags_error
    service_config_equal slices_eq get_byte_size maps_eq get_headers
same_again = refl

immediate_reload-busy_example :
    ((immediate_reload sample_readers sample_daemon false busy sample_provider).1 ≡ none)
    × ((immediate_reload sample_readers sample_daemon false sent
          (immediate_reload sample_readers sample_daemon false busy sample_provider).0).1
        ≡ none)
immediate_reload-busy_example =
    immediate_reload-busy sample_readers sample_daemon sample_daemon sent sample_provider
      first_load.0 first_load.0 first_load.1 second_load same_again
