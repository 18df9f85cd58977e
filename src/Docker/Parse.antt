-- ===== src/Docker/Parse.antt =====
-- internal/docker/labels.go: parseGlobalConfig, parseServiceConfig and getContainerAddress.
use Prim.Native.String.{◌++◌ as append}
use tsbridge.Prelude.Int.{ℤ}
use tsbridge.Prelude.Bytes.{bytes, has_prefix, to_lower}
use tsbridge.Prelude.Text.{trim_prefix, short_id, decimal}
use tsbridge.Prelude.{
  String, [], ◌∷◌, Option, none, some, false, ◌&&◌, not, deref, keep, ◌==◌, if◌then◌else◌, str_eq,
}
use tsbridge.Errors.{
  Result, ok, err, new_provider_error, wrap_provider_error, validation, text, raw,
}
use tsbridge.Config.{Tailscale, Global, Service, Config}
use tsbridge.Config.Address.{Net, validate_backend_address}
use tsbridge.Config.ByteSize.{Floats}
use tsbridge.Docker.{Container}
use tsbridge.Docker.Labels.{
  LabelParser, get_string, get_bool, get_duration, get_byte_size, get_string_slice, get_headers,
}

-- The functions outside the program that reading the labels calls.
pub record Readers : Type 1 where
  pub net : Net
  pub floats : Floats
  -- `time.ParseDuration`
  pub parse_duration : String → Option ℤ

abbrev pub parser_of : Container → String → LabelParser
parser_of c label_prefix = record { labels = c.labels; prefix = label_prefix }

-- The first of the container's names, without its slash.
unfoldable pub container_name : Container → Option String
container_name c = elim c.names [ [] ↦ none | name ∷ _ ↦ some (trim_prefix name "/") ]

unfoldable pub get_container_address : Container → String
unfolding container_name short_id
get_container_address c = deref (container_name c) (short_id c.id)

-- The name of the service: its label, or else the name of the container.
unfoldable pub service_name : LabelParser → Container → Result String
unfolding container_name
service_name p c =
    let name = get_string p "service.name" in
    if str_eq name ""
    then elim (container_name c) [
      | some fallback ↦ ok fallback
      | none ↦ err (new_provider_error "docker" validation (text "service name is required"))
    ]
    else ok name

-- The port by its label, or else the single one that the container exposes; empty without one.
unfoldable pub service_port : LabelParser → Container → Result String
unfolding decimal
service_port p c =
    let port = get_string p "service.port" in
    if str_eq port ""
    then elim (keep (λ n. not (n == 0)) c.private_ports) [
      | [] ↦ ok ""
      | n ∷ rest ↦ elim rest [
        | [] ↦ ok (decimal n)
        | _ ∷ _ ↦ err (
            new_provider_error "docker" validation (record {
              format =
                  "container exposes multiple ports %v; specify tsbridge.service.port or tsbridge.service.backend_addr";
              args = raw (keep (λ n. not (n == 0)) c.private_ports) ∷ [];
            }))
      ]
    ]
    else ok port

unfoldable pub backend_addr_of : LabelParser → Container → Result String
unfolding service_port get_container_address
backend_addr_of p c =
    let backend_addr = get_string p "service.backend_addr" in
    if str_eq backend_addr ""
    then elim (service_port p c) [
      | err e ↦ err e
      | ok port ↦
          if str_eq port "" then ok "" else ok (append (get_container_address c) (append ":" port))
    ]
    else ok backend_addr

module _ (rd : Readers) where
  -- The address that is determined must not be empty, and must be valid.
  unfoldable pub checked_backend_addr : LabelParser → Container → Result String
  unfolding backend_addr_of
  checked_backend_addr p c = elim (backend_addr_of p c) [
    | err e ↦ err e
    | ok backend_addr ↦
        if str_eq backend_addr ""
        then err (
            new_provider_error "docker" validation (text "backend address could not be determined"))
        else elim (wrap_provider_error (validate_backend_address rd.net (bytes backend_addr))
            "docker" validation (text "invalid backend address")) [
              | some e ↦ err e
              | none ↦ ok backend_addr
            ]
  ]

  -- The service with all its labels, once its name and its address are known.
  unfoldable pub labelled_service : LabelParser → (name backend_addr : String) → Service
  labelled_service p name backend_addr = record {
    name = name;
    backend_addr = backend_addr;
    listen_addr = get_string p "service.listen_addr";
    whois_enabled = get_bool p "service.whois_enabled";
    whois_timeout = get_duration p rd.parse_duration "service.whois_timeout";
    tls_mode = get_string p "service.tls_mode";
    tags = get_string_slice p "service.tags" b',';
    startup_timeout = get_duration p rd.parse_duration "service.startup_timeout";
    read_header_timeout = get_duration p rd.parse_duration "service.read_header_timeout";
    write_timeout = get_duration p rd.parse_duration "service.write_timeout";
    idle_timeout = get_duration p rd.parse_duration "service.idle_timeout";
    response_header_timeout = get_duration p rd.parse_duration "service.response_header_timeout";
    access_log = get_bool p "service.access_log";
    max_request_body_size = get_byte_size p rd.floats "service.max_request_body_size";
    funnel_enabled = get_bool p "service.funnel_enabled";
    ephemeral = deref (get_bool p "service.ephemeral") false;
    oauth_preauthorized = get_bool p "service.oauth_preauthorized";
    flush_interval = get_duration p rd.parse_duration "service.flush_interval";
    insecure_skip_verify = get_bool p "service.insecure_skip_verify";
    upstream_headers = get_headers p "service.upstream_headers";
    downstream_headers = get_headers p "service.downstream_headers";
    remove_upstream = deref (get_string_slice p "service.remove_upstream" b',') [];
    remove_downstream = deref (get_string_slice p "service.remove_downstream" b',') [];
  }

  unfoldable pub parse_service_config : String → Container → Result Service
  unfolding service_name checked_backend_addr labelled_service
  parse_service_config label_prefix c =
      let p = parser_of c label_prefix in
      elim (service_name p c) [
        | err e ↦ err e
        | ok name ↦ elim (checked_backend_addr p c) [
          | err e ↦ err e
          | ok backend_addr ↦
              if deref (get_bool p "service.insecure_skip_verify") false
                && not (has_prefix (to_lower (bytes backend_addr)) (bytes "https://"))
              then err (
                  new_provider_error "docker" validation
                    (text "insecure_skip_verify is only supported for HTTPS backends"))
              else ok (labelled_service p name backend_addr)
        ]
      ]

  unfoldable pub labelled_tailscale : LabelParser → Tailscale
  labelled_tailscale p = record {
    oauth_client_id = get_string p "tailscale.oauth_client_id";
    oauth_client_id_env = get_string p "tailscale.oauth_client_id_env";
    oauth_client_id_file = get_string p "tailscale.oauth_client_id_file";
    oauth_client_secret = get_string p "tailscale.oauth_client_secret";
    oauth_client_secret_env = get_string p "tailscale.oauth_client_secret_env";
    oauth_client_secret_file = get_string p "tailscale.oauth_client_secret_file";
    auth_key = get_string p "tailscale.auth_key";
    auth_key_env = get_string p "tailscale.auth_key_env";
    auth_key_file = get_string p "tailscale.auth_key_file";
    state_dir = get_string p "tailscale.state_dir";
    state_dir_env = get_string p "tailscale.state_dir_env";
    default_tags = get_string_slice p "tailscale.default_tags" b',';
    control_url = get_string p "tailscale.control_url";
    oauth_preauthorized = get_bool p "tailscale.oauth_preauthorized";
  }

  unfoldable pub labelled_global : LabelParser → Global
  labelled_global p = record {
    flush_interval = get_duration p rd.parse_duration "global.flush_interval";
    access_log = get_bool p "global.access_log";
    trusted_proxies = deref (get_string_slice p "global.trusted_proxies" b',') [];
    metrics_addr = get_string p "global.metrics_addr";
    response_header_timeout = get_duration p rd.parse_duration "global.response_header_timeout";
    shutdown_timeout = get_duration p rd.parse_duration "global.shutdown_timeout";
    startup_timeout = get_duration p rd.parse_duration "global.startup_timeout";
    write_timeout = get_duration p rd.parse_duration "global.write_timeout";
    idle_timeout = get_duration p rd.parse_duration "global.idle_timeout";
    read_header_timeout = get_duration p rd.parse_duration "global.read_header_timeout";
    max_request_body_size = get_byte_size p rd.floats "global.max_request_body_size";
    dial_timeout = get_duration p rd.parse_duration "global.dial_timeout";
    keep_alive_timeout = get_duration p rd.parse_duration "global.keep_alive_timeout";
    idle_conn_timeout = get_duration p rd.parse_duration "global.idle_conn_timeout";
    tls_handshake_timeout = get_duration p rd.parse_duration "global.tls_handshake_timeout";
    expect_continue_timeout = get_duration p rd.parse_duration "global.expect_continue_timeout";
    metrics_read_header_timeout =
        get_duration p rd.parse_duration "global.metrics_read_header_timeout";
  }

  -- It cannot fail; there are no services yet.
  unfoldable pub parse_global_config : String → Container → Config
  unfolding labelled_tailscale labelled_global
  parse_global_config label_prefix c =
      let p = parser_of c label_prefix in
      record { tailscale = labelled_tailscale p; global = labelled_global p; services = [] }
