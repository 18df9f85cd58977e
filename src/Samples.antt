-- ===== src/Samples.antt =====
-- Concrete services, configurations and surroundings for the tests.
use tsbridge.Prelude.Int.{pos, negsuc}
use tsbridge.Prelude.Bytes.{bytes, split}
use tsbridge.Prelude.{
  ℕ, suc, String, List, [], ◌∷◌, Option, none, some, Bool, true, false, if◌then◌else◌, str_eq,
  str_eq_iff, ◌≡◌, arith,
}
use tsbridge.Errors.{Err, Result, ok, err, foreign}
use tsbridge.Config.{Tailscale, Global, Service, Config}
use tsbridge.Config.Address.{Net}
use tsbridge.Config.Credentials.{Os}
use tsbridge.Service.{Host}

abbrev pub sample_service : String → String → Service
sample_service name backend_addr = record {
  name = name;
  backend_addr = backend_addr;
  listen_addr = "";
  whois_enabled = none;
  whois_timeout = none;
  tls_mode = "auto";
  tags = some ("tag:web" ∷ []);
  startup_timeout = none;
  read_header_timeout = none;
  write_timeout = none;
  idle_timeout = none;
  response_header_timeout = none;
  access_log = none;
  max_request_body_size = none;
  funnel_enabled = none;
  ephemeral = false;
  oauth_preauthorized = none;
  flush_interval = some (negsuc 999999);
  insecure_skip_verify = none;
  upstream_headers = [];
  downstream_headers = [];
  remove_upstream = [];
  remove_downstream = [];
}

abbrev pub sample_tailscale : Tailscale
sample_tailscale = record {
  oauth_client_id = "";
  oauth_client_id_env = "";
  oauth_client_id_file = "";
  oauth_client_secret = "";
  oauth_client_secret_env = "";
  oauth_client_secret_file = "";
  auth_key = "";
  auth_key_env = "SAMPLE_KEY";
  auth_key_file = "";
  state_dir = "";
  state_dir_env = "";
  default_tags = none;
  control_url = "";
  oauth_preauthorized = none;
}

abbrev pub sample_global : Global
sample_global = record {
  flush_interval = none;
  access_log = none;
  trusted_proxies = "10.0.0.0/8" ∷ [];
  metrics_addr = "";
  response_header_timeout = none;
  shutdown_timeout = none;
  startup_timeout = none;
  write_timeout = some (pos 5000000000);
  idle_timeout = none;
  read_header_timeout = none;
  max_request_body_size = none;
  dial_timeout = none;
  keep_alive_timeout = none;
  idle_conn_timeout = none;
  tls_handshake_timeout = none;
  expect_continue_timeout = none;
  metrics_read_header_timeout = none;
}

abbrev pub sample_config : List Service → Config
sample_config services = record {
  tailscale = sample_tailscale;
  global = sample_global;
  services = services;
}

-- A host that numbers its listeners and refuses a service called `bad`.
abbrev pub sample_host : Host ℕ ℕ ℕ
sample_host = record {
  listen =
      λ svc mode funnel w. (suc w, if str_eq svc.name "bad" then err (foreign "listen") else ok w);
  has_service_server = λ name w. true;
  close_service = λ name w. (suc w, none);
  new_handler = λ cfg w. (suc w, ok w);
  serve = λ server listener handler w. suc w;
  shutdown_server = λ server listener w. (suc w, none);
  close_listener = λ listener w. (suc w, none);
  close_handler = λ handler w. (suc w, none);
}

-- Every URL parses.
abbrev pub sample_parse : List ℕ → Option Err
sample_parse addr = none

-- An address of two parts around a colon splits there.
abbrev pub two_parts : List (List ℕ) → Result (List ℕ × List ℕ)
two_parts (host ∷ port ∷ []) = ok (host, port)
two_parts parts = err (foreign "address")

abbrev pub sample_net : Net
sample_net = record {
  split_host_port = λ addr. two_parts (split b':' addr);
  is_ip = λ host. false;
  cidr_error = λ range. none;
  tcp_addr_error = λ addr. none;
  parse_url = λ addr. ok (bytes "localhost", bytes "8080");
}

abbrev pub sample_os : Os
sample_os = record {
  env = ("TS_AUTHKEY", "old") ∷ ("SAMPLE_KEY", "tskey") ∷ [];
  read_file = λ path. ok "from file\n";
  stat = λ path. ok 10;
  is_not_exist = λ e. false;
  open_error = λ path. none;
}

-- Services are compared by their backend address.
abbrev pub same_backend : Service → Service → Bool
same_backend s t = str_eq s.backend_addr t.backend_addr

pub same_backend_trans :
    (a b d : Service) → same_backend a b ≡ true → same_backend b d ≡ true → same_backend a d ≡ true
same_backend_trans a b d h k = ground (
  arith,
  str_eq_iff a.backend_addr b.backend_addr,
  str_eq_iff b.backend_addr d.backend_addr,
  str_eq_iff a.backend_addr d.backend_addr,
)
