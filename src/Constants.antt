-- ===== src/Constants.antt =====
-- internal/constants/constants.go: the constants that the modelled code reads.
use tsbridge.Prelude.Int.{ℤ, pos, negsuc, seconds}
use tsbridge.Prelude.{ℕ, ◌*◌, String, Bool, true, false}

abbrev pub default_read_header_timeout : ℤ
default_read_header_timeout = seconds 30

abbrev pub default_write_timeout : ℤ
default_write_timeout = seconds 30

abbrev pub default_idle_timeout : ℤ
default_idle_timeout = seconds 120

abbrev pub default_shutdown_timeout : ℤ
default_shutdown_timeout = seconds 30

abbrev pub default_startup_timeout : ℤ
default_startup_timeout = seconds 30

abbrev pub default_whois_timeout : ℤ
default_whois_timeout = seconds 5

abbrev pub default_dial_timeout : ℤ
default_dial_timeout = seconds 30

abbrev pub default_keep_alive_timeout : ℤ
default_keep_alive_timeout = seconds 30

abbrev pub default_idle_conn_timeout : ℤ
default_idle_conn_timeout = seconds 90

abbrev pub default_tls_handshake_timeout : ℤ
default_tls_handshake_timeout = seconds 10

abbrev pub default_expect_continue_timeout : ℤ
default_expect_continue_timeout = seconds 1

abbrev pub default_metrics_read_header_timeout : ℤ
default_metrics_read_header_timeout = seconds 5

abbrev pub default_access_log_enabled : Bool
default_access_log_enabled = true

abbrev pub default_whois_enabled : Bool
default_whois_enabled = false

abbrev pub tls_mode_auto : String
tls_mode_auto = "auto"

abbrev pub tls_mode_off : String
tls_mode_off = "off"

abbrev pub default_tls_mode : String
default_tls_mode = "auto"

abbrev pub default_max_request_body_size : ℤ
default_max_request_body_size = pos (50 * 1024 * 1024)

-- -1 ms
abbrev pub immediate_flush_interval : ℤ
immediate_flush_interval = negsuc 999999

abbrev pub bytes_per_kb : ℕ
bytes_per_kb = 1024

abbrev pub bytes_per_mb : ℕ
bytes_per_mb = 1024 * 1024

abbrev pub bytes_per_gb : ℕ
bytes_per_gb = 1024 * 1024 * 1024

abbrev pub bytes_per_tb : ℕ
bytes_per_tb = 1024 * 1024 * 1024 * 1024

-- 5 min
abbrev pub docker_max_reconnect_backoff : ℕ
docker_max_reconnect_backoff = 300 * 1000000000

abbrev pub auth_key_expiry_seconds : ℕ
auth_key_expiry_seconds = 5 * 60

abbrev pub retry_max_attempts : ℕ
retry_max_attempts = 2

abbrev pub tsnet_server_close_timeout : ℤ
tsnet_server_close_timeout = seconds 3

abbrev pub default_max_idle_conns : ℕ
default_max_idle_conns = 100

abbrev pub default_max_conns_per_host : ℕ
default_max_conns_per_host = 50

abbrev pub default_max_idle_conns_per_host : ℕ
default_max_idle_conns_per_host = 10
