-- ===== src/Config/Address.antt =====
-- internal/config/config.go: validateAddr and ValidateBackendAddress.
-- `Net` holds what the code calls of Go's packages `net` and `net/url`; text is a list of bytes.
use tsbridge.Prelude.Int.{ℤ, pos, ltz}
use tsbridge.Prelude.Bytes.{bytes, has_prefix, cut_prefix, contains}
use tsbridge.Prelude.Decimal.{atoi}
use tsbridge.Prelude.{
  ℕ, ◌≤◌, String, List, [], ◌∷◌, Option, none, some, Bool, true, ◌&&◌, ◌||◌, not, is_empty,
  if◌then◌else◌, ◌≡◌, ◌⊎◌,
}
use tsbridge.Errors.{
  Err, Result, ok, err, new_validation_error, wrap_validation, str, raw, int, text,
}
use tsbridge.Config.Hostname.{is_valid_hostname, IsHostname}

pub record Net : Type 0 where
  -- `net.SplitHostPort`
  pub split_host_port : List ℕ → Result (List ℕ × List ℕ)
  -- `net.ParseIP(s) != nil`
  pub is_ip : List ℕ → Bool
  -- The errors of `net.ParseCIDR` and `net.ResolveTCPAddr`.
  pub cidr_error : List ℕ → Option Err
  pub tcp_addr_error : List ℕ → Option Err
  -- `url.Parse`: the `Host` and `Port()` of the URL.
  pub parse_url : List ℕ → Result (List ℕ × List ℕ)

-- 1 to 65535
abbrev pub is_port : ℤ → Bool
is_port port = not (ltz port (pos 1) || ltz (pos 65535) port)

module _ (net : Net) where
  -- The tests of the two parts of an address.
  unfoldable pub host_port_error : List ℕ → String → List ℕ → List ℕ → Option Err
  host_port_error addr field_name host port_str = elim (atoi port_str) [
    | none ↦ some (
        new_validation_error
          (record { format = "invalid port in %s %q"; args = str field_name ∷ raw addr ∷ [] }))
    | some port ↦
        if not (is_port port)
        then some (
            new_validation_error (record {
              format = "port in %s must be between 1 and 65535, got %d";
              args = str field_name ∷ int port ∷ [];
            }))
        else if not (is_empty host) && (not (net.is_ip host) && not (is_valid_hostname host))
        then some (
            new_validation_error
              (record { format = "invalid host in %s %q"; args = str field_name ∷ raw addr ∷ [] }))
        else none
  ]

  unfoldable pub validate_addr : List ℕ → String → Option Err
  validate_addr addr field_name = elim (net.split_host_port addr) [
    | err e ↦ some (
        wrap_validation (some e)
          (record { format = "invalid %s %q"; args = str field_name ∷ raw addr ∷ [] }))
    | ok (host, port_str) ↦ host_port_error addr field_name host port_str
  ]

  -- The path of a unix socket, behind `unix://`.
  unfoldable pub socket_error : List ℕ → Option Err
  socket_error path =
      if contains path (bytes ":")
      then some (new_validation_error (text "unix socket cannot have port"))
      else if contains path (bytes "..")
      then some (new_validation_error (text "invalid unix socket path"))
      else if not (has_prefix path (bytes "/"))
      then some (new_validation_error (text "unix socket path must be absolute"))
      else none

  unfoldable pub url_port_error : List ℕ → Option Err
  url_port_error port = elim (atoi port) [
    | none ↦ some (new_validation_error (text "invalid port in backend URL"))
    | some n ↦
        if not (is_port n)
        then some (new_validation_error (text "port must be between 1 and 65535"))
        else none
  ]

  unfoldable pub url_error : List ℕ → Option Err
  url_error addr = elim (net.parse_url addr) [
    | err e ↦ some (new_validation_error (text "invalid backend URL"))
    | ok (host, port) ↦
        if is_empty host
        then some (new_validation_error (text "backend URL must have a host"))
        else if not (is_empty port)
        then url_port_error port
        else none
  ]

  unfoldable pub validate_backend_address : List ℕ → Option Err
  validate_backend_address addr =
      if is_empty addr
      then some (new_validation_error (text "backend address cannot be empty"))
      else if has_prefix addr (bytes "unix:")
      then elim (cut_prefix addr (bytes "unix://")) [
        | none ↦ some (new_validation_error (text "unix socket path must start with unix://"))
        | some socket_path ↦ socket_error socket_path
      ]
      else if has_prefix addr (bytes "http://") || has_prefix addr (bytes "https://")
      then url_error addr
      else validate_addr addr "backend address"

  -- An address with a port from 1 to 65535 and an empty host, an IP address or a hostname.
  pub record IsAddr (addr : List ℕ) : Type 0 where
    pub host : List ℕ
    pub port_str : List ℕ
    pub port : ℕ
    pub splits : net.split_host_port addr ≡ ok (host, port_str)
    pub reads : atoi port_str ≡ some (pos port)
    pub low : 1 ≤ port
    pub high : port ≤ 65535
    pub is_host : (host ≡ []) ⊎ (net.is_ip host ≡ true) ⊎ IsHostname host
