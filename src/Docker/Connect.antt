-- ===== src/Docker/Connect.antt =====
-- internal/docker/docker.go: the endpoint of Docker, the check of its socket, and NewProvider.
use tsbridge.Prelude.Text.{cut_text}
use tsbridge.Prelude.{
  String, [], ◌∷◌, Option, none, some, Bool, false, ◌||◌, not, is_nil, deref, if◌then◌else◌,
}
use tsbridge.Errors.{
  Err, Result, ok, err, new_resource_error, wrap_provider_error, resource, text, str,
}
use tsbridge.Config.Credentials.{Os, getenv}
use tsbridge.Config.Validate.{is_set}
use tsbridge.Docker.{Provider}

-- `os.Stat` with the test for a socket, the tests of its errors, and the Docker client.
pub record Sockets : Type 0 where
  pub is_socket : String → Result Bool
  pub is_not_exist : Err → Bool
  pub is_permission : Err → Bool
  pub client_error : String → Option Err
  pub ping_error : String → Option Err

abbrev starts : String → String → Bool
starts s p = not (is_nil (cut_text s p))

-- The path of the socket, behind `unix://`.
unfoldable pub socket_file_error : Sockets → String → Option Err
socket_file_error sockets path = elim (sockets.is_socket path) [
  | err e ↦
      if sockets.is_not_exist e
      then some (
          new_resource_error (record {
            format = "Docker socket not found at %s. Ensure Docker is installed and running.";
            args = str path ∷ [];
          }))
      else if sockets.is_permission e
      then some (
          new_resource_error (record {
            format =
                "permission denied accessing Docker socket at %s. Try running with appropriate permissions or adding the user to the docker group.";
            args = str path ∷ [];
          }))
      else wrap_provider_error (some e) "docker" resource (text "failed to access Docker socket")
  | ok is_socket ↦
      if not is_socket
      then some (
          new_resource_error
            (record { format = "path %s exists but is not a socket"; args = str path ∷ [] }))
      else none
]

unfoldable pub validate_docker_access : Sockets → String → Option Err
unfolding socket_file_error cut_text
validate_docker_access sockets socket_path =
    if starts socket_path "tcp://"
      || (starts socket_path "http://"
          || (starts socket_path "https://"
              || (starts socket_path "ssh://" || starts socket_path "npipe://")))
    then none
    else socket_file_error sockets (deref (cut_text socket_path "unix://") socket_path)

-- The option, else the environment, else the default socket.
unfoldable pub resolve_docker_endpoint : Os → String → String
resolve_docker_endpoint os endpoint =
    if is_set endpoint
    then endpoint
    else if is_set (getenv os "DOCKER_HOST")
    then getenv os "DOCKER_HOST"
    else "unix:///var/run/docker.sock"

-- The provider for an endpoint whose socket can be used.
unfoldable pub connect : Sockets → Os → (label_prefix endpoint : String) → Result Provider
connect sockets os label_prefix endpoint =
    elim (wrap_provider_error (sockets.client_error endpoint) "docker" resource
      (text "creating Docker client")) [
        | some e ↦ err e
        | none ↦
            elim (wrap_provider_error (sockets.ping_error endpoint) "docker" resource
              (text "connecting to Docker")) [
                | some e ↦ err e
                | none ↦ ok (record {
                  label_prefix = label_prefix;
                  socket_path = endpoint;
                  os = os;
                  last_config = none;
                  cached_tailscale = none;
                  debouncing = false;
                })
              ]
      ]

unfoldable pub new_provider : Sockets → Os → (endpoint label_prefix : String) → Result Provider
unfolding validate_docker_access resolve_docker_endpoint connect
new_provider sockets os given label_prefix =
    let endpoint = resolve_docker_endpoint os given in
    let prefix = if is_set label_prefix then label_prefix else "tsbridge" in
    elim (validate_docker_access sockets endpoint) [
      | some e ↦ err e
      | none ↦ connect sockets os prefix endpoint
    ]
