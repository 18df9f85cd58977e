-- ===== src/Docker.antt =====
-- internal/docker/docker.go: the provider that reads the configuration from labels of containers.
-- `Daemon` holds what the Docker client, the file of the host name and the iteration over a map
-- answer at one moment. A method of the provider maps its state to the next one.
pub mod Connect
pub mod Labels
pub mod Parse
pub mod Headers
pub mod Load
pub mod Removal
pub mod Watching
pub mod Backoff
pub mod Comparison
pub mod Delivered
pub mod Cached
use tsbridge.Prelude.{ℕ, String, List, Option, Bool}
use tsbridge.Errors.{Result}
use tsbridge.Config.{Tailscale, Config}
use tsbridge.Config.Credentials.{Os}

-- `container.Summary`; of a port the private one.
pub record Container : Type 0 where
  pub id : String
  pub names : List String
  pub labels : List (String × String)
  pub private_ports : List ℕ

-- `container.ListOptions`, the filters in the order in which they are added.
pub record ListOptions : Type 0 where
  pub all : Bool
  pub filters : List (String × String)

pub record Daemon : Type 0 where
  pub container_list : ListOptions → Result (List Container)
  -- `os.ReadFile("/etc/hostname")`
  pub hostname_file : Result String
  -- The values of a map in the order in which a loop meets them.
  pub range : List (String × Container) → List Container

-- `events.Message`: the type, the action, and the attributes of the actor.
pub record Event : Type 0 where
  pub type : String
  pub action : String
  pub attributes : List (String × String)

-- The provider's state, with the environment of the process that loading changes. Of the debounce
-- timer it holds whether it runs.
pub record Provider : Type 0 where
  pub label_prefix : String
  pub socket_path : String
  pub os : Os
  pub last_config : Option Config
  pub cached_tailscale : Option Tailscale
  pub debouncing : Bool
