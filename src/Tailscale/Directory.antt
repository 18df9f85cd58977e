-- ===== src/Tailscale/Directory.antt =====
-- internal/tailscale/tailscale.go and state.go: where the state of a service is kept.
use Prim.Native.Char.{code}
use tsbridge.Prelude.{String, ◌==◌, ◌&&◌, Bool, false, true, if◌then◌else◌}
use tsbridge.Errors.{Result, ok, err}
use tsbridge.Config.Validate.{is_set}
use tsbridge.Config.Credentials.{Os, getenv}

-- Package `filepath`, the data directory of package `xdg`, and `os.Stat` with `IsDir`.
pub record Files : Type 0 where
  pub join : String → String → String
  pub data_home : String
  pub is_dir : String → Result Bool

-- `strings.Split(s, ":")[0]`
unfoldable pub before_colon : String → String
before_colon String.[] = ""
before_colon (String.◌∷◌ c s) =
    let rest = before_colon s in if code c == b':' then "" else String.◌∷◌ c rest

module _ (files : Files) (os : Os) where
  unfoldable pub get_default_state_dir : String
  get_default_state_dir = files.join files.data_home "tsbridge"

  -- The directory and what it comes from. Without a colon the text before the colon is all of it.
  unfoldable pub resolve_base_state_dir : String → String × String
  unfolding before_colon get_default_state_dir
  resolve_base_state_dir state_dir =
      if is_set state_dir
      then (state_dir, "config")
      else if is_set (before_colon (getenv os "STATE_DIRECTORY"))
      then (before_colon (getenv os "STATE_DIRECTORY"), "STATE_DIRECTORY env")
      else if is_set (getenv os "TSBRIDGE_STATE_DIR")
      then (getenv os "TSBRIDGE_STATE_DIR", "TSBRIDGE_STATE_DIR env")
      else (get_default_state_dir, "XDG default")

unfoldable pub has_existing_state : Files → (state_dir service_name : String) → Bool
has_existing_state files state_dir service_name =
    let service_state_dir = files.join state_dir service_name in
    elim (files.is_dir service_state_dir) [
      | err e ↦ false
      | ok is_directory ↦
          let state_file = files.join service_state_dir "tailscaled.state" in
          is_directory && elim (files.is_dir state_file) [ err e ↦ false | ok any ↦ true ]
    ]
