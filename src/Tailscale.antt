-- ===== src/Tailscale.antt =====
-- internal/tailscale: a tsnet server for every service.
-- The tsnet library is third-party code. What the program does to it is the list of its calls, the
-- last call first; `Tsnet` answers a call from that list. A server is known by its number.
pub mod Secrets
pub mod Directory
pub mod Listening
pub mod Live
pub mod Tracked
pub mod Operations
pub mod Leaks
pub mod Attempts
use tsbridge.Prelude.Int.{ℤ}
use tsbridge.Prelude.{ℕ, String, List, [], ◌∷◌, Option, Bool}
use tsbridge.Errors.{Err, Result}
use tsbridge.Config.{Tailscale}
use tsbridge.Config.Credentials.{Os}

-- The calls of the interface `TSNetServer`.
pub data Call : Type 0 where
  set_hostname : ℕ → String → Call
  set_ephemeral : ℕ → Bool → Call
  set_control_url : ℕ → String → Call
  set_dir : ℕ → String → Call
  set_auth_key : ℕ → String → Call
  up : (server : ℕ) (timeout : ℤ) → Call
  listen_funnel : ℕ → String → Call
  listen_tls : ℕ → String → Call
  listen : ℕ → String → Call
  close : ℕ → Call

-- What `Close` comes to within its timeout.
pub data Closing : Type 0 where
  closed timed_out : Closing
  close_failed : Err → Closing

pub record Tsnet : Type 0 where
  pub up_error : List Call → Option Err
  -- `errors.Is(err, context.DeadlineExceeded)`
  pub is_deadline : Err → Bool
  pub listener : List Call → Result ℕ
  pub closing : List Call → Closing

-- `Server`, with the number of the next tsnet server and the calls so far.
pub record Server : Type 0 where
  pub config : Tailscale
  pub service_servers : List (String × ℕ)
  pub next : ℕ
  pub calls : List Call

unfoldable pub call : Call → Server → Server
call c s = record s { calls = c ∷ s.calls }
