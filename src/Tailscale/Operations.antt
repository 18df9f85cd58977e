-- ===== src/Tailscale/Operations.antt =====
-- About one operation of the server: Listen and CloseService keep every tsnet server tracked.
use tsbridge.Prelude.Assoc.{lookup, delete, lookup-delete, All-delete}
use tsbridge.Prelude.{
  ℕ, suc, ◌<◌, String, ◌∷◌, none, some, Bool, false, ◌≡◌, arith, str_eq_iff, ◌==◌, Bool-cases,
  Option-cases, inl, inr, sym, subst,
}
use tsbridge.Errors.{ok, err}
use tsbridge.Config.{Service}
use tsbridge.Config.Credentials.{Os}
use tsbridge.Tailscale.{Call, set_auth_key, Tsnet, Server, call}
use tsbridge.Tailscale.Secrets.{Api}
use tsbridge.Tailscale.Directory.{Files, resolve_base_state_dir}
use tsbridge.Tailscale.Listening.{
  configure, open_server, listen, after_auth, close_server_with_timeout, close_service,
  prepare_service_auth,
}
use tsbridge.Tailscale.Live.{open_server-IsOpening, configure-untouched, is_err, IsTouched}
use tsbridge.Tailscale.Tracked.{IsTracked, opening-IsTracked, quiet-IsTracked}

pub configure-kept :
    (api : Api) (files : Files) (os : Os) (s : Server) (svc : Service) (dir : String)
    → ((configure api files os s svc dir).service_servers ≡ s.service_servers)
      × ((configure api files os s svc dir).next ≡ suc s.next)
unfolding configure call
configure-kept api files os s svc dir = ground arith

-- A server that is configured, perhaps with its key, and opened under a name that is free.
module _ (tsnet : Tsnet) (svc : Service) (tls_mode : String) (funnel : Bool) (s s₀ : Server) where
  open_server-IsTracked :
      IsTracked s
      → lookup svc.name s.service_servers ≡ none
      → s₀.service_servers ≡ s.service_servers
      → s₀.next ≡ suc s.next
      → ((id : ℕ) → IsTouched id s.calls s₀.calls false false)
      → IsTracked (open_server tsnet s.next svc tls_mode funnel s₀).0
  open_server-IsTracked t free servers next same =
      opening-IsTracked s₀ (open_server tsnet s.next svc tls_mode funnel s₀).0 s.next svc.name
        (is_err (open_server tsnet s.next svc tls_mode funnel s₀).1)
        (quiet-IsTracked s s₀ t servers (ground (arith, next)) same) (ground (arith, next))
        (ground (arith, (same s.next).starting, t.unused s.next))
        (ground (arith, (same s.next).closing, t.unused s.next)) (ground (arith, servers))
        (open_server-IsOpening tsnet s.next svc tls_mode funnel s₀)

pub listen-IsTracked :
    (tsnet : Tsnet) (api : Api) (files : Files) (os : Os) (svc : Service) (tls_mode : String)
    (funnel : Bool) (s : Server)
    → IsTracked s
    → lookup svc.name s.service_servers ≡ none
    → IsTracked (listen tsnet api files os svc tls_mode funnel s).0
unfolding listen after_auth call
listen-IsTracked tsnet api files os svc tls_mode funnel s t free =
    let dir = (resolve_base_state_dir files os s.config.state_dir).0 in
    let configured = configure api files os s svc dir in
    let (servers, next) = configure-kept api files os s svc dir in
    let same : (id : ℕ) → IsTouched id s.calls configured.calls false false =
      configure-untouched api files os s svc dir in
    elim (prepare_service_auth api files os s svc dir)
      as (λ prepared.
        IsTracked (after_auth tsnet svc tls_mode funnel s.next configured prepared).0) [
          | err e ↦ quiet-IsTracked s configured t servers (ground (arith, next)) same
          | ok none ↦
              open_server-IsTracked tsnet svc tls_mode funnel s configured t free servers next same
          | ok (some auth_key) ↦
              open_server-IsTracked tsnet svc tls_mode funnel s
                (call (set_auth_key s.next auth_key) configured) t free servers next
                (λ id. record { starting = (same id).starting; closing = (same id).closing })
        ]

-- Closing a server that has left the map.
pub close_service-IsTracked :
    (tsnet : Tsnet) (name : String) (s : Server)
    → IsTracked s
    → IsTracked (close_service tsnet name s).0
unfolding close_service close_server_with_timeout call
close_service-IsTracked tsnet name s t = elim (Option-cases (lookup name s.service_servers)) [
  | inl missing ↦
      let same : (close_service tsnet name s).0 ≡ s = ground arith in
      subst (λ q. IsTracked q) (sym same) t
  | inr (server, found) ↦
      let is : (close_service tsnet name s).0 ≡ record s {
        service_servers = delete name s.service_servers;
        calls = Call.close server ∷ s.calls;
      } =
        ground arith in
      subst (λ q. IsTracked q) (sym is)
        (record {
          known = λ id h. elim (Bool-cases (server == id)) [
            | inl here ↦ inl (ground arith)
            | inr other ↦ elim (t.known id (ground arith)) [
              | inl gone ↦ inl (ground arith)
              | inr (n, there) ↦
                  inr (n, ground (arith, lookup-delete name n s.service_servers, str_eq_iff name n))
            ]
          ];
          alive = λ n id h. (
            ground (arith, lookup-delete name n s.service_servers, t.alive n id),
            ground (
              arith,
              lookup-delete name n s.service_servers,
              t.alive n id,
              t.one_name n name id,
              str_eq_iff name n,
            ),
          );
          one_name = λ a b id h k. ground (
            arith,
            lookup-delete name a s.service_servers,
            lookup-delete name b s.service_servers,
            t.one_name a b id,
          );
          unused = λ id h. (
            ground (arith, t.unused id),
            ground (arith, t.unused id, t.alive name server found, t.unused server),
          );
          below = All-delete (λ (n, id). id < s.next) name s.service_servers t.below;
        })
]
