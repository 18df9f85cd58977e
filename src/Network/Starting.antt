-- ===== src/Network/Starting.antt =====
-- What starting a service does to the tsnet servers.
use tsbridge.Prelude.Assoc.{lookup, lookup-delete}
use tsbridge.Prelude.{
  ℕ, String, none, some, Bool, true, false, is_nil, deref, ◌≡◌, refl, arith, str_eq, str_eq_iff,
  if◌then◌else◌, Bool-cases, Option-cases, inl, inr, subst, sym,
}
use tsbridge.Errors.{ok, err, Result-cases}
use tsbridge.Config.{Service, Config}
use tsbridge.Config.Credentials.{Os}
use tsbridge.Service.{Host}
use tsbridge.Service.Handler.{create_handler}
use tsbridge.Service.Lifecycle.{start_service}
use tsbridge.Tailscale.{Tsnet, Server, call, set_auth_key}
use tsbridge.Tailscale.Secrets.{Api}
use tsbridge.Tailscale.Directory.{Files, resolve_base_state_dir}
use tsbridge.Tailscale.Listening.{
  listen, after_auth, open_server, configure, prepare_service_auth, close_service,
  close_server_with_timeout,
}
use tsbridge.Tailscale.Live.{is_err, open_server-IsOpening}
use tsbridge.Tailscale.Tracked.{IsTracked, lookup-opening}
use tsbridge.Tailscale.Operations.{configure-kept, listen-IsTracked, close_service-IsTracked}
use tsbridge.Network.{Outer, network_host}

-- Whether the map has the name after a call that has failed or not.
abbrev pub MapsAfter : String → Bool → Server → Server → Type 0
MapsAfter name failed s s' =
    (n : String)
    → is_nil (lookup n s'.service_servers)
      ≡ (if str_eq name n then failed else is_nil (lookup n s.service_servers))

open_server-MapsAfter :
    (tsnet : Tsnet) (svc : Service) (mode : String) (funnel : Bool) (server : ℕ) (s s₀ : Server)
    → s₀.service_servers ≡ s.service_servers
    → lookup svc.name s.service_servers ≡ none
    → MapsAfter svc.name
        (is_err (open_server tsnet server svc mode funnel s₀).1)
        s
        (open_server tsnet server svc mode funnel s₀).0
open_server-MapsAfter tsnet svc mode funnel server s s₀ same free n =
    let opened = open_server tsnet server svc mode funnel s₀ in
    let found =
      lookup-opening s₀ opened.0 server svc.name (is_err opened.1) n (ground (arith, same))
        (open_server-IsOpening tsnet server svc mode funnel s₀) in
    elim (Bool-cases (is_err opened.1)) [
      | inl bad ↦ ground (arith, found, same)
      | inr good ↦ ground (arith, found, same)
    ]

listen-MapsAfter :
    (tsnet : Tsnet) (api : Api) (files : Files) (os : Os) (svc : Service) (mode : String)
    (funnel : Bool) (s : Server)
    → lookup svc.name s.service_servers ≡ none
    → MapsAfter svc.name
        (is_err (listen tsnet api files os svc mode funnel s).1)
        s
        (listen tsnet api files os svc mode funnel s).0
unfolding listen after_auth call
listen-MapsAfter tsnet api files os svc mode funnel s free =
    let dir = (resolve_base_state_dir files os s.config.state_dir).0 in
    let configured = configure api files os s svc dir in
    let (servers, next) = configure-kept api files os s svc dir in
    elim (prepare_service_auth api files os s svc dir)
      as (λ prepared.
        MapsAfter svc.name (is_err (after_auth tsnet svc mode funnel s.next configured prepared).1)
          s (after_auth tsnet svc mode funnel s.next configured prepared).0) [
            | err e ↦ λ n. ground (arith, servers, str_eq_iff svc.name n)
            | ok none ↦ open_server-MapsAfter tsnet svc mode funnel s.next s configured servers free
            | ok (some auth_key) ↦
                open_server-MapsAfter tsnet svc mode funnel s.next s
                  (call (set_auth_key s.next auth_key) configured) servers free
          ]

pub close_service-MapsAfter :
    (tsnet : Tsnet) (name : String) (s : Server)
    → MapsAfter name true s (close_service tsnet name s).0
unfolding close_service close_server_with_timeout call
close_service-MapsAfter tsnet name s n = elim (Option-cases (lookup name s.service_servers)) [
  | inl missing ↦ ground (arith, str_eq_iff name n)
  | inr (server, found) ↦ ground (arith, lookup-delete name n s.service_servers)
]

module _ {U H : Type 0} (tsnet : Tsnet) (api : Api) (files : Files) (os : Os)
    (outer : Outer U H) where
  abbrev net_host : Host (Server × U) ℕ H
  net_host = network_host tsnet api files os outer

  create_handler-server :
      (config : Config) (svc : Service) (collects : Bool) (w : Server × U)
      → (create_handler net_host config svc collects w).0.0 ≡ w.0
  unfolding create_handler
  create_handler-server config svc collects w = refl

  along :
      (name : String) (s q q' : Server) (b b' : Bool)
      → q' ≡ q
      → b' ≡ b
      → IsTracked q × MapsAfter name b s q
      → IsTracked q' × MapsAfter name b' s q'
  along name s q q' b b' e f (t, maps) =
      (subst (λ q. IsTracked q) (sym e) t, λ n. ground (arith, maps n))

  -- A service that starts under a free name leaves its server in the map; one that fails leaves none.
  pub start_service-MapsAfter :
      (config : Config) (svc : Service) (collects : Bool) (w : Server × U)
      → lookup svc.name w.0.service_servers ≡ none
      → IsTracked w.0
      → IsTracked (start_service net_host config svc collects w).0.0
        × MapsAfter svc.name
            (is_err (start_service net_host config svc collects w).1)
            w.0
            (start_service net_host config svc collects w).0.0
  unfolding start_service
  start_service-MapsAfter config svc collects (s, u) free t =
      let mode = svc.tls_mode in
      let funnel = deref svc.funnel_enabled false in
      let listened = listen tsnet api files os svc mode funnel s in
      let kept = listen-IsTracked tsnet api files os svc mode funnel s t free in
      let maps = listen-MapsAfter tsnet api files os svc mode funnel s free in
      let w : Server × U = (listened.0, u) in
      let started = start_service net_host config svc collects (s, u) in
      let closed = (close_service tsnet svc.name listened.0).0 in
      elim (Result-cases listened.1) [
        | inl (e, failed) ↦
            along svc.name s listened.0 started.0.0 true (is_err started.1) (ground arith)
              (ground arith) (kept, λ n. ground (arith, maps n))
        | inr (listener, opened) ↦
            elim (Result-cases (create_handler net_host config svc collects w).1) [
              | inl (e, failed) ↦
                  along svc.name s closed started.0.0 true (is_err started.1) (ground arith)
                    (ground arith)
                    (
                      close_service-IsTracked tsnet svc.name listened.0 kept,
                      λ n.
                          ground
                            (arith, maps n, close_service-MapsAfter tsnet svc.name listened.0 n),
                    )
              | inr (handler, made) ↦
                  along svc.name s listened.0 started.0.0 false (is_err started.1) (ground arith)
                    (ground arith) (kept, λ n. ground (arith, maps n))
            ]
      ]
