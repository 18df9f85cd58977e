-- ===== src/Network/Linked.antt =====
-- About the registry and the tsnet servers behind it.
use tsbridge.Prelude.Assoc.{lookup, lookup-insert, lookup-delete}
use tsbridge.Prelude.{
  ℕ, String, List, [], ◌∷◌, Option, none, Bool, true, false, is_nil, ◌≡◌, arith, str_eq, str_eq_iff,
  if◌then◌else◌, Option-cases, inl, inr, subst, sym,
}
use tsbridge.Errors.{Err, ok, Result-cases}
use tsbridge.Config.{Service, Config}
use tsbridge.Config.Credentials.{Os}
use tsbridge.Service.{Host, RunningService, Registry, Collector}
use tsbridge.Service.Lifecycle.{start_service, stop}
use tsbridge.Service.Operations.{
  new_registry, add_service, remove_service, update_service, validate_service_config, collects,
}
use tsbridge.Service.Gauge.{Call, add, remove, update, run_calls}
use tsbridge.Tailscale.{Tsnet, Server}
use tsbridge.Tailscale.Secrets.{Api}
use tsbridge.Tailscale.Directory.{Files}
use tsbridge.Tailscale.Listening.{close_service, new_server_with_factory}
use tsbridge.Tailscale.Tracked.{IsTracked}
use tsbridge.Tailscale.Operations.{close_service-IsTracked}
use tsbridge.Tailscale.Leaks.{new_server-IsTracked, new_server-fresh}
use tsbridge.Network.{Outer, network_host}
use tsbridge.Network.Starting.{MapsAfter, close_service-MapsAfter, start_service-MapsAfter}

-- The tsnet servers are tracked, and the services that run are those with a server.
pub record IsLinked {U H : Type 0} (r : Registry (Server × U) ℕ H) : Type 0 where
  pub tracked : IsTracked r.world.0
  pub same :
      (n : String) → is_nil (lookup n r.services) ≡ is_nil (lookup n r.world.0.service_servers)

-- The map of services after a call that has failed or not.
abbrev ServicesAfter :
    {H : Type 0}
    → String
    → Bool
    → List (String × RunningService ℕ H)
    → List (String × RunningService ℕ H)
    → Type 0
ServicesAfter name gone m m' =
    (n : String) → is_nil (lookup n m') ≡ (if str_eq name n then gone else is_nil (lookup n m))

module _ {U H : Type 0} (tsnet : Tsnet) (api : Api) (files : Files) (os : Os)
    (outer : Outer U H) where
  abbrev net_host : Host (Server × U) ℕ H
  net_host = network_host tsnet api files os outer

  -- Nothing changes, or one name does, in the same way on both sides.
  unchanged :
      (r r' : Registry (Server × U) ℕ H)
      → IsLinked r
      → r'.world.0 ≡ r.world.0
      → r'.services ≡ r.services
      → IsLinked r'
  unchanged r r' h e f = record {
    tracked = subst (λ q. IsTracked q) (sym e) h.tracked;
    same = λ n. ground (arith, h.same n, e, f);
  }

  changed :
      (name : String) (r r' : Registry (Server × U) ℕ H) (q : Server) (gone : Bool)
      → IsLinked r
      → r'.world.0 ≡ q
      → IsTracked q
      → MapsAfter name gone r.world.0 q
      → ServicesAfter name gone r.services r'.services
      → IsLinked r'
  changed name r r' q gone h e t maps services = record {
    tracked = subst (λ q. IsTracked q) (sym e) t;
    same = λ n. ground (arith, h.same n, e, maps n, services n);
  }

  stop-server : (svc : RunningService ℕ H) (w : Server × U) → (stop net_host svc w).0.0 ≡ w.0
  unfolding stop
  stop-server svc (s, u) = elim (Option-cases (outer.shutdown_server svc.server svc.listener u).1) [
    | inl fine ↦ ground arith
    | inr (e, failed) ↦ ground arith
  ]

  add_service-IsLinked :
      (svc : Service) (r : Registry (Server × U) ℕ H)
      → IsLinked r
      → IsLinked (add_service net_host svc r).0
  unfolding add_service
  add_service-IsLinked svc r h = elim (Option-cases (lookup svc.name r.services)) [
    | inr (there, found) ↦
        unchanged r (add_service net_host svc r).0 h (ground arith) (ground arith)
    | inl missing ↦
        let free : lookup svc.name r.world.0.service_servers ≡ none =
          ground (arith, h.same svc.name) in
        let started = start_service net_host r.config svc (collects r) r.world in
        let (t, maps) =
          start_service-MapsAfter tsnet api files os outer r.config svc (collects r) r.world free
            h.tracked in
        elim (Result-cases started.1) [
          | inl (e, failed) ↦
              changed svc.name r (add_service net_host svc r).0 started.0.0 true h (ground arith) t
                (λ n. ground (arith, maps n)) (λ n. ground (arith, str_eq_iff svc.name n))
          | inr (run, done) ↦
              changed svc.name r (add_service net_host svc r).0 started.0.0 false h (ground arith) t
                (λ n. ground (arith, maps n))
                (λ n. ground (arith, lookup-insert svc.name n run r.services))
        ]
  ]

  remove_service-IsLinked :
      (name : String) (r : Registry (Server × U) ℕ H)
      → IsLinked r
      → IsLinked (remove_service net_host name r).0
  unfolding remove_service
  remove_service-IsLinked name r h = elim (Option-cases (lookup name r.services)) [
    | inl missing ↦ unchanged r (remove_service net_host name r).0 h (ground arith) (ground arith)
    | inr (svc, found) ↦
        let stopped = stop net_host svc r.world in
        let left = stop-server svc r.world in
        let closed = (close_service tsnet name stopped.0.0).0 in
        elim (Option-cases stopped.1) [
          | inr (e, failed) ↦
              unchanged r (remove_service net_host name r).0 h (ground (arith, left)) (ground arith)
          | inl fine ↦
              changed name r (remove_service net_host name r).0 closed true h (ground arith)
                (close_service-IsTracked tsnet name stopped.0.0
                  (subst (λ q. IsTracked q) (sym left) h.tracked))
                (λ n. ground (arith, close_service-MapsAfter tsnet name stopped.0.0 n, left))
                (λ n. ground (arith, lookup-delete name n r.services))
        ]
  ]

  module _ (url_parse_error : List ℕ → Option Err) where
    update_service-IsLinked :
        (svc : Service) (r : Registry (Server × U) ℕ H)
        → IsLinked r
        → IsLinked (update_service net_host url_parse_error svc.name svc r).0
    unfolding update_service
    update_service-IsLinked svc r h = elim (Option-cases (lookup svc.name r.services)) [
      | inl missing ↦ unchanged r updated h (ground arith) (ground arith)
      | inr (old, found) ↦ elim (Option-cases (validate_service_config url_parse_error svc)) [
        | inr (e, invalid) ↦ unchanged r updated h (ground arith) (ground arith)
        | inl valid ↦
            let stopped = stop net_host old r.world in
            let left = stop-server old r.world in
            let w = (net_host.close_service svc.name stopped.0).0 in
            let kept =
              close_service-IsTracked tsnet svc.name stopped.0.0
                (subst (λ q. IsTracked q) (sym left) h.tracked) in
            let maps = close_service-MapsAfter tsnet svc.name stopped.0.0 in
            let free : lookup svc.name w.0.service_servers ≡ none =
              ground (arith, maps svc.name, str_eq_iff svc.name svc.name) in
            let started = start_service net_host r.config svc (collects r) w in
            let (t, later) =
              start_service-MapsAfter tsnet api files os outer r.config svc (collects r) w free
                kept in
            elim (Option-cases stopped.1) [
              | inr (e, failed) ↦ unchanged r updated h (ground (arith, left)) (ground arith)
              | inl fine ↦ elim (Result-cases started.1) [
                | inl (e, failed) ↦
                    changed svc.name r updated started.0.0 true h (ground arith) t
                      (λ n. ground (arith, maps n, later n, left))
                      (λ n. ground (arith, lookup-delete svc.name n r.services))
                | inr (run, done) ↦
                    changed svc.name r updated started.0.0 false h (ground arith) t
                      (λ n. ground (arith, maps n, later n, left))
                      (λ n. ground (arith, lookup-insert svc.name n run r.services))
              ]
            ]
      ]
    ]
      where
        updated : Registry (Server × U) ℕ H
        updated = (update_service net_host url_parse_error svc.name svc r).0

    run_calls_keep :
        (xs : List (Call net_host url_parse_error)) (r : Registry (Server × U) ℕ H)
        → IsLinked r
        → IsLinked (run_calls net_host url_parse_error xs r)
    run_calls_keep [] r h = h
    run_calls_keep (add svc ∷ xs) r h = run_calls_keep xs _ (add_service-IsLinked svc r h)
    run_calls_keep (remove name ∷ xs) r h = run_calls_keep xs _ (remove_service-IsLinked name r h)
    run_calls_keep (update svc ∷ xs) r h = run_calls_keep xs _ (update_service-IsLinked svc r h)

-- From a new registry over a new Tailscale server, through any sequence of additions, removals and
-- updates of services, failing ones included: the services of the registry are those that have a
-- tsnet server, and every tsnet server that has been started has been closed or is that of a
-- service, whose server is not closed.
pub run_calls-IsLinked :
    {U H : Type 0} (tsnet : Tsnet) (api : Api) (files : Files) (os : Os) (outer : Outer U H)
    (url_parse_error : List ℕ → Option Err) (cfg : Config) (collector : Option Collector)
    (s : Server) (u : U) (xs : List (Call (network_host tsnet api files os outer) url_parse_error))
    → new_server_with_factory cfg.tailscale ≡ ok s
    → IsLinked (
        run_calls
          (network_host tsnet api files os outer)
          url_parse_error
          xs
          (new_registry (network_host tsnet api files os outer) cfg collector (s, u)))
unfolding new_registry lookup
run_calls-IsLinked tsnet api files os outer url_parse_error cfg collector s u xs h =
    run_calls_keep tsnet api files os outer url_parse_error xs _ (record {
      tracked = new_server-IsTracked cfg.tailscale s h;
      same = λ n. ground (arith, new_server-fresh cfg.tailscale s h);
    })
