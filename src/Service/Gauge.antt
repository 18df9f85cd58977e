-- ===== src/Service/Gauge.antt =====
-- The gauge of active services, and the names under which services are registered.
use tsbridge.Prelude.Assoc.{
  lookup, insert, delete, DistinctKeys, insert-DistinctKeys, delete-DistinctKeys,
}
use tsbridge.Prelude.{ℕ, String, List, [], ◌∷◌, Option, none, some, ◌≡◌, refl, arith, length}
use tsbridge.Errors.{Err}
use tsbridge.Config.{Service}
use tsbridge.Service.{Host, RunningService, Registry, Collector}
use tsbridge.Service.Operations.{add_service, remove_service, update_service, collects}
use tsbridge.Service.Refines.{start_service_lem}

-- An assignment to a key that is there does not change the size of a map.
length-insert {ℓ} :
    {V : Type ℓ} (k : String) (v w : V) (m : List (String × V))
    → lookup k m ≡ some w
    → length (insert k v m) ≡ length m
unfolding lookup insert
length-insert k v w [] h = cc
length-insert k v w ((j, u) ∷ m) h = ground (arith, length-insert k v w m)

-- The collector's gauge, if there is a collector, has the value.
abbrev pub Shows : Option Collector → ℕ → Type 0
Shows none n = Unit
Shows (some m) n = m.active_services ≡ n

-- Every service is listed under its own name, which its configuration has too.
abbrev pub AllNamed : {L H : Type 0} → List (String × RunningService L H) → Type 0
AllNamed [] = Unit
AllNamed ((k, svc) ∷ m) = (svc.name ≡ k) × (svc.config.name ≡ k) × AllNamed m

module _ {L H : Type 0} where
  AllNamed-insert :
      (k : String) (svc : RunningService L H) (m : List (String × RunningService L H))
      → svc.name ≡ k
      → svc.config.name ≡ k
      → AllNamed m
      → AllNamed (insert k svc m)
  unfolding insert
  AllNamed-insert k svc [] p q h = (p, q, tt)
  AllNamed-insert k svc ((j, x) ∷ m) p q h = ground (arith, AllNamed-insert k svc m)

  AllNamed-delete :
      (k : String) (m : List (String × RunningService L H)) → AllNamed m → AllNamed (delete k m)
  unfolding delete
  AllNamed-delete k [] h = tt
  AllNamed-delete k ((j, x) ∷ m) h = ground (arith, AllNamed-delete k m)

-- Each service is listed once, under its own name, and the collector's gauge, if there is one, shows how many there are.
pub record IsMetered {W L H : Type 0} (r : Registry W L H) : Type 0 where
  pub distinct : DistinctKeys r.services
  pub named : AllNamed r.services
  pub gauge : Shows r.metrics_collector (length r.services)

module _ {W L H : Type 0} (host : Host W L H) (url_parse_error : List ℕ → Option Err) where
  add_service-IsMetered :
      (s : Service) (r : Registry W L H) → IsMetered r → IsMetered (add_service host s r).0
  unfolding add_service
  add_service-IsMetered s r h = record {
    distinct = grind (arith, insert-DistinctKeys);
    named = grind (arith, AllNamed-insert, start_service_lem host r.config s (collects r));
    gauge = ground arith;
  }

  remove_service-IsMetered :
      (name : String) (r : Registry W L H) → IsMetered r → IsMetered (remove_service host name r).0
  unfolding remove_service
  remove_service-IsMetered name r h = record {
    distinct = ground (arith, delete-DistinctKeys name r.services);
    named = ground (arith, AllNamed-delete name r.services);
    gauge = ground arith;
  }

  update_service-IsMetered :
      (name : String) (s : Service) (r : Registry W L H)
      → s.name ≡ name
      → IsMetered r
      → IsMetered (update_service host url_parse_error name s r).0
  unfolding update_service
  update_service-IsMetered name s r e h = record {
    distinct = grind (arith, delete-DistinctKeys name r.services, insert-DistinctKeys);
    named = grind (
      arith,
      AllNamed-delete name r.services,
      AllNamed-insert,
      start_service_lem host r.config s (collects r),
    );
    gauge = grind (arith, length-insert);
  }

  -- A call of the registry.
  pub data Call : Type 0 where
    add : Service → Call
    remove : String → Call
    update : Service → Call

  abbrev pub run_call : Call → Registry W L H → Registry W L H
  run_call (add s) r = (add_service host s r).0
  run_call (remove name) r = (remove_service host name r).0
  run_call (update s) r = (update_service host url_parse_error s.name s r).0

  abbrev pub run_calls : List Call → Registry W L H → Registry W L H
  run_calls [] r = r
  run_calls (x ∷ xs) r = run_calls xs (run_call x r)

  run_call-IsMetered : (x : Call) (r : Registry W L H) → IsMetered r → IsMetered (run_call x r)
  run_call-IsMetered (add s) r h = add_service-IsMetered s r h
  run_call-IsMetered (remove name) r h = remove_service-IsMetered name r h
  run_call-IsMetered (update s) r h = update_service-IsMetered s.name s r refl h

  -- Through any sequence of calls, failing ones included, in which an update names the service
  -- it is given, every service stays listed once under its own name and the gauge stays the number of
  -- services.
  pub run_calls-IsMetered :
      (xs : List Call) (r : Registry W L H) → IsMetered r → IsMetered (run_calls xs r)
  run_calls-IsMetered [] r h = h
  run_calls-IsMetered (x ∷ xs) r h =
      run_calls-IsMetered xs (run_call x r) (run_call-IsMetered x r h)
