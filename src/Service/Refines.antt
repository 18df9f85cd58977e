-- ===== src/Service/Refines.antt =====
-- The registry of services beside the contract that a reload relies on.
use tsbridge.Prelude.Assoc.{lookup, has_key, lookup-insert, lookup-delete}
use tsbridge.Prelude.{
  ℕ, String, List, Option, none, some, Bool, false, ◌≡◌, ◌≢◌, refl, arith, str_eq, str_eq_iff,
  str_eq_refl, Bool-cases, inl, inr, ap, ◌⊎◌,
}
use tsbridge.Errors.{Err, ok, Result-cases}
use tsbridge.Config.{Service, Config}
use tsbridge.App.{RegistryOps}
use tsbridge.App.Contract.{RegistryContract}
use tsbridge.Service.{Host, RunningService, Registry}
use tsbridge.Service.Lifecycle.{start_service}
use tsbridge.Service.Operations.{add_service, remove_service, update_service, collects}

neq : (m n : String) → m ≢ n → str_eq m n ≡ false
neq m n h = ground (arith, str_eq_iff m n)

module _ {W L H : Type 0} (host : Host W L H) where
  -- A started service runs the configuration that it was started with, under its name.
  pub start_service_lem :
      (config : Config) (s : Service) (b : Bool) (w : W) (svc : RunningService L H)
      → (start_service host config s b w).1 ≡ ok svc
      → (svc.config ≡ s) × (svc.name ≡ s.name)
  unfolding start_service
  start_service_lem config s b w svc h = ground arith

abbrev pub config_of : {L H : Type 0} → Option (RunningService L H) → Option Service
config_of none = none
config_of (some svc) = some svc.config

module _ {W L H : Type 0} where
  -- The configuration that runs under a name.
  abbrev pub running : Registry W L H → String → Option Service
  running r n = config_of (lookup n r.services)

module _ {W L H : Type 0} (host : Host W L H) (url_parse_error : List ℕ → Option Err) where
  abbrev pub registry_ops : RegistryOps (Registry W L H)
  registry_ops = record {
    add_service = add_service host;
    remove_service = remove_service host;
    update_service = update_service host url_parse_error;
  }

  module _ (s : Service) (r : Registry W L H) where
    add_frame : (n : String) → s.name ≢ n → running (add_service host s r).0 n ≡ running r n
    unfolding add_service
    add_frame n h = elim (Bool-cases (has_key s.name r.services)) [
      | inl taken ↦ rw taken refl
      | inr free ↦ elim (Result-cases (start_service host r.config s (collects r) r.world).1) [
        | inl (e, failed) ↦ rw (free, failed) refl
        | inr (svc, started) ↦ rw (free, started, lookup-insert, neq s.name n h) refl
      ]
    ]

    add_ok : (add_service host s r).1 ≡ none → running (add_service host s r).0 s.name ≡ some s
    unfolding add_service
    add_ok h = elim (Bool-cases (has_key s.name r.services)) [
      | inl taken ↦ cc (rw (taken, add_service) at h)
      | inr free ↦ elim (Result-cases (start_service host r.config s (collects r) r.world).1) [
        | inl (e, failed) ↦ cc (rw (free, failed, add_service) at h)
        | inr (svc, started) ↦
            rw (free, started, lookup-insert, str_eq_refl s.name)
              (ap some (start_service_lem host r.config s (collects r) r.world svc started).0)
      ]
    ]

    add_err :
        (e : Err)
        → (add_service host s r).1 ≡ some e
        → running (add_service host s r).0 s.name ≡ running r s.name
    unfolding add_service
    add_err x h = elim (Bool-cases (has_key s.name r.services)) [
      | inl taken ↦ rw taken refl
      | inr free ↦ elim (Result-cases (start_service host r.config s (collects r) r.world).1) [
        | inl (e, failed) ↦ rw (free, failed) refl
        | inr (svc, started) ↦ cc (rw (free, started, add_service) at h)
      ]
    ]

  module _ (m : String) (r : Registry W L H) where
    remove_frame : (n : String) → m ≢ n → running (remove_service host m r).0 n ≡ running r n
    unfolding remove_service
    remove_frame n h = ground (arith, lookup-delete m n r.services, neq m n h)

    remove_ok : (remove_service host m r).1 ≡ none → running (remove_service host m r).0 m ≡ none
    unfolding remove_service
    remove_ok h = ground (arith, lookup-delete m m r.services, str_eq_refl m)

    remove_err :
        (e : Err)
        → (remove_service host m r).1 ≡ some e
        → running (remove_service host m r).0 m ≡ running r m
    unfolding remove_service
    remove_err e h = ground arith

    module _ (s : Service) where
      update_frame :
          (n : String)
          → m ≢ n
          → running (update_service host url_parse_error m s r).0 n ≡ running r n
      unfolding update_service
      update_frame n h = grind (arith, lookup-delete m n r.services, lookup-insert, neq m n h)

      update_ok :
          (update_service host url_parse_error m s r).1 ≡ none
          → running (update_service host url_parse_error m s r).0 m ≡ some s
      unfolding update_service
      update_ok h =
          grind
            (arith, start_service_lem host r.config s (collects r), lookup-insert, str_eq_refl m)

      update_err :
          (e : Err)
          → (update_service host url_parse_error m s r).1 ≡ some e
          → (running (update_service host url_parse_error m s r).0 m ≡ running r m)
            ⊎ (running (update_service host url_parse_error m s r).0 m ≡ none)
      unfolding update_service
      update_err e h = ground (arith, lookup-delete m m r.services, str_eq_refl m)

      update_missing :
          running r m ≡ none
          → ((update_service host url_parse_error m s r).1 ≢ none)
            × (running (update_service host url_parse_error m s r).0 m ≡ none)
      unfolding update_service
      update_missing h = (ground arith, ground arith)

  -- The registry meets the contract of a reload, for every host: what runs under a name changes
  -- only by an operation on that name, an operation that reports no error has done its work, a
  -- failed addition or removal changes nothing, and a failed update keeps or loses the service.
  pub registry_contract : RegistryContract registry_ops running
  registry_contract = record {
    add_frame = add_frame;
    remove_frame = remove_frame;
    update_frame = λ m s r. update_frame m r s;
    add_ok = add_ok;
    remove_ok = remove_ok;
    update_ok = λ m s r. update_ok m r s;
    add_err = add_err;
    remove_err = remove_err;
    update_err = λ m s r. update_err m r s;
    update_missing = λ m s r. update_missing m r s;
  }
