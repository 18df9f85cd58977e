-- ===== src/Service/Operations.antt =====
-- internal/service/service.go: starting and stopping services, and the registry's operations.
use tsbridge.Prelude.Int.{ℤ, is_neg}
use tsbridge.Prelude.Assoc.{lookup, insert, delete, has_key}
use tsbridge.Prelude.Bytes.{bytes, cut_prefix, contains, is_abs}
use tsbridge.Prelude.{
  ℕ, ◌+◌, String, List, [], ◌∷◌, ◌++◌, Option, none, some, Bool, true, false, ◌||◌, or_else, is_nil,
  not, if◌then◌else◌, length, str_eq, ◌==◌,
}
use tsbridge.Constants.{tls_mode_off, tls_mode_auto}
use tsbridge.Errors.{
  Err, Errs, no_errs, more_errs, joined, ok, err, text, str, plain, wrapping, raw, wrap_internal,
  to_failures,
}
use tsbridge.Errors.Startup.{new_service_startup_error}
use tsbridge.Config.{Service, Config}
use tsbridge.Service.{Host, RunningService, Registry, Collector}
use tsbridge.Service.Lifecycle.{start_service, stop}

abbrev is_negative : Option ℤ → Bool
is_negative none = false
is_negative (some d) = is_neg d

module _ {W L H : Type 0} where
  -- `RecordServiceOperation`, if there is a collector.
  abbrev pub record_operation : String → Bool → Registry W L H → Registry W L H
  record_operation operation success r = record r {
    metrics_collector = elim r.metrics_collector [
      | none ↦ none
      | some m ↦ some (record m { operations = (operation, success) ∷ m.operations })
    ];
  }

  -- `SetActiveServices(len(r.services))`, if there is a collector.
  abbrev pub set_active : Registry W L H → Registry W L H
  set_active r = record r {
    metrics_collector = elim r.metrics_collector [
      | none ↦ none
      | some m ↦ some (record m { active_services = length r.services })
    ];
  }

  abbrev pub collects : Registry W L H → Bool
  collects r = not (is_nil r.metrics_collector)

module _ {W L H : Type 0} (host : Host W L H) where
  unfoldable pub new_registry : Config → Option Collector → W → Registry W L H
  new_registry cfg collector w = record {
    config = cfg;
    services = [];
    metrics_collector = collector;
    world = w;
  }

  unfoldable pub get_service : String → Registry W L H → Option (RunningService L H)
  get_service name r = lookup name r.services

  -- One round of the loop of `StartServices`, with the count of the services that started and the
  -- map of the failures: a service that fails is left out.
  unfoldable pub start_step :
      Service → Registry W L H × ℕ × List (String × Err) → Registry W L H × ℕ × List (String × Err)
  start_step svc_cfg (r, successful, failed) =
      let (w, started) = start_service host r.config svc_cfg (collects r) r.world in
      elim started [
        | err e ↦ (record r { world = w }, successful, insert svc_cfg.name e failed)
        | ok svc ↦ (
          record r { world = w; services = insert svc_cfg.name svc r.services },
          successful + 1,
          failed,
        )
      ]

  unfoldable pub start_all :
      List Service
      → Registry W L H × ℕ × List (String × Err)
      → Registry W L H × ℕ × List (String × Err)
  start_all [] st = st
  start_all (svc_cfg ∷ later) st = start_all later (start_step svc_cfg st)

  unfoldable pub start_services : Registry W L H → Registry W L H × Option Err
  unfolding start_all start_step
  start_services r =
      let (r', successful, failed) = start_all r.config.services (r, 0, []) in
      (
        set_active r',
        if length failed == 0
            then none
            else new_service_startup_error (length r.config.services) successful (length failed)
                (to_failures failed),
      )

  -- The services are stopped at the same time, each by itself; here, one after the other.
  stop_all : List (String × RunningService L H) → W → W × Errs
  stop_all [] w = (w, no_errs)
  stop_all ((name, svc) ∷ later) w =
      let (w₁, failed) = stop host svc w in
      let (w₂, errs) = stop_all later w₁ in
      (
        w₂,
        elim failed [
          | none ↦ errs
          | some e ↦
              more_errs
                (wrap_internal (some e)
                  (record { format = "shutting down service %q"; args = str svc.config.name ∷ [] }))
                errs
        ],
      )

  unfoldable pub shutdown : Registry W L H → Registry W L H × Option Err
  unfolding stop_all stop
  shutdown r =
      let (w, errs) = stop_all r.services r.world in
      (
        record r { world = w },
        elim errs [ no_errs ↦ none | more_errs e es ↦ some (joined (more_errs e es)) ],
      )

  unfoldable pub add_service : Service → Registry W L H → Registry W L H × Option Err
  add_service svc_cfg r =
      let name = str svc_cfg.name ∷ [] in
      if has_key svc_cfg.name r.services
      then (
        record_operation "add" false r,
        some (plain (record { format = "service %s already exists"; args = name })),
      )
      else let (w, started) = start_service host r.config svc_cfg (collects r) r.world in
        elim started [
          | err e ↦ (
            record_operation "add" false (record r { world = w }),
            some (wrapping (record { format = "failed to start service %s: %w"; args = name }) e),
          )
          | ok svc ↦ (
            set_active (
                record_operation "add" true
                  (record r { world = w; services = insert svc_cfg.name svc r.services })),
            none,
          )
        ]

  unfoldable pub remove_service : String → Registry W L H → Registry W L H × Option Err
  remove_service name r = elim (lookup name r.services) [
    | none ↦ (
      record_operation "remove" false r,
      some (plain (record { format = "service %s not found"; args = str name ∷ [] })),
    )
    | some svc ↦
        let (w₁, failed) = stop host svc r.world in
        elim failed [
          | some e ↦ (
            record_operation "remove" false (record r { world = w₁ }),
            some (
                wrapping (record { format = "failed to stop service %s: %w"; args = str name ∷ [] })
                  e),
          )
          | none ↦
              let w₂ = (host.close_service name w₁).0 in
              (
                set_active (
                    record_operation "remove" true
                      (record r { world = w₂; services = delete name r.services })),
                none,
              )
        ]
  ]

-- `url_parse_error` is what `url.Parse` returns as its error.
module _ (url_parse_error : List ℕ → Option Err) where
  address_error : List ℕ → Option Err
  address_error addr = elim (cut_prefix addr (bytes "unix://")) [
    | some path ↦
        if not (is_abs path)
        then some (
            plain
              (record { format = "unix socket path must be absolute: %s"; args = raw path ∷ [] }))
        else none
    | none ↦
        let full = if contains addr (bytes "://") then addr else bytes "http://" ++ addr in
        elim (url_parse_error full) [
          | none ↦ none
          | some e ↦ some (wrapping (text "invalid backend address: %w") e)
        ]
  ]

  unfoldable pub validate_service_config : Service → Option Err
  unfolding address_error
  validate_service_config cfg =
      if str_eq cfg.name ""
      then some (plain (text "service name is required"))
      else if str_eq cfg.backend_addr ""
      then some (plain (text "backend address is required"))
      else or_else (address_error (bytes cfg.backend_addr)) (
          if not (str_eq cfg.tls_mode tls_mode_off || str_eq cfg.tls_mode tls_mode_auto)
          then some (
              plain (record {
                format = "invalid TLS mode: %s (must be '%s' or '%s')";
                args = str cfg.tls_mode ∷ str tls_mode_off ∷ str tls_mode_auto ∷ [];
              }))
          else if is_negative cfg.read_header_timeout
          then some (plain (text "read header timeout must be non-negative"))
          else if is_negative cfg.write_timeout
          then some (plain (text "write timeout must be non-negative"))
          else if is_negative cfg.idle_timeout
          then some (plain (text "idle timeout must be non-negative"))
          else if is_negative cfg.response_header_timeout
          then some (plain (text "response header timeout must be non-negative"))
          else none)

module _ {W L H : Type 0} (host : Host W L H) (url_parse_error : List ℕ → Option Err) where
  unfoldable pub update_service : String → Service → Registry W L H → Registry W L H × Option Err
  update_service name new_cfg r = elim (lookup name r.services) [
    | none ↦ (
      record_operation "update" false r,
      some (plain (record { format = "service %s not found"; args = str name ∷ [] })),
    )
    | some old_svc ↦ elim (validate_service_config url_parse_error new_cfg) [
      | some e ↦ (
        record_operation "update" false r,
        some (wrapping (text "invalid service configuration: %w") e),
      )
      | none ↦
          let (w₁, failed) = stop host old_svc r.world in
          elim failed [
            | some e ↦ (
              record_operation "update" false (record r { world = w₁ }),
              some (
                  wrapping
                    (record { format = "failed to stop service %s: %w"; args = str name ∷ [] }) e),
            )
            | none ↦
                let w₂ = (host.close_service name w₁).0 in
                let (w₃, started) = start_service host r.config new_cfg (collects r) w₂ in
                elim started [
                  | err e ↦ (
                    set_active (
                        record_operation "update" false
                          (record r { world = w₃; services = delete name r.services })),
                    some (
                        wrapping
                          (record {
                            format = "failed to start updated service %s: %w";
                            args = str name ∷ [];
                          })
                          e),
                  )
                  | ok new_svc ↦ (
                    record_operation "update" true
                        (record r { world = w₃; services = insert name new_svc r.services }),
                    none,
                  )
                ]
          ]
    ]
  ]
