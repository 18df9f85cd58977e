-- ===== src/App.antt =====
-- internal/app/app.go and internal/app/reload.go: the reload of a running application.
-- The registry is any type with the three operations of the interface `serviceRegistryOps`; Service
-- implements it. `config.ServiceConfigEqual` is the parameter `equal`.
pub mod Contract
pub mod Keys
pub mod Lists
pub mod Loop
pub mod Steps
pub mod Outcome
pub mod Converge
pub mod Performed
pub mod Watch
pub mod Program
pub mod Lifecycle
pub mod Once
use tsbridge.Prelude.Assoc.{insert, lookup, has_key}
use tsbridge.Prelude.{
  String, List, [], ◌∷◌, map, Option, none, some, Bool, true, false, not, ◌&&◌, keep, is_empty,
  is_nil, if◌then◌else◌,
}
use tsbridge.Errors.{Err}
use tsbridge.Errors.Reload.{
  ReloadError, new_reload_error, record_add_error, record_remove_error, record_update_error,
  record_success, to_error,
}
use tsbridge.Config.{Service, Config}

pub record RegistryOps (R : Type 0) : Type 0 where
  pub add_service : Service → R → R × Option Err
  pub remove_service : String → R → R × Option Err
  pub update_service : String → Service → R → R × Option Err

-- `m[svc.Name] = true` for every service.
unfoldable pub name_set : List (String × Bool) → List Service → List (String × Bool)
name_set m [] = m
name_set m (svc ∷ svcs) = name_set (insert svc.name true m) svcs

-- `m[svc.Name] = svc` for every service.
unfoldable pub service_map : List (String × Service) → List Service → List (String × Service)
service_map m [] = m
service_map m (svc ∷ svcs) = service_map (insert svc.name svc m) svcs

unfoldable pub find_services_to_remove : Config → Config → List String
unfolding name_set
find_services_to_remove old new =
    let new_services = name_set [] new.services in
    map (λ (s : Service). s.name)
      (keep (λ (s : Service). not (has_key s.name new_services)) old.services)

unfoldable pub find_services_to_add : Config → Config → List Service
unfolding name_set
find_services_to_add old new =
    let old_services = name_set [] old.services in
    keep (λ (s : Service). not (has_key s.name old_services)) new.services

-- Whether the service is there under its name with another configuration.
abbrev pub is_changed : (Service → Service → Bool) → List (String × Service) → Service → Bool
is_changed equal old_services new_svc = elim (lookup new_svc.name old_services) [
  | none ↦ false
  | some old_svc ↦ not (equal old_svc new_svc)
]

unfoldable pub find_services_to_update : (Service → Service → Bool) → Config → Config → List Service
unfolding service_map
find_services_to_update equal old new =
    let old_services = service_map [] old.services in
    keep (is_changed equal old_services) new.services

-- A loop that hands the registry and the record of errors from one item to the next.
unfoldable pub process :
    {R X : Type 0}
    → (X → R → ReloadError → R × ReloadError)
    → List X
    → R
    → ReloadError
    → R × ReloadError
process step [] r e = (r, e)
process step (x ∷ xs) r e = let (r', e') = step x r e in process step xs r' e'

module _ {R : Type 0} (ops : RegistryOps R) where
  -- The bodies of the three loops.
  unfoldable pub remove_step : String → R → ReloadError → R × ReloadError
  remove_step name r e =
      let (r', failed) = ops.remove_service name r in
      (r', elim failed [ none ↦ record_success e | some x ↦ record_remove_error name x e ])

  unfoldable pub add_step : Service → R → ReloadError → R × ReloadError
  add_step svc r e =
      let (r', failed) = ops.add_service svc r in
      (r', elim failed [ none ↦ record_success e | some x ↦ record_add_error svc.name x e ])

  unfoldable pub update_step : Service → R → ReloadError → R × ReloadError
  update_step svc r e =
      let (r', failed) = ops.update_service svc.name svc r in
      (r', elim failed [ none ↦ record_success e | some x ↦ record_update_error svc.name x e ])

  -- The three loops, in order: removals, additions, updates.
  unfoldable pub apply_changes : List String → List Service → List Service → R → R × ReloadError
  apply_changes to_remove to_add to_update r =
      let (r₁, e₁) = process remove_step to_remove r new_reload_error in
      let (r₂, e₂) = process add_step to_add r₁ e₁ in process update_step to_update r₂ e₂

  module _ (equal : Service → Service → Bool) where
    unfoldable pub reload_config_with_registry : Config → Config → R → R × Option Err
    unfolding apply_changes
    reload_config_with_registry old new r =
        let to_remove = find_services_to_remove old new in
        let to_add = find_services_to_add old new in
        let to_update = find_services_to_update equal old new in
        let (r', e) = apply_changes to_remove to_add to_update r in
        if is_empty to_remove && (is_empty to_add && is_empty to_update)
        then (r, none)
        else (r', to_error e)

    -- The application: its configuration, its registry, and what the metrics collector has been
    -- told of each reload (`none` without a collector).
    pub record App : Type 0 where
      pub cfg : Config
      pub registry : R
      pub reloads : Option (List Bool)

    -- `ReloadConfig` takes the new configuration over whether the reload failed or not.
    unfoldable pub reload_config : Config → App → App × Option Err
    unfolding reload_config_with_registry
    reload_config new_cfg a =
        let (r', e) = reload_config_with_registry a.cfg new_cfg a.registry in
        (
          record {
            cfg = new_cfg;
            registry = r';
            reloads = elim a.reloads [ none ↦ none | some told ↦ some (is_nil e ∷ told) ];
          },
          e,
        )

    -- `watchConfigChanges` over the configurations that it receives before it ends, with the errors
    -- that it logs.
    unfoldable pub watch_config_changes : List Config → App → App × List Err
    watch_config_changes [] a = (a, [])
    watch_config_changes (new_cfg ∷ later) a =
        let (a', e) = reload_config new_cfg a in
        let (done, errs) = watch_config_changes later a' in
        (done, elim e [ none ↦ errs | some x ↦ x ∷ errs ])
