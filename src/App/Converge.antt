-- ===== src/App/Converge.antt =====
-- One reload, name by name.
use tsbridge.Prelude.Assoc.{lookup}
use tsbridge.Prelude.{
  String, Option, none, some, Bool, true, ◌<◌, ◌≡◌, refl, arith, Bool-cases, ◌⊎◌, inl, inr,
}
use tsbridge.Errors.Reload.{ReloadError, new_reload_error, to_error}
use tsbridge.Config.{Service, Config}
use tsbridge.App.{
  RegistryOps, apply_changes, find_services_to_remove, find_services_to_add,
  find_services_to_update, reload_config_with_registry,
}
use tsbridge.App.Steps.{remove_law, add_law, update_law}
use tsbridge.App.Outcome.{
  apply_changes_frame, apply_changes_updated, apply_changes_added, apply_changes_removed,
  early_return,
}
use tsbridge.App.Contract.{RegistryContract}
use tsbridge.App.Loop.{is_recorded, process_counted}
use tsbridge.App.Lists.{
  find_service, UniqueNames, find-to_remove_gone, find-to_remove_new, find-to_remove_both,
  find-to_add_new, find-to_add_both, find-to_add_gone, find-to_update_gone, find-to_update_new,
  find-to_update_same, find-to_update_changed, to_remove-UniqueKeys, to_add-UniqueKeys,
  to_update-UniqueKeys,
}

-- What the registry runs under a name is what the configuration asks for, up to the comparison.
abbrev pub Agrees : (Service → Service → Bool) → Option Service → Option Service → Type 0
Agrees equal none none = Unit
Agrees equal (some running) (some wanted) = (running ≡ wanted) ⊎ (equal running wanted ≡ true)
Agrees equal none (some wanted) = ⊥
Agrees equal (some running) none = ⊥

abbrev pub IsTransitive : (Service → Service → Bool) → Type 0
IsTransitive equal = (a b d : Service) → equal a b ≡ true → equal b d ≡ true → equal a d ≡ true

Agrees-trans :
    (equal : Service → Service → Bool)
    → IsTransitive equal
    → (running : Option Service) (o s : Service) → Agrees equal running (some o)
    → equal o s ≡ true
    → Agrees equal running (some s)
Agrees-trans equal trans (some x) o s (inl is) e = inr (rw is e)
Agrees-trans equal trans (some x) o s (inr like) e = inr (trans x o s like e)
Agrees-trans equal trans none o s h e = h

module _ {R : Type 0} (ops : RegistryOps R) {view : R → String → Option Service}
    (c : RegistryContract ops view) where
  module _ (equal : Service → Service → Bool) (old new : Config) where
    -- The three loops over the three lists that the configurations give.
    abbrev pub planned : R → R × ReloadError
    planned r =
        apply_changes ops (find_services_to_remove old new) (find_services_to_add old new)
          (find_services_to_update equal old new) r

    module _ (u : UniqueNames old.services) (v : UniqueNames new.services) (r : R)
        (trans : IsTransitive equal) (n : String)
        (synced : Agrees equal (view r n) (find_service n old.services)) where
      converges_at :
          (a b : Option Service)
          → find_service n old.services ≡ a
          → find_service n new.services ≡ b
          → (is_recorded n (planned r).1 ≡ true) ⊎ Agrees equal (view (planned r).0 n) b
      converges_at none none p q =
          let same =
            apply_changes_frame ops c _ _ _ r n (find-to_remove_new old new n p)
              (find-to_add_gone old new n q) (find-to_update_gone old new n equal q) in
          inr (rw (same, ← p) synced)
      converges_at (some o) none p q =
          elim (apply_changes_removed ops c _ _ _ r n o.name (to_remove-UniqueKeys old new u)
            (find-to_remove_gone old new n o u p q) (find-to_add_gone old new n q)
            (find-to_update_gone old new n equal q)) [
              | inl failed ↦ inl failed
              | inr gone ↦ inr (rw gone tt)
            ]
      converges_at none (some s) p q =
          elim (apply_changes_added ops c _ _ _ r n s (to_add-UniqueKeys old new v)
            (find-to_add_new old new n s v q p) (find-to_update_new old new n equal s u v q p)) [
              | inl failed ↦ inl failed
              | inr there ↦ inr (rw there (inl refl))
            ]
      converges_at (some o) (some s) p q = elim (Bool-cases (equal o s)) [
        | inl same ↦ inr (
            rw
              (apply_changes_frame ops c _ _ _ r n (find-to_remove_both old new n o s u p q)
                (find-to_add_both old new n o s v q p)
                (find-to_update_same old new n equal o s u v p q same))
              (Agrees-trans equal trans (view r n) o s (rw p at synced) same))
        | inr changed ↦
            elim (apply_changes_updated ops c _ _ _ r n s (to_update-UniqueKeys equal old new v)
              (find-to_update_changed old new n equal o s u v p q changed)) [
                | inl failed ↦ inl failed
                | inr there ↦ inr (rw there (inl refl))
              ]
      ]

      reload_success_at :
          (is_recorded n (planned r).1 ≡ true → 0 < (planned r).1.failed)
          → to_error (planned r).1 ≡ none
          → Agrees equal (view (planned r).0 n) (find_service n new.services)
      unfolding to_error
      reload_success_at counted h = elim (converges_at _ _ refl refl) [
        | inl failed ↦ absurd (ground (arith, counted failed))
        | inr fine ↦ fine
      ]

    -- Where service names are unique in both configurations, the comparison is transitive and the
    -- registry runs the old configuration up to the comparison, a
    -- reload leaves under every name either a recorded error or exactly what the new
    -- configuration asks for: the failure of one service does not keep another from its target.
    pub reload_converges :
        UniqueNames old.services
        → UniqueNames new.services
        → (r : R) → IsTransitive equal
        → ((n : String) → Agrees equal (view r n) (find_service n old.services))
        → (n : String)
        → (is_recorded n (planned r).1 ≡ true)
          ⊎ Agrees equal (view (planned r).0 n) (find_service n new.services)
    reload_converges u v r trans synced n = converges_at u v r trans n (synced n) _ _ refl refl

    planned_counted :
        (r : R) (n : String) → is_recorded n (planned r).1 ≡ true → 0 < (planned r).1.failed
    unfolding apply_changes new_reload_error lookup
    planned_counted r n = process_counted _ _ _ _ (update_law ops c) _ _ _ n (
        process_counted _ _ _ _ (add_law ops c) _ _ _ n
          (process_counted _ _ _ _ (remove_law ops c) _ r new_reload_error n (λ h. cc)))

    -- The early return without changes is what the loops would give.
    pub reload_config_with_registry_lem :
        (r : R)
        → reload_config_with_registry ops equal old new r ≡ ((planned r).0, to_error (planned r).1)
    unfolding reload_config_with_registry
    reload_config_with_registry_lem r =
        early_return ops c (find_services_to_remove old new) (find_services_to_add old new)
          (find_services_to_update equal old new) r

    -- Under a name where the registry runs the old configuration.
    pub reload_success_name :
        UniqueNames old.services
        → UniqueNames new.services
        → (r : R) → IsTransitive equal
        → (n : String) → Agrees equal (view r n) (find_service n old.services)
        → (reload_config_with_registry ops equal old new r).1 ≡ none
        → Agrees equal
            (view (reload_config_with_registry ops equal old new r).0 n)
            (find_service n new.services)
    reload_success_name u v r trans n synced h = rw (reload_config_with_registry_lem r) (
        reload_success_at u v r trans n synced (planned_counted r n)
          (rw (reload_config_with_registry_lem r) at h))

    -- Where service names are unique in both configurations, the comparison is transitive and the
    -- registry runs the old configuration up to the comparison, a
    -- reload that returns no error leaves the registry running exactly the new configuration, up
    -- to the comparison of services.
    pub reload_success :
        UniqueNames old.services
        → UniqueNames new.services
        → (r : R) → IsTransitive equal
        → ((n : String) → Agrees equal (view r n) (find_service n old.services))
        → (reload_config_with_registry ops equal old new r).1 ≡ none
        → (n : String)
        → Agrees equal
            (view (reload_config_with_registry ops equal old new r).0 n)
            (find_service n new.services)
    reload_success u v r trans synced h n = reload_success_name u v r trans n (synced n) h
