-- ===== src/App/Watch.antt =====
-- A running application over any number of reloads.
use tsbridge.Prelude.{
  String, List, [], ◌∷◌, Option, none, some, Bool, ◌≡◌, refl, str_eq_iff, str_eq, Bool-cases,
  Option-cases, inl, inr, ◌∙◌, All,
}
use tsbridge.Errors.Reload.{ReloadError, new_reload_error}
use tsbridge.Config.{Service, Config}
use tsbridge.App.{
  RegistryOps, App, reload_config, watch_config_changes, apply_changes, update_step,
  find_services_to_update,
}
use tsbridge.App.Contract.{RegistryContract}
use tsbridge.App.Lists.{find_service, UniqueNames, find-to_remove_both, find-to_add_both}
use tsbridge.App.Loop.{process_frame, process_invariant}
use tsbridge.App.Steps.{ne_of_false, remove_law, add_law}
use tsbridge.App.Converge.{
  IsTransitive, Agrees, reload_success, reload_success_name, reload_config_with_registry_lem,
  planned,
}

abbrev pub last_config : Config → List Config → Config
last_config cfg [] = cfg
last_config cfg (next ∷ later) = last_config next later

module _ {R : Type 0} (ops : RegistryOps R) {view : R → String → Option Service}
    (c : RegistryContract ops view) (equal : Service → Service → Bool) where
  -- The registry runs what the application's configuration says, up to the comparison.
  pub record InSync (a : App ops equal) : Type 0 where
    pub unique : UniqueNames a.cfg.services
    pub synced : (n : String) → Agrees equal (view a.registry n) (find_service n a.cfg.services)

  reload_config-InSync :
      (trans : IsTransitive equal) (new : Config) (a : App ops equal)
      → InSync a
      → UniqueNames new.services
      → (reload_config ops equal new a).1 ≡ none
      → InSync (reload_config ops equal new a).0
  unfolding reload_config
  reload_config-InSync trans new a s v h = record {
    unique = v;
    synced = reload_success ops c equal a.cfg new s.unique v a.registry trans s.synced h;
  }

  -- As long as no reload reports an error, an application that was in step with its configuration
  -- stays in step over any sequence of configurations with unique service names, and ends with the
  -- last of them.
  pub watch_config_changes-InSync :
      (trans : IsTransitive equal) (later : List Config) (a : App ops equal)
      → InSync a
      → All (λ (new : Config). UniqueNames new.services) later
      → (watch_config_changes ops equal later a).1 ≡ []
      → InSync (watch_config_changes ops equal later a).0
        × ((watch_config_changes ops equal later a).0.cfg ≡ last_config a.cfg later)
  unfolding watch_config_changes reload_config
  watch_config_changes-InSync trans [] a s v h = (s, refl)
  watch_config_changes-InSync trans (new ∷ later) a s v h =
      elim (Option-cases (reload_config ops equal new a).1) [
        | inl fine ↦
            watch_config_changes-InSync trans later (reload_config ops equal new a).0
              (reload_config-InSync trans new a s v.0 fine) v.1
              (rw (fine, watch_config_changes) at h)
        | inr (x, failed) ↦ cc (rw (failed, watch_config_changes) at h)
      ]

  -- As long as no reload reports an error, what an application runs under a name where it was in
  -- step with its configuration stays in step over any sequence of configurations, whatever it runs
  -- under other names.
  pub watch_config_changes-Agrees :
      (trans : IsTransitive equal) (later : List Config) (a : App ops equal) (n : String)
      → UniqueNames a.cfg.services
      → Agrees equal (view a.registry n) (find_service n a.cfg.services)
      → All (λ (new : Config). UniqueNames new.services) later
      → (watch_config_changes ops equal later a).1 ≡ []
      → Agrees equal
          (view (watch_config_changes ops equal later a).0.registry n)
          (find_service n (last_config a.cfg later).services)
  unfolding watch_config_changes reload_config
  watch_config_changes-Agrees trans [] a n u s v h = s
  watch_config_changes-Agrees trans (new ∷ later) a n u s v h =
      elim (Option-cases (reload_config ops equal new a).1) [
        | inl fine ↦
            watch_config_changes-Agrees trans later (reload_config ops equal new a).0 n v.0
              (reload_success_name ops c equal a.cfg new u v.0 a.registry trans n s fine) v.1
              (rw (fine, watch_config_changes) at h)
        | inr (x, failed) ↦ cc (rw (failed, watch_config_changes) at h)
      ]

  -- A name that the registry lacks.
  abbrev IsMissing : String → R → Type 0
  IsMissing n r = view r n ≡ none

  update_step-IsMissing :
      (n : String) (s : Service) (r : R) (e : ReloadError)
      → IsMissing n r
      → IsMissing n (update_step ops s r e).0
  unfolding update_step
  update_step-IsMissing n s r e h = elim (Bool-cases (str_eq s.name n)) [
    | inl here ↦
        let same = (str_eq_iff s.name n).0 here in
        rw (← same) (c.update_missing s.name s r (rw same h)).1
    | inr there ↦ c.update_frame s.name s r n (ne_of_false s.name n there) ∙ h
  ]

  planned-IsMissing :
      (old new : Config) (n : String) (o s : Service) (r : R)
      → UniqueNames old.services
      → UniqueNames new.services
      → find_service n old.services ≡ some o
      → find_service n new.services ≡ some s
      → IsMissing n r
      → IsMissing n (planned ops c equal old new r).0
  unfolding apply_changes
  planned-IsMissing old new n o s r u v p q h =
      process_invariant (IsMissing n) (update_step ops) (update_step-IsMissing n)
        (find_services_to_update equal old new) _ _
        (process_frame _ _ _ _ (add_law ops c) _ _ _ n (find-to_add_both old new n o s v q p)
          ∙ process_frame _ _ _ _ (remove_law ops c) _ r new_reload_error n
              (find-to_remove_both old new n o s u p q)
          ∙ h)

  -- The configuration has exactly one service of each name, one of them the given.
  abbrev pub Keeps : String → Config → Type 0
  Keeps n cfg = UniqueNames cfg.services × ((s : Service) × (find_service n cfg.services ≡ some s))

  reload_config-IsMissing :
      (n : String) (new : Config) (a : App ops equal)
      → Keeps n a.cfg
      → Keeps n new
      → IsMissing n a.registry
      → IsMissing n (reload_config ops equal new a).0.registry
  unfolding reload_config
  reload_config-IsMissing n new a (u, (o, p)) (v, (s, q)) h =
      rw (reload_config_with_registry_lem ops c equal a.cfg new a.registry)
        (planned-IsMissing a.cfg new n o s a.registry u v p q h)

  -- A service that the registry has lost, for instance in a failed update, stays lost through every
  -- later reload, as long as each configuration, the current one included, still has its name.
  pub watch_config_changes-IsMissing :
      (n : String) (later : List Config) (a : App ops equal)
      → Keeps n a.cfg
      → All (Keeps n) later
      → view a.registry n ≡ none
      → view (watch_config_changes ops equal later a).0.registry n ≡ none
  unfolding watch_config_changes
  watch_config_changes-IsMissing n [] a k ks h = h
  watch_config_changes-IsMissing n (new ∷ later) a k ks h =
      watch_config_changes-IsMissing n later (reload_config ops equal new a).0
        (cfg_keeps new a ks.0) ks.1 (reload_config-IsMissing n new a k ks.0 h)
    where
      cfg_keeps :
          (new : Config) (a : App ops equal)
          → Keeps n new
          → Keeps n (reload_config ops equal new a).0.cfg
      cfg_keeps new a k = unfold reload_config in k
