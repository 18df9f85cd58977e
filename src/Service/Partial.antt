-- ===== src/Service/Partial.antt =====
-- What StartServices leaves in a fresh registry when some services fail, as Start goes on then.
use tsbridge.Prelude.Assoc.{lookup, has_key}
use tsbridge.Prelude.{
  ℕ, String, List, [], ◌∷◌, Option, none, some, Bool, true, false, ◌+◌, ◌≡◌, refl, arith, str_eq,
  inl, inr, if◌then◌else◌, Option-cases, ◌∙◌, sym, length,
}
use tsbridge.Errors.{Err, Failures, failure, no_failures, to_failures}
use tsbridge.Errors.Startup.{new_service_startup_error, as_service_startup_error}
use tsbridge.Config.{Config}
use tsbridge.App.Lists.{find_service, UniqueNames}
use tsbridge.Service.{Host, Collector}
use tsbridge.Service.Operations.{new_registry, start_services}
use tsbridge.Service.Refines.{running}
use tsbridge.Service.Start.{start_error, started, start_all_frame, start_all_done}

-- `Failures[name]` is there.
abbrev pub has_failure : String → Failures → Bool
has_failure n no_failures = false
has_failure n (failure m e fs) = if str_eq m n then true else has_failure n fs

-- The startup error, if there is one, names the service.
abbrev pub is_failed : String → Option Err → Bool
is_failed n e = elim (as_service_startup_error e) [
  | none ↦ false
  | some x ↦ has_failure n x.failures
]

has_failure_iff :
    (n : String) (m : List (String × Err)) → has_failure n (to_failures m) ≡ has_key n m
unfolding lookup
has_failure_iff n [] = refl
has_failure_iff n ((k, e) ∷ m) = ground (arith, has_failure_iff n m)

is_failed-start_error :
    (n : String) (t s : ℕ) (failed : List (String × Err))
    → is_failed n (start_error t s failed) ≡ has_key n failed
unfolding new_service_startup_error as_service_startup_error lookup
is_failed-start_error n t s [] = refl
is_failed-start_error n t s ((k, e) ∷ failed) =
    rw (startup_of, is_failed) (has_failure_iff n ((k, e) ∷ failed))
  where
    startup_of :
        as_service_startup_error (start_error t s ((k, e) ∷ failed))
        ≡ some (record {
          total = t;
          successful = s;
          failed = length failed + 1;
          failures = to_failures ((k, e) ∷ failed);
        })
    startup_of = ground arith

module _ {W L H : Type 0} (host : Host W L H) where
  -- Where service names are unique, a start of a fresh registry leaves under every name that it does
  -- not report as failed exactly the configured service, if there is one.
  pub running-start_services_partial :
      (cfg : Config) (collector : Option Collector) (w : W)
      → UniqueNames cfg.services
      → (n : String)
      → is_failed n (start_services host (new_registry host cfg collector w)).1 ≡ false
      → running (start_services host (new_registry host cfg collector w)).0 n
        ≡ find_service n cfg.services
  unfolding start_services new_registry lookup
  running-start_services_partial cfg collector w u n h =
      let (r, k, failed) = started host cfg collector w in
      let named = is_failed-start_error n (length cfg.services) k failed in
      elim (Option-cases (find_service n cfg.services)) [
        | inl absent ↦ (start_all_frame host cfg.services _ n absent).0 ∙ sym absent
        | inr (s, wanted) ↦ elim (start_all_done host cfg.services _ n s u wanted) [
          | inl runs ↦ runs ∙ sym wanted
          | inr fails ↦ cc
        ]
      ]
