-- ===== src/App/Performed.antt =====
-- internal/app/reload.go and internal/errors/reload.go: the operations of a reload and what is
-- counted of them.
use tsbridge.Prelude.{
  ℕ, ◌+◌, ◌<◌, String, List, [], ◌∷◌, ◌++◌, Bool, Option, none, some, ◌≡◌, ◌≢◌, refl, arith, ◌↔◌,
  ap, ◌∙◌,
}
use tsbridge.Errors.{Err}
use tsbridge.Errors.Reload.{
  ReloadError, new_reload_error, record_add_error, record_remove_error, record_update_error,
  record_success,
}
use tsbridge.Config.{Service, Config}
use tsbridge.App.{
  RegistryOps, process, remove_step, add_step, update_step, apply_changes, find_services_to_remove,
  find_services_to_add, find_services_to_update, reload_config_with_registry,
}
use tsbridge.App.Outcome.{to_error_iff}
use tsbridge.App.Contract.{RegistryContract}
use tsbridge.App.Converge.{planned, reload_config_with_registry_lem}

-- An operation on each item in order, and the error of each, if any.
abbrev perform : {R X : Type 0} → (X → R → R × Option Err) → List X → R → R × List (Option Err)
perform op [] r = (r, [])
perform op (x ∷ xs) r = let (r', e) = op x r in let (r'', es) = perform op xs r' in (r'', e ∷ es)

abbrev pub perform_all :
    {R : Type 0}
    → RegistryOps R
    → List String
    → List Service
    → List Service
    → R
    → R × List (Option Err)
perform_all ops to_remove to_add to_update r =
    let (r₁, removed) = perform ops.remove_service to_remove r in
    let (r₂, added) = perform ops.add_service to_add r₁ in
    let (r₃, updated) = perform (λ (s : Service). ops.update_service s.name s) to_update r₂ in
    (r₃, (removed ++ added) ++ updated)

abbrev pub failures : List (Option Err) → ℕ
failures [] = 0
failures (none ∷ es) = failures es
failures (some e ∷ es) = failures es + 1

abbrev pub successes : List (Option Err) → ℕ
successes [] = 0
successes (none ∷ es) = successes es + 1
successes (some e ∷ es) = successes es

failures-append : (es fs : List (Option Err)) → failures (es ++ fs) ≡ failures es + failures fs
failures-append [] fs = omega arith
failures-append (none ∷ es) fs = omega (arith, failures-append es fs)
failures-append (some e ∷ es) fs = omega (arith, failures-append es fs)

successes-append : (es fs : List (Option Err)) → successes (es ++ fs) ≡ successes es + successes fs
successes-append [] fs = omega arith
successes-append (none ∷ es) fs = omega (arith, successes-append es fs)
successes-append (some e ∷ es) fs = omega (arith, successes-append es fs)

-- A registry and a record of errors after the operations.
record Tells {R : Type 0} (e : ReloadError) (done : R × List (Option Err)) (out : R × ReloadError)
    : Type 0 where
  registry : out.0 ≡ done.0
  failed : out.1.failed ≡ e.failed + failures done.1
  successful : out.1.successful ≡ e.successful + successes done.1

-- More operations after those that were told.
Tells-then :
    {R X : Type 0} (op : X → R → R × Option Err) (xs : List X) (e : ReloadError)
    (done : R × List (Option Err)) (out out' : R × ReloadError)
    → Tells e done out
    → Tells out.1 (perform op xs out.0) out'
    → Tells e ((perform op xs done.0).0, done.1 ++ (perform op xs done.0).1) out'
Tells-then {R} op xs e done out out' before after =
    let same = before.registry in
    let failed_same = ap (λ (q : R). failures (perform op xs q).1) same in
    let successful_same = ap (λ (q : R). successes (perform op xs q).1) same in
    record {
      registry = after.registry ∙ ap (λ (q : R). (perform op xs q).0) same;
      failed = omega (
        arith,
        before.failed,
        after.failed,
        failed_same,
        failures-append done.1 (perform op xs done.0).1,
      );
      successful = omega (
        arith,
        before.successful,
        after.successful,
        successful_same,
        successes-append done.1 (perform op xs done.0).1,
      );
    }

process-Tells :
    {R X : Type 0} (op : X → R → R × Option Err) (step : X → R → ReloadError → R × ReloadError)
    → ((x : X) (r : R) (e : ReloadError) → Tells e ((op x r).0, (op x r).1 ∷ []) (step x r e))
    → (xs : List X) (r : R) (e : ReloadError) → Tells e (perform op xs r) (process step xs r e)
unfolding process
process-Tells op step law [] r e = record {
  registry = refl;
  failed = omega arith;
  successful = omega arith;
}
process-Tells op step law (x ∷ xs) r e =
    Tells-then op xs e ((op x r).0, (op x r).1 ∷ []) (step x r e) _ (law x r e)
      (process-Tells op step law xs (step x r e).0 (step x r e).1)

module _ {R : Type 0} (ops : RegistryOps R) where
  remove_step-Tells :
      (m : String) (r : R) (e : ReloadError)
      → Tells e
          ((ops.remove_service m r).0, (ops.remove_service m r).1 ∷ [])
          (remove_step ops m r e)
  unfolding remove_step record_remove_error record_success
  remove_step-Tells m r e = record {
    registry = refl;
    failed = ground arith;
    successful = ground arith;
  }

  add_step-Tells :
      (s : Service) (r : R) (e : ReloadError)
      → Tells e ((ops.add_service s r).0, (ops.add_service s r).1 ∷ []) (add_step ops s r e)
  unfolding add_step record_add_error record_success
  add_step-Tells s r e = record {
    registry = refl;
    failed = ground arith;
    successful = ground arith;
  }

  update_step-Tells :
      (s : Service) (r : R) (e : ReloadError)
      → Tells e
          ((ops.update_service s.name s r).0, (ops.update_service s.name s r).1 ∷ [])
          (update_step ops s r e)
  unfolding update_step record_update_error record_success
  update_step-Tells s r e = record {
    registry = refl;
    failed = ground arith;
    successful = ground arith;
  }

  apply_changes-Tells :
      (rs : List String) (adds ups : List Service) (r : R)
      → Tells new_reload_error (perform_all ops rs adds ups r) (apply_changes ops rs adds ups r)
  unfolding apply_changes
  apply_changes-Tells rs adds ups r =
      let (r₁, e₁) = process (remove_step ops) rs r new_reload_error in
      let (r₂, e₂) = process (add_step ops) adds r₁ e₁ in
      let removed = process-Tells ops.remove_service _ (remove_step-Tells) rs r new_reload_error in
      let added =
        Tells-then ops.add_service adds new_reload_error _ (r₁, e₁) (r₂, e₂) removed
          (process-Tells ops.add_service _ (add_step-Tells) adds r₁ e₁) in
      Tells-then _ ups new_reload_error _ (r₂, e₂) _ added
        (process-Tells (λ (s : Service). ops.update_service s.name s) _ (update_step-Tells) ups r₂
          e₂)

module _ {R : Type 0} (ops : RegistryOps R) {view : R → String → Option Service}
    (c : RegistryContract ops view) (equal : Service → Service → Bool) (old new : Config) where
  -- A reload performs every planned operation once, in order, each on the registry that the one
  -- before has left; it counts those that return an error as failed and the others as successful,
  -- and returns an error exactly if one of them did.
  pub reload_counts :
      (r : R)
      → let (r', outcomes) =
          perform_all ops
            (find_services_to_remove old new)
            (find_services_to_add old new)
            (find_services_to_update equal old new)
            r in
        ((reload_config_with_registry ops equal old new r).0 ≡ r')
        × ((planned ops c equal old new r).1.failed ≡ failures outcomes)
        × ((planned ops c equal old new r).1.successful ≡ successes outcomes)
        × (((reload_config_with_registry ops equal old new r).1 ≢ none) ↔ (0 < failures outcomes))
  unfolding new_reload_error
  reload_counts r =
      let told =
        apply_changes-Tells ops (find_services_to_remove old new) (find_services_to_add old new)
          (find_services_to_update equal old new) r in
      let same = reload_config_with_registry_lem ops c equal old new r in
      (
        rw same told.registry,
        omega (arith, told.failed),
        omega (arith, told.successful),
        rw same (
          (λ fails.
              omega (arith, told.failed, (to_error_iff (planned ops c equal old new r).1).0 fails)),
          (λ some_fail.
              (to_error_iff (planned ops c equal old new r).1).1 (omega (arith, told.failed))),
        ),
      )
