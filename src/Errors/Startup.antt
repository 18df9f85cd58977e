-- ===== src/Errors/Startup.antt =====
-- internal/errors/errors.go: the error of a start in which some services failed.
use tsbridge.Prelude.{
  ℕ, Bool, true, false, Option, none, some, ◌||◌, ◌&&◌, ◌==◌, ltb, if◌then◌else◌,
}
use tsbridge.Errors.{
  Err, Failures, startup, no_failures, failure, typed_over, internal, text, as_target, as_error,
}

abbrev is_empty : Failures → Bool
is_empty no_failures = true
is_empty (failure n e fs) = false

unfoldable pub new_service_startup_error : ℕ → ℕ → ℕ → Failures → Option Err
new_service_startup_error total successful failed failures =
    if failed == 0 || is_empty failures
    then none
    else some
        (typed_over internal (text "service startup") 0 (startup total successful failed failures))

-- `*ServiceStartupError`
pub record StartupError : Type 0 where
  pub total : ℕ
  pub successful : ℕ
  pub failed : ℕ
  pub failures : Failures

unfoldable pub all_failed : StartupError → Bool
all_failed e = e.failed == e.total && ltb 0 e.total

-- The target `*ServiceStartupError` of `errors.As`.
abbrev as_startup : Err → Option StartupError
as_startup (startup t s f fs) =
    some (record { total = t; successful = s; failed = f; failures = fs })
as_startup _ = none

-- The first `*Error` of the tree gives way to what it wraps, if it wraps anything.
unwrap_error : Err → Err
unfolding as_target
unwrap_error e = elim (as_target as_error e) [
  | none ↦ e
  | some (_, none) ↦ e
  | some (_, some inner) ↦ inner
]

unfoldable pub as_service_startup_error : Option Err → Option StartupError
unfolding unwrap_error as_target
as_service_startup_error none = none
as_service_startup_error (some e) = as_target as_startup (unwrap_error e)
