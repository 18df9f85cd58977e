-- ===== src/Tests/ErrorValues.antt =====
-- Errors of the program at concrete values.
use tsbridge.Prelude.{some, ◌≡◌, arith}
use tsbridge.Errors.{Err, Failures, failure, no_failures, foreign, text, wrapping, wrap_resource}
use tsbridge.Errors.Startup.{new_service_startup_error, as_service_startup_error}
use tsbridge.Errors.Classify.{as_service_startup_error_lem}

abbrev sample_failures : Failures
sample_failures = failure "a" (foreign "listen") no_failures

as_service_startup_error_example :
    (x : Err) × (new_service_startup_error 2 1 1 sample_failures ≡ some x)
    × (as_service_startup_error (some x)
        ≡ some (record { total = 2; successful = 1; failed = 1; failures = sample_failures }))
    × (as_service_startup_error (some (wrapping (text "start") x))
        ≡ as_service_startup_error (some x))
    × (as_service_startup_error (some (wrap_resource (some x) (text "start")))
        ≡ as_service_startup_error (some x))
as_service_startup_error_example =
    as_service_startup_error_lem 2 1 1 "a" (foreign "listen") no_failures (text "start")
      (omega arith)
