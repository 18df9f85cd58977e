-- ===== src/Errors/Classify.antt =====
-- What classification reads back from the errors that the constructors and wrappers build.
use tsbridge.Prelude.{ℕ, String, ◌≡◌, ◌≢◌, ◌↔◌, refl, Option, none, some, true, false, arith, ◌<◌}
use tsbridge.Errors.{
  Err, ErrorType, Message, Failures, failure, unknown, validation, network, resource, config,
  internal, wrapping, typed_over, startup, text, get_type, is_type, http_status, is_timeout,
  get_retry_info, wrap_validation, wrap_network_with_status, wrap_config, wrap_resource,
  wrap_internal, wrap_provider_error,
}
use tsbridge.Errors.Startup.{new_service_startup_error, as_service_startup_error}

-- For any type but `unknown`, the test `IsX` agrees with `GetType`.
pub is_type_iff :
    (e : Option Err) (t : ErrorType) → t ≢ unknown → (is_type e t ≡ true) ↔ (get_type e ≡ t)
unfolding is_type get_type
is_type_iff e t h = ground arith

-- The status tells the client faults from the rest: 400, 502 and 503 are sent for exactly the
-- validation, network and resource errors, and every other error gives 500.
pub http_status_iff :
    (e : Option Err)
    → ((http_status e ≡ 400) ↔ (is_type e validation ≡ true))
      × ((http_status e ≡ 502) ↔ (is_type e network ≡ true))
      × ((http_status e ≡ 503) ↔ (is_type e resource ≡ true))
      × ((http_status e ≡ 500) ↔ (
          (is_type e validation ≡ false)
          × (is_type e network ≡ false)
          × (is_type e resource ≡ false)))
unfolding http_status get_type is_type
http_status_iff none = ground arith
http_status_iff (some e) = ground arith

-- Wrapping with `fmt.Errorf` keeps the type, the timeout mark and the retry mark of an error; each
-- typed wrapper sets its own type and keeps the two marks.
pub wrapping_keeps :
    (e : Err) (m : Message) (status : ℕ)
    → (get_type (some (wrapping m e)) ≡ get_type (some e))
      × (is_timeout (some (wrapping m e)) ≡ is_timeout (some e))
      × (get_retry_info (some (wrapping m e)) ≡ get_retry_info (some e))
      × (get_type (some (wrap_validation (some e) m)) ≡ validation)
      × (get_type (some (wrap_network_with_status (some e) m status)) ≡ network)
      × (get_type (some (wrap_config (some e) m)) ≡ config)
      × (get_type (some (wrap_resource (some e) m)) ≡ resource)
      × (get_type (some (wrap_internal (some e) m)) ≡ internal)
      × (is_timeout (some (wrap_internal (some e) m)) ≡ is_timeout (some e))
      × (get_retry_info (some (wrap_resource (some e) m)) ≡ get_retry_info (some e))
unfolding get_type is_timeout get_retry_info wrap_validation wrap_network_with_status wrap_config
    wrap_resource wrap_internal
wrapping_keeps e m status = (refl, refl, refl, refl, refl, refl, refl, refl, refl, refl)

-- A provider error carries the type that it is given, over any cause, and keeps the cause's timeout
-- mark. A nil cause gives no error.
pub wrap_provider_error_lem :
    (e : Err) (provider : String) (t : ErrorType) (operation : Message)
    → (get_type (wrap_provider_error (some e) provider t operation) ≡ t)
      × (is_timeout (wrap_provider_error (some e) provider t operation) ≡ is_timeout (some e))
      × (wrap_provider_error none provider t operation ≡ none)
unfolding get_type is_timeout wrap_provider_error
wrap_provider_error_lem e provider t operation = (refl, refl, refl)

-- A startup error that is built from at least one failure is read back whole, also after
-- `fmt.Errorf` and the resource wrapper have been put around it.
pub as_service_startup_error_lem :
    (total successful failed : ℕ) (name : String) (e : Err) (fs : Failures) (m : Message)
    → 0 < failed
    → (x : Err) × (new_service_startup_error total successful failed (failure name e fs) ≡ some x)
      × (as_service_startup_error (some x)
          ≡ some (record {
            total = total;
            successful = successful;
            failed = failed;
            failures = failure name e fs;
          }))
      × (as_service_startup_error (some (wrapping m x)) ≡ as_service_startup_error (some x))
      × (as_service_startup_error (some (wrap_resource (some x) m))
          ≡ as_service_startup_error (some x))
unfolding new_service_startup_error as_service_startup_error wrap_resource
as_service_startup_error_lem total successful failed name e fs m h = (
  typed_over internal (text "service startup") 0
      (startup total successful failed (failure name e fs)),
  ground arith,
  refl,
  refl,
  refl,
)
