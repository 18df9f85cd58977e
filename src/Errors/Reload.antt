-- ===== src/Errors/Reload.antt =====
-- internal/errors/reload.go: the record of a configuration reload.
use tsbridge.Prelude.Assoc.{insert}
use tsbridge.Prelude.{
  ℕ, ◌+◌, String, List, [], Bool, Option, none, some, ◌==◌, ◌&&◌, ltb, not, if◌then◌else◌,
}
use tsbridge.Errors.{Err, reload_error, to_failures}

pub record ReloadError : Type 0 where
  pub add_errors : List (String × Err)
  pub remove_errors : List (String × Err)
  pub update_errors : List (String × Err)
  pub successful : ℕ
  pub failed : ℕ

unfoldable pub has_errors : ReloadError → Bool
has_errors e = ltb 0 e.failed

unfoldable pub all_failed : ReloadError → Bool
all_failed e = ltb 0 e.failed && e.successful == 0

unfoldable pub new_reload_error : ReloadError
new_reload_error = record {
  add_errors = [];
  remove_errors = [];
  update_errors = [];
  successful = 0;
  failed = 0;
}

unfoldable pub record_add_error : String → Err → ReloadError → ReloadError
record_add_error service_name e r = record r {
  add_errors = insert service_name e r.add_errors;
  failed = r.failed + 1;
}

unfoldable pub record_remove_error : String → Err → ReloadError → ReloadError
record_remove_error service_name e r = record r {
  remove_errors = insert service_name e r.remove_errors;
  failed = r.failed + 1;
}

unfoldable pub record_update_error : String → Err → ReloadError → ReloadError
record_update_error service_name e r = record r {
  update_errors = insert service_name e r.update_errors;
  failed = r.failed + 1;
}

unfoldable pub record_success : ReloadError → ReloadError
record_success r = record r { successful = r.successful + 1 }

unfoldable pub to_error : ReloadError → Option Err
unfolding has_errors
to_error r =
    if not (has_errors r)
    then none
    else some (
        reload_error (to_failures r.add_errors) (to_failures r.remove_errors)
          (to_failures r.update_errors) r.successful r.failed)
