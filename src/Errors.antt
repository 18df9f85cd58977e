-- ===== src/Errors.antt =====
-- internal/errors/errors.go: error values, their classification and the wrappers.
-- A Go `error` that may be nil is `Option Err`. A message keeps the format string with its
-- arguments: what `fmt` prints for them is not modelled.
pub mod Reload
pub mod Startup
pub mod Classify
use tsbridge.Prelude.Int.{ℤ}
use tsbridge.Prelude.{
  ℕ, String, List, [], ◌∷◌, Option, none, some, Bool, true, false, ◌≡◌, ◌⊎◌, inl, inr, refl,
  if◌then◌else◌, or_else,
}

pub data ErrorType : Type 0 where
  unknown validation network config resource internal : ErrorType

abbrev pub type_eq : ErrorType → ErrorType → Bool
type_eq unknown unknown = true
type_eq validation validation = true
type_eq network network = true
type_eq config config = true
type_eq resource resource = true
type_eq internal internal = true
type_eq _ _ = false

pub data Arg : Type 0 where
  str : String → Arg
  raw : List ℕ → Arg
  num : ℕ → Arg
  int : ℤ → Arg

pub record Message : Type 0 where
  pub format : String
  pub args : List Arg

-- A message with nothing to format.
abbrev pub text : String → Message
text s = record { format = s; args = [] }

-- The error values that the program builds. A struct whose inner error may be nil has two
-- constructors, the second for an inner error that is there. `foreign` is an error of the standard
-- library or of a third-party package, `plain` one of `fmt.Errorf` or `errors.New` that wraps
-- nothing, `wrapping` one of `fmt.Errorf` with `%w`, and `joined` one of `errors.Join`.
mutual
  pub data Err : Type 0 where
    foreign : String → Err
    plain : Message → Err
    wrapping : Message → Err → Err
    joined : Errs → Err
    typed : (type : ErrorType) (message : Message) (http_status_code : ℕ) → Err
    typed_over : (type : ErrorType) (message : Message) (http_status_code : ℕ) → Err → Err
    retryable : (attempt max_attempts : ℕ) → Err → Err
    startup : (total successful failed : ℕ) → Failures → Err
    provider_error : (provider : String) (type : ErrorType) (message : Message) → Err
    provider_over : (provider : String) (type : ErrorType) (message : Message) → Err → Err
    timeout_error : (operation : Message) (timeout : ℤ) → Err
    timeout_over : (operation : Message) (timeout : ℤ) → Err → Err
    reload_error : (add remove update : Failures) (successful failed : ℕ) → Err

  pub data Errs : Type 0 where
    no_errs : Errs
    more_errs : Err → Errs → Errs

  -- A map from service names to errors.
  pub data Failures : Type 0 where
    no_failures : Failures
    failure : String → Err → Failures → Failures

-- A Go map of errors, as an association list, in the form that an error value holds.
abbrev pub to_failures : List (String × Err) → Failures
to_failures [] = no_failures
to_failures ((n, e) ∷ m) = failure n e (to_failures m)

pub data Result {ℓ} (A : Type ℓ) : Type ℓ where
  ok : A → Result A
  err : Err → Result A

pub Result-cases : {A : Type 0} (x : Result A) → ((e : Err) × (x ≡ err e)) ⊎ ((a : A) × (x ≡ ok a))
Result-cases (ok a) = inr (a, refl)
Result-cases (err e) = inl (e, refl)

unfoldable pub new_validation_error : Message → Err
new_validation_error message = typed validation message 0

unfoldable pub new_network_error : Message → Err
new_network_error message = typed network message 0

unfoldable pub new_network_error_with_status : Message → ℕ → Err
new_network_error_with_status message status_code = typed network message status_code

unfoldable pub new_config_error : Message → Err
new_config_error message = typed config message 0

unfoldable pub new_resource_error : Message → Err
new_resource_error message = typed resource message 0

unfoldable pub new_internal_error : Message → Err
new_internal_error message = typed internal message 0

-- A wrapper stores whatever error it is given, nil too.
typed_wrap : ErrorType → Option Err → Message → ℕ → Err
typed_wrap t none message status = typed t message status
typed_wrap t (some e) message status = typed_over t message status e

unfoldable pub wrap_validation : Option Err → Message → Err
unfolding typed_wrap
wrap_validation e message = typed_wrap validation e message 0

unfoldable pub wrap_network : Option Err → Message → Err
unfolding typed_wrap
wrap_network e message = typed_wrap network e message 0

unfoldable pub wrap_network_with_status : Option Err → Message → ℕ → Err
unfolding typed_wrap
wrap_network_with_status e message status_code = typed_wrap network e message status_code

unfoldable pub wrap_config : Option Err → Message → Err
unfolding typed_wrap
wrap_config e message = typed_wrap config e message 0

unfoldable pub wrap_resource : Option Err → Message → Err
unfolding typed_wrap
wrap_resource e message = typed_wrap resource e message 0

unfoldable pub wrap_internal : Option Err → Message → Err
unfolding typed_wrap
wrap_internal e message = typed_wrap internal e message 0

unfoldable pub with_retry : Err → ℕ → ℕ → Err
with_retry e attempt max_attempts = retryable attempt max_attempts e

unfoldable pub new_provider_error : String → ErrorType → Message → Err
new_provider_error provider t message = typed_over t (text "") 0 (provider_error provider t message)

unfoldable pub wrap_provider_error : Option Err → String → ErrorType → Message → Option Err
wrap_provider_error none provider t operation = none
wrap_provider_error (some e) provider t operation =
    some (typed_over t (text "") 0 (provider_over provider t operation e))

unfoldable pub new_timeout_error : Message → ℤ → Err
new_timeout_error operation timeout =
    typed_over resource (text "operation timeout") 0 (timeout_error operation timeout)

timeout_wrap : Option Err → Message → ℤ → Err
timeout_wrap none operation timeout = timeout_error operation timeout
timeout_wrap (some e) operation timeout = timeout_over operation timeout e

unfoldable pub wrap_timeout_error : Option Err → Message → ℤ → Err
unfolding timeout_wrap
wrap_timeout_error e operation timeout =
    typed_over resource (text "operation timeout") 0 (timeout_wrap e operation timeout)

-- Go's `errors.As`: the first error of the tree, in pre-order, that the target type accepts. The
-- error lists of a startup or reload error are not unwrapped.
unfoldable mutual
  pub as_target : {A : Type 0} → (Err → Option A) → Err → Option A
  as_target p (foreign s) = p (foreign s)
  as_target p (plain m) = p (plain m)
  as_target p (wrapping m e) = or_else (p (wrapping m e)) (as_target p e)
  as_target p (joined es) = or_else (p (joined es)) (as_target_list p es)
  as_target p (typed t m c) = p (typed t m c)
  as_target p (typed_over t m c e) = or_else (p (typed_over t m c e)) (as_target p e)
  as_target p (retryable a n e) = or_else (p (retryable a n e)) (as_target p e)
  as_target p (startup t s f fs) = p (startup t s f fs)
  as_target p (provider_error n t m) = p (provider_error n t m)
  as_target p (provider_over n t m e) = or_else (p (provider_over n t m e)) (as_target p e)
  as_target p (timeout_error o d) = p (timeout_error o d)
  as_target p (timeout_over o d e) = or_else (p (timeout_over o d e)) (as_target p e)
  as_target p (reload_error a r u s f) = p (reload_error a r u s f)

  pub as_target_list : {A : Type 0} → (Err → Option A) → Errs → Option A
  as_target_list p no_errs = none
  as_target_list p (more_errs e es) = or_else (as_target p e) (as_target_list p es)

-- The target `*Error`: its type, and the error that it wraps.
abbrev pub as_error : Err → Option (ErrorType × Option Err)
as_error (typed t m c) = some (t, none)
as_error (typed_over t m c e) = some (t, some e)
as_error _ = none

unfoldable pub get_type : Option Err → ErrorType
unfolding as_target
get_type none = unknown
get_type (some e) = elim (as_target as_error e) [ none ↦ unknown | some (t, _) ↦ t ]

unfoldable pub is_type : Option Err → ErrorType → Bool
unfolding as_target
is_type none want = false
is_type (some e) want = elim (as_target as_error e) [ none ↦ false | some (t, _) ↦ type_eq t want ]

unfoldable pub http_status : Option Err → ℕ
unfolding get_type
http_status e = elim (get_type e) [
  | unknown ↦ 500
  | validation ↦ 400
  | network ↦ 502
  | resource ↦ 503
  | config ↦ 500
  | internal ↦ 500
]

-- The target `*RetryableError`.
abbrev pub as_retryable : Err → Option (ℕ × ℕ)
as_retryable (retryable attempt max_attempts e) = some (attempt, max_attempts)
as_retryable _ = none

unfoldable pub is_retryable : Option Err → Bool
unfolding as_target
is_retryable none = false
is_retryable (some e) = elim (as_target as_retryable e) [ none ↦ false | some _ ↦ true ]

unfoldable pub get_retry_info : Option Err → ℕ × ℕ × Bool
unfolding as_target
get_retry_info none = (0, 0, false)
get_retry_info (some e) = elim (as_target as_retryable e) [
  | none ↦ (0, 0, false)
  | some (attempt, max_attempts) ↦ (attempt, max_attempts, true)
]

-- The target `*TimeoutError`.
abbrev pub as_timeout : Err → Option (Unit {0})
as_timeout (timeout_error o d) = some tt
as_timeout (timeout_over o d e) = some tt
as_timeout _ = none

unfoldable pub is_timeout : Option Err → Bool
unfolding as_target
is_timeout none = false
is_timeout (some e) = elim (as_target as_timeout e) [ none ↦ false | some _ ↦ true ]
