-- ===== src/Config/Timeout.antt =====
-- internal/config/config.go: validateTimeout and validateTimeoutPositive.
use tsbridge.Prelude.Int.{ℤ, pos, negsuc, is_neg, is_pos, eqz}
use tsbridge.Prelude.{
  String, [], ◌∷◌, Option, none, some, Bool, true, false, ◌&&◌, not, if◌then◌else◌, ◌≡◌, ◌↔◌, ◌⊎◌,
  arith,
}
use tsbridge.Constants.{immediate_flush_interval}
use tsbridge.Errors.{Err, new_validation_error, str, int}

unfoldable pub validate_timeout : String → Option ℤ → Bool → Option Err
validate_timeout name none allow_negative_one = none
validate_timeout name (some d) allow_negative_one =
    if allow_negative_one && eqz d immediate_flush_interval
    then none
    else if is_neg d
    then some (
        new_validation_error (
          if allow_negative_one
          then record {
            format = "%s can only be %v for immediate flushing";
            args = str name ∷ int immediate_flush_interval ∷ [];
          }
          else record { format = "%s cannot be negative"; args = str name ∷ [] }))
    else none

unfoldable pub validate_timeout_positive : String → Option ℤ → Option Err
validate_timeout_positive name none = none
validate_timeout_positive name (some d) =
    if not (is_pos d)
    then some
        (new_validation_error (record { format = "%s must be positive"; args = str name ∷ [] }))
    else none

-- A duration that is not set, or not negative.
abbrev pub IsTimeout : Option ℤ → Type 0
IsTimeout none = Unit
IsTimeout (some d) = is_neg d ≡ false

-- A flush interval: not set, not negative, or the value that asks for immediate flushing.
abbrev pub IsFlushInterval : Option ℤ → Type 0
IsFlushInterval none = Unit
IsFlushInterval (some d) = (is_neg d ≡ false) ⊎ (d ≡ immediate_flush_interval)

abbrev pub IsPositiveTimeout : Option ℤ → Type 0
IsPositiveTimeout none = Unit
IsPositiveTimeout (some d) = is_pos d ≡ true

pub validate_timeout_iff :
    (name : String) (d : Option ℤ) → (validate_timeout name d false ≡ none) ↔ IsTimeout d
unfolding validate_timeout
validate_timeout_iff name none = ground arith
validate_timeout_iff name (some d) = ground arith

-- A flush interval is accepted exactly if it is not set, not negative, or the value that asks for
-- immediate flushing.
pub validate_flush_iff :
    (name : String) (d : Option ℤ) → (validate_timeout name d true ≡ none) ↔ IsFlushInterval d
unfolding validate_timeout
validate_flush_iff name none = ground arith
validate_flush_iff name (some (pos n)) = ground arith
validate_flush_iff name (some (negsuc n)) = ground arith

pub validate_timeout_positive_iff :
    (name : String) (d : Option ℤ) → (validate_timeout_positive name d ≡ none) ↔ IsPositiveTimeout d
unfolding validate_timeout_positive
validate_timeout_positive_iff name none = ground arith
validate_timeout_positive_iff name (some d) = ground arith
