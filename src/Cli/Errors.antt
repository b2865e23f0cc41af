-- ===== src/Cli/Errors.antt =====
-- internal/adapter/cli/errors.go. `multierr.Errors` is a parameter.
use pvz_service.Base.{
  ◌&&◌, Option, none, some, List, [], ◌∷◌, ◌++◌, map, ltb, if◌then◌else◌, length,
}
use pvz_service.Base.Text.{Text, codes, contains}
use pvz_service.Domain.Error.{
  Error, ErrorCode, already_exists, already_given, already_in_storage, as_domain_error,
  belongs_to_other_receiver, error_text, invalid_package, nil_order, not_found, plain,
  return_period_expired, storage_expired, storage_not_expired, unavaliable_returned,
  validation_failed, weight_too_heavy, wrap,
}

unfoldable pub not_found_error_error : Text → Error
not_found_error_error message = plain (codes "ERROR: ORDER_NOT_FOUND: " ++ message)

unfoldable pub already_exists_error : Text → Error
already_exists_error message = plain (codes "ERROR: ORDER_ALREADY_EXISTS: " ++ message)

unfoldable pub storage_expired_error : Text → Error
storage_expired_error message = plain (codes "ERROR: STORAGE_EXPIRED: " ++ message)

unfoldable pub validation_failed_error : Text → Error
validation_failed_error message = plain (codes "ERROR: VALIDATION_FAILED: " ++ message)

unfoldable pub storage_not_expired_error : Text → Error
storage_not_expired_error message = plain (codes "ERROR: STORAGE_NOT_EXPIRED: " ++ message)

unfoldable pub weight_too_heavy_error : Text → Error
weight_too_heavy_error message = plain (codes "ERROR: WEIGHT_TOO_HEAVY: " ++ message)

unfoldable pub internal_error : Error → Error
internal_error failure = wrap (codes "INTERNAL ERROR") failure

-- The `switch` on the code of a domain error.
unfoldable pub domain_message : ErrorCode → Text → Error
unfolding not_found_error_error already_exists_error storage_expired_error validation_failed_error
    storage_not_expired_error weight_too_heavy_error
domain_message not_found m = not_found_error_error m
domain_message already_exists m = already_exists_error m
domain_message storage_expired m = storage_expired_error m
domain_message validation_failed m = validation_failed_error m
domain_message already_given m = validation_failed_error m
domain_message belongs_to_other_receiver m = validation_failed_error m
domain_message already_in_storage m = validation_failed_error m
domain_message return_period_expired m = validation_failed_error m
domain_message storage_not_expired m = storage_not_expired_error m
domain_message unavaliable_returned m = validation_failed_error m
domain_message nil_order m = validation_failed_error m
domain_message invalid_package m = validation_failed_error m
domain_message weight_too_heavy m = weight_too_heavy_error m

-- The `switch` on the text of an error of cobra.
unfoldable pub flag_message : Text → Option Text
flag_message msg =
    let invalid = contains msg (codes "invalid argument") in
    if invalid && contains msg (codes "--user-id")
    then some (codes "Invalid value for flag --user-id")
    else if invalid && contains msg (codes "--order-id")
    then some (codes "Invalid value for flag --order-id")
    else if invalid && contains msg (codes "--weight")
    then some (codes "Invalid value for flag --weight")
    else if invalid && contains msg (codes "--price")
    then some (codes "Invalid value for flag --price")
    else if invalid
    then some (codes "Invalid value for one of the flags")
    else if contains msg (codes "flag needs an argument")
    then some (codes "Missing value for a required flag")
    else if contains msg (codes "unknown flag")
    then some (codes "Unknown flag")
    else if contains msg (codes "parsing")
    then some (codes "Failed to parse flag value")
    else none

unfoldable pub process_single_error : Error → Error
unfolding domain_message flag_message validation_failed_error internal_error
process_single_error failure = elim (as_domain_error failure) [
  | some e ↦ domain_message e.code e.message
  | none ↦ elim (flag_message (error_text failure)) [
    | some message ↦ validation_failed_error message
    | none ↦ internal_error failure
  ]
]

-- `strings.Join(userMsgs, "\n")`
unfoldable pub join_lines : List Text → Text
join_lines [] = []
join_lines (line ∷ []) = line
join_lines (line ∷ next ∷ lines) = line ++ 10 ∷ join_lines (next ∷ lines)

module _ (multierr_errors : Error → List Error) where
  unfoldable pub map_error : Option Error → Option Error
  unfolding process_single_error join_lines
  map_error none = none
  map_error (some failure) =
      let errs = multierr_errors failure in
      if ltb 1 (length errs)
      then some (plain (join_lines (map (λ e. error_text (process_single_error e)) errs)))
      else some (process_single_error failure)
