-- ===== src/Domain/Error.antt =====
-- internal/domain/errors.go, and the wrapping that `fmt.Errorf("…: %w", err)` adds.
use pvz_service.Base.{ℕ, Option, none, some, ◌++◌}
use pvz_service.Base.Text.{Text, codes, decimal, quoted}
use pvz_service.Domain.Platform.{Platform}

pub data ErrorCode : Type 0 where
  not_found already_exists storage_expired validation_failed already_given : ErrorCode
  belongs_to_other_receiver already_in_storage return_period_expired : ErrorCode
  storage_not_expired unavaliable_returned nil_order invalid_package weight_too_heavy : ErrorCode

pub record DomainError : Type 0 where
  pub code : ErrorCode
  pub message : Text

-- The codes of gRPC that the program names, and `codes.Unknown`.
pub data GrpcCode : Type 0 where
  code_not_found code_already_exists failed_precondition invalid_argument internal : GrpcCode
  resource_exhausted deadline_exceeded unknown : GrpcCode

-- An `error` value: one of the domain's, a gRPC status (its text, its code and its message), one with
-- only a text, or a wrapped one.
pub data Error : Type 0 where
  domain : DomainError → Error
  status : Text → GrpcCode → Text → Error
  plain : Text → Error
  wrap : Text → Error → Error

-- `err.Error()`
unfoldable pub error_text : Error → Text
error_text (domain e) = e.message
error_text (status text code message) = text
error_text (plain s) = s
error_text (wrap s e) = s ++ (codes ": " ++ error_text e)

-- `errors.As(err, &domainErr)`
unfoldable pub as_domain_error : Error → Option DomainError
as_domain_error (domain e) = some e
as_domain_error (status text code message) = none
as_domain_error (plain s) = none
as_domain_error (wrap s e) = as_domain_error e

abbrev make : ErrorCode → Text → Error
make code message = domain (record { code = code; message = message })

unfoldable pub entity_not_found_error : Text → Text → Error
entity_not_found_error name id =
    make not_found
      (codes "Entity " ++ (quoted name ++ (codes " with ID " ++ (id ++ codes " not found"))))

unfoldable pub order_already_exists_error : ℕ → Error
order_already_exists_error id =
    make already_exists (codes "Order " ++ (decimal id ++ codes " already exists"))

unfoldable pub storage_expired_error : ℕ → Text → Error
storage_expired_error id until =
    make storage_expired (
      codes "Order " ++ (decimal id ++ (codes " storage period expired (" ++ (until ++ codes ")"))))

unfoldable pub validation_failed_error : Text → Error
validation_failed_error message = make validation_failed message

unfoldable pub order_already_given_error : ℕ → Error
order_already_given_error id =
    make already_given (codes "Order " ++ (decimal id ++ codes " already given to client"))

unfoldable pub belongs_to_different_receiver_error : ℕ → ℕ → ℕ → Error
belongs_to_different_receiver_error id expected actual = make belongs_to_other_receiver (
    codes "Order "
    ++ (decimal id
        ++ (codes " belongs to a different receiver (expected "
            ++ (decimal expected ++ (codes ", got " ++ (decimal actual ++ codes ")"))))))

unfoldable pub already_in_storage_error : ℕ → Error
already_in_storage_error id =
    make already_in_storage (codes "Order " ++ (decimal id ++ codes " is already in storage"))

unfoldable pub storage_not_expired_error : ℕ → Text → Error
storage_not_expired_error id until = make storage_not_expired (
    codes "Order "
    ++ (decimal id ++ (codes " storage period not expired (until " ++ (until ++ codes ")"))))

unfoldable pub unavaliable_returned_order_error : ℕ → Error
unavaliable_returned_order_error id =
    make unavaliable_returned
      (codes "Order " ++ (decimal id ++ codes " is an unavailable returned order"))

unfoldable pub nil_order_error : ℕ → Error
nil_order_error id = make nil_order (codes "Order " ++ (decimal id ++ codes " is nil"))

unfoldable pub invalid_package_error : Text → Error
invalid_package_error package_type =
    make invalid_package (codes "Invalid package type: " ++ package_type)

module _ {F : Type 0} ⦃p : Platform F⦄ where
  unfoldable pub return_period_expired_error : ℕ → F → Error
  return_period_expired_error id hours_since_given = make return_period_expired (
      codes "Order "
      ++ (decimal id
          ++ (codes " return period expired ("
              ++ (p.fixed 1 hours_since_given ++ codes " hours)"))))

  unfoldable pub weight_too_heavy_error : Text → F → F → Error
  weight_too_heavy_error package_type weight max_weight = make weight_too_heavy (
      codes "Weight "
      ++ (p.fixed 2 weight
          ++ (codes " kg exceeds maximum allowed for "
              ++ (package_type ++ (codes " (" ++ (p.fixed 2 max_weight ++ codes " kg)"))))))
