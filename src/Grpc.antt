-- ===== src/Grpc.antt =====
-- internal/adapter/grpc/util.go and internal/adapter/grpc/errors.go.
pub mod Results
pub mod Middleware
pub mod Chain
pub mod Handlers
use mathlib.Core.List.{map}
use pvz_service.Base.{
  ℕ, ◌-◌, Bool, true, false, Option, none, some, List, [], ◌∷◌, ◌++◌, if◌then◌else◌, length,
}
use pvz_service.Base.Text.{Text, codes, contains, decimal, text_eq}
use pvz_service.Domain.Error.{
  Error, ErrorCode, already_exists, already_given, already_in_storage, as_domain_error,
  belongs_to_other_receiver, error_text, invalid_package, nil_order, not_found,
  return_period_expired, storage_expired, storage_not_expired, unavaliable_returned,
  validation_failed, weight_too_heavy, status, GrpcCode, code_already_exists, code_not_found,
  failed_precondition, internal, invalid_argument,
}
use pvz_service.Domain.Order.{
  Order, OrderStatus, OrderToImport, given_to_client, given_to_courier, in_storage,
  returned_from_client, returned_without_client,
}
use pvz_service.WorkerPool.System.{Internal}

-- The enumerations of api/orders/contract.proto that the mappings name.
pub data PackageType : Type 0 where
  unspecified bag box tape bag_tape box_tape : PackageType

pub data ProtoStatus : Type 0 where
  status_unspecified expects status_accepted status_returned deleted : ProtoStatus

unfoldable pub map_package_type_to_string : PackageType → Text
map_package_type_to_string bag = codes "bag"
map_package_type_to_string box = codes "box"
map_package_type_to_string tape = codes "film"
map_package_type_to_string bag_tape = codes "bag+film"
map_package_type_to_string box_tape = codes "box+film"
map_package_type_to_string unspecified = []

unfoldable pub map_string_to_package_type : Text → PackageType
map_string_to_package_type pt =
    if text_eq pt (codes "bag")
    then bag
    else if text_eq pt (codes "box")
    then box
    else if text_eq pt (codes "film")
    then tape
    else if text_eq pt (codes "bag+film")
    then bag_tape
    else if text_eq pt (codes "box+film")
    then box_tape
    else unspecified

-- Every status is one of the five, so that the default of the switch is not met.
unfoldable pub map_domain_status_to_proto : OrderStatus → ProtoStatus
map_domain_status_to_proto in_storage = expects
map_domain_status_to_proto given_to_client = status_accepted
map_domain_status_to_proto returned_from_client = status_returned
map_domain_status_to_proto returned_without_client = deleted
map_domain_status_to_proto given_to_courier = deleted

unfoldable pub grpc_code : ErrorCode → GrpcCode
grpc_code not_found = code_not_found
grpc_code already_exists = code_already_exists
grpc_code storage_expired = failed_precondition
grpc_code storage_not_expired = failed_precondition
grpc_code validation_failed = invalid_argument
grpc_code invalid_package = invalid_argument
grpc_code weight_too_heavy = invalid_argument
grpc_code already_given = internal
grpc_code belongs_to_other_receiver = internal
grpc_code already_in_storage = internal
grpc_code return_period_expired = internal
grpc_code unavaliable_returned = internal
grpc_code nil_order = internal

pub record GrpcStatus : Type 0 where
  pub code : GrpcCode
  pub message : Text

-- `status.Error(code, message)`; the text of such an error is a parameter.
unfoldable pub status_error : (GrpcCode → Text → Text) → GrpcStatus → Error
status_error status_text s = status (status_text s.code s.message) s.code s.message

pub record ProcessResult : Type 0 where
  pub processed : List ℕ
  pub errors : List ℕ

pub record ImportResult : Type 0 where
  pub imported : ℕ
  pub errors : List ℕ

-- `strings.Contains(e.Error(), fmt.Sprintf("Order %d", id))` for some `e`.
unfoldable pub is_named : List Error → ℕ → Bool
is_named [] id = false
is_named (e ∷ errs) id =
    if contains (error_text e) (codes "Order " ++ decimal id) then true else is_named errs id

-- The loop over the identifiers: those that no error names, and those that one does.
unfoldable pub split_named : List Error → List ℕ → ProcessResult
unfolding is_named
split_named errs [] = record { processed = []; errors = [] }
split_named errs (id ∷ ids) =
    let rest = split_named errs ids in
    if is_named errs id
    then record rest { errors = id ∷ rest.errors }
    else record rest { processed = id ∷ rest.processed }

-- `multierr.Errors` is a parameter.
module _ (multierr_errors : Error → List Error) where
  unfoldable pub map_error_to_grpc_status : Error → GrpcStatus
  map_error_to_grpc_status failure = elim (as_domain_error failure) [
    | some e ↦ record { code = grpc_code e.code; message = e.message }
    | none ↦ elim (multierr_errors failure) [
      | [] ↦ record { code = internal; message = error_text failure }
      | _ ∷ _ ↦ record { code = invalid_argument; message = error_text failure }
    ]
  ]

  unfoldable pub process_errors : Error → List ℕ → ProcessResult × Option GrpcStatus
  unfolding split_named
  process_errors failure order_ids = elim (multierr_errors failure) [
    | [] ↦ (record { processed = order_ids; errors = [] }, none)
    | e ∷ errs ↦ (
      split_named (e ∷ errs) order_ids,
      some (record { code = invalid_argument; message = error_text failure }),
    )
  ]

  -- The count goes out as an int32: for fewer than 2^31 orders it is the difference.
  unfoldable pub process_import_errors :
      {F : Type 0} → Error → List (OrderToImport F) → ImportResult
  unfolding split_named
  process_import_errors {F} failure orders =
      let named =
        (split_named (multierr_errors failure)
          (map (λ (o : OrderToImport F). o.order_id) orders)).errors in
      record { imported = length orders - length named; errors = named }
