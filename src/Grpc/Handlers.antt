-- ===== src/Grpc/Handlers.antt =====
-- internal/adapter/grpc/handler.go, and mapDomainOrderToProto of util.go. `S` is float32, a timestamp
-- is an instant. A panic of the paging is `none`, as in the service.
pub mod Rpc
pub mod Imports
pub mod Replies
pub mod Batch
use mathlib.Core.List.{map}
use pvz_service.Base.{ℕ, Bool, Option, none, some, List, []}
use pvz_service.Base.Text.{Text}
use pvz_service.Domain.Error.{Error}
use pvz_service.Domain.Order.{AcceptOrderRequest, Order, OrderHistory, ReceiverOrdersRequest}
use pvz_service.Db.World.{Result, err, ok}
use pvz_service.Grpc.{
  GrpcStatus, PackageType, ProcessResult, ProtoStatus, map_domain_status_to_proto,
  map_package_type_to_string, map_string_to_package_type, process_errors,
}

-- `float64(x)` and `float32(x)`
pub record Floats (S F : Type 0) : Type 0 where
  pub widen : S → F
  pub narrow : F → S

-- The messages of api/orders/contract.proto.
pub record AcceptOrderMessage (S : Type 0) : Type 0 where
  pub order_id : ℕ
  pub user_id : ℕ
  pub expires_at : Option ℕ
  pub package_type : Option PackageType
  pub weight : S
  pub price : S

pub data ActionType : Type 0 where
  action_unspecified action_issue action_return : ActionType

pub record ProcessOrdersMessage : Type 0 where
  pub user_id : ℕ
  pub action : ActionType
  pub order_ids : List ℕ

-- Its numbers are uint32.
pub record Pagination : Type 0 where
  pub page : ℕ
  pub count_on_page : ℕ

pub record ListOrdersMessage : Type 0 where
  pub user_id : ℕ
  pub in_pvz : Bool
  pub last_n : Option ℕ
  pub pagination : Option Pagination

pub record ProtoOrder (S : Type 0) : Type 0 where
  pub order_id : ℕ
  pub user_id : ℕ
  pub status : ProtoStatus
  pub expires_at : ℕ
  pub weight : S
  pub total_price : S
  pub package_type : Option PackageType

pub record ProtoHistory : Type 0 where
  pub order_id : ℕ
  pub status : ProtoStatus
  pub created_at : ℕ

pub record OrderResponse : Type 0 where
  pub status : ProtoStatus
  pub order_id : ℕ

pub record OrdersList (S : Type 0) : Type 0 where
  pub orders : List (ProtoOrder S)
  -- an int32, modulo 2^32
  pub total : ℕ

-- The tests on the optional fields.
abbrev pub package_text : Option PackageType → Text
package_text none = []
package_text (some pt) = map_package_type_to_string pt

-- `AsTime` of no timestamp is the epoch.
abbrev pub as_time : Option ℕ → ℕ
as_time none = 0
as_time (some t) = t

abbrev pub page_number : Option Pagination → ℕ
page_number none = 0
page_number (some p) = p.page

abbrev pub page_limit : Option Pagination → ℕ
page_limit none = 0
page_limit (some p) = p.count_on_page

abbrev pub number_or_0 : Option ℕ → ℕ
number_or_0 none = 0
number_or_0 (some n) = n

unfoldable pub to_receiver_request : ListOrdersMessage → ReceiverOrdersRequest
to_receiver_request req = record {
  receiver_id = req.user_id;
  in_pvz = req.in_pvz;
  last_n = number_or_0 req.last_n;
  page = page_number req.pagination;
  limit = page_limit req.pagination;
}

unfoldable pub history_of_record : OrderHistory → ProtoHistory
history_of_record h = record {
  order_id = h.order_id;
  status = map_domain_status_to_proto h.status;
  created_at = h.changed_at;
}

-- The two ends of `ProcessOrders`.
unfoldable pub process_answer :
    (Error → List Error) → List ℕ → Result (Unit {0}) → ProcessResult × Option GrpcStatus
process_answer multierr_errors order_ids (ok _) =
    (record { processed = order_ids; errors = [] }, none)
process_answer multierr_errors order_ids (err e) = process_errors multierr_errors e order_ids

module _ {S F : Type 0} (floats : Floats S F) where
  unfoldable pub to_accept_request : AcceptOrderMessage S → AcceptOrderRequest F
  to_accept_request req = record {
    order_id = req.order_id;
    receiver_id = req.user_id;
    storage_until = as_time req.expires_at;
    weight = floats.widen req.weight;
    price = floats.widen req.price;
    package_type = package_text req.package_type;
  }

  unfoldable pub map_domain_order_to_proto : Order F → ProtoOrder S
  map_domain_order_to_proto order = record {
    order_id = order.order_id;
    user_id = order.receiver_id;
    status = map_domain_status_to_proto order.status;
    expires_at = order.storage_until;
    weight = floats.narrow order.weight;
    total_price = floats.narrow order.price;
    package_type = some (map_string_to_package_type order.package_type);
  }

unfoldable pub history_of_order : {F : Type 0} → Order F → ProtoHistory
history_of_order order = record {
  order_id = order.order_id;
  status = map_domain_status_to_proto order.status;
  created_at = order.last_update_time;
}
