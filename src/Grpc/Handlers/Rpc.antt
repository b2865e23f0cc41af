-- ===== src/Grpc/Handlers/Rpc.antt =====
-- The handlers of internal/adapter/grpc/handler.go, over the service.
use mathlib.Core.List.{map}
use pvz_service.Base.{ℕ, ◌%◌, ◌^◌, Option, none, some, List, []}
use pvz_service.Domain.Error.{Error}
use pvz_service.Domain.Order.{Order, OrderToImport}
use pvz_service.Domain.Platform.{Platform}
use pvz_service.Db.World.{Exec, Result, err, ok, pure, ◌>>=◌, ◌>>◌}
use pvz_service.App.Accept.{accept_order}
use pvz_service.App.Paginate.{paginate}
use pvz_service.App.Queries.{
  get_returned_orders, get_order_history, get_order_history_by_id, get_receiver_orders,
}
use pvz_service.App.ReturnDelivery.{return_order_to_delivery}
use pvz_service.App.Service.{Service}
use pvz_service.Grpc.Handlers.{
  as_time, package_text, AcceptOrderMessage, Floats, ListOrdersMessage, OrderResponse, OrdersList,
  Pagination, ProtoHistory, ProtoOrder, history_of_order, history_of_record,
  map_domain_order_to_proto, page_limit, page_number, to_accept_request, to_receiver_request,
}
use pvz_service.Grpc.{ImportResult, deleted, expects, process_import_errors}

module _ {S F : Type 0} (floats : Floats S F) ⦃p : Platform F⦄ where
  unfoldable pub accept_order_call : Service → AcceptOrderMessage S → Exec F OrderResponse
  accept_order_call s req = do
    accept_order s (to_accept_request floats req)
    pure (record { status = expects; order_id = req.order_id })

  -- One order of `ImportOrders`: its date goes to the service as a text.
  unfoldable pub to_import : AcceptOrderMessage S → OrderToImport F
  to_import order = record {
    order_id = order.order_id;
    receiver_id = order.user_id;
    storage_until = p.format_date (as_time order.expires_at);
    package_type = package_text order.package_type;
    weight = floats.widen order.weight;
    price = floats.widen order.price;
  }

unfoldable pub return_order_call :
    {F : Type 0} ⦃p : Platform F⦄ → Service → ℕ → Exec F OrderResponse
return_order_call s order_id = do
  return_order_to_delivery s order_id
  pure (record { status = deleted; order_id = order_id })

-- `int32(imported)`, or the result of the errors.
unfoldable pub import_answer :
    {F : Type 0} → (Error → List Error) → List (OrderToImport F) → Result ℕ → ImportResult
import_answer multierr_errors orders (ok imported) = record {
  imported = imported % 2 ^ 32;
  errors = [];
}
import_answer multierr_errors orders (err e) = process_import_errors multierr_errors e orders

module _ {S F : Type 0} (floats : Floats S F) where
  abbrev pub listed : Option (List (Order F) × ℕ) → Option (OrdersList S)
  listed none = none
  listed (some (orders, cnt)) =
      some (record { orders = map (map_domain_order_to_proto floats) orders; total = cnt % 2 ^ 32 })

  unfoldable pub list_orders_call : ListOrdersMessage → Exec F (Option (OrdersList S))
  unfolding map_domain_order_to_proto
  list_orders_call req = do
    found ← get_receiver_orders (to_receiver_request req)
    pure (listed found)

  abbrev pub returns_listed : Option (List (Order F) × ℕ) → Option (List (ProtoOrder S))
  returns_listed none = none
  returns_listed (some (orders, cnt)) = some (map (map_domain_order_to_proto floats) orders)

  unfoldable pub list_returns_call : Option Pagination → Exec F (Option (List (ProtoOrder S)))
  unfolding map_domain_order_to_proto
  list_returns_call pagination = do
    found ← get_returned_orders (page_number pagination) (page_limit pagination)
    pure (returns_listed found)

module _ {F : Type 0} where
  abbrev pub history_listed : Option (List (Order F)) → Option (List ProtoHistory)
  history_listed none = none
  history_listed (some orders) = some (map history_of_order orders)

  unfoldable pub history_page : Option Pagination → List (Order F) → Option (List ProtoHistory)
  unfolding paginate
  history_page pagination orders =
      history_listed (paginate orders (page_number pagination) (page_limit pagination))

  unfoldable pub get_history_call : Option Pagination → Exec F (Option (List ProtoHistory))
  get_history_call pagination = do orders ← get_order_history; pure (history_page pagination orders)

  unfoldable pub get_order_history_call : ℕ → Exec F (List ProtoHistory)
  get_order_history_call order_id = do
    history ← get_order_history_by_id order_id
    pure (map history_of_record history)
