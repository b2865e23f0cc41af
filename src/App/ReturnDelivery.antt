-- ===== src/App/ReturnDelivery.antt =====
-- `ReturnOrderToDelivery` of internal/app/return_order_delivery.go
pub mod Ends
use pvz_service.Base.{ℕ, not, ◌&&◌, Option, none, some, ◌++◌, ltb, if◌then◌else◌}
use pvz_service.Base.Text.{Text, codes}
use pvz_service.Domain.Platform.{Platform}
use pvz_service.Domain.Order.{
  Order, OrderHistory, OrderStatus, in_storage, returned_from_client, returned_without_client,
  given_to_courier, same_status, get_status_string,
}
use pvz_service.Domain.Error.{Error, wrap, validation_failed_error, storage_not_expired_error}
use pvz_service.Domain.Event.{Event, order_returned_to_courier, system}
use pvz_service.Db.World.{
  World, Metric, orders_returned, refresh_order_status, Exec, Result, ok, err, pure, throw,
  continue, ◌>>=◌, ◌>>◌, relabel, wrap_error, time_now, count_metric,
}
use pvz_service.Db.Client.{with_transaction}
use pvz_service.Repository.Cached
use pvz_service.App.Service.{Service, stop_on, make_event, update_in_tx}

-- The guard on the status.
unfoldable pub refuse_status : OrderStatus → Option Error
refuse_status status =
    if not (same_status status in_storage) && not (same_status status returned_from_client)
    then some (
        wrap (codes "validation") (
          validation_failed_error (
            codes "order is not in storage (current status: "
            ++ (get_status_string status ++ codes ")"))))
    else none

unfoldable pub courier_status : OrderStatus → OrderStatus
courier_status status =
    if same_status status returned_from_client then given_to_courier else returned_without_client

module _ {F : Type 0} ⦃p : Platform F⦄ where
  -- The guard on the storage period.
  unfoldable pub refuse_early : ℕ → ℕ → Order F → Option Error
  refuse_early order_id now order =
      if ltb now order.storage_until
      then some (
          wrap (codes "validation")
            (storage_not_expired_error order_id (p.format_date order.storage_until)))
      else none

  -- The order with its new status.
  abbrev pub sent_back : ℕ → Order F → Order F
  sent_back now order = record order {
    status = courier_status order.status;
    last_update_time = now;
  }

  unfoldable pub count_return : Exec F (Unit {0})
  count_return = do
    count_metric (orders_returned (codes "to_courier") 1)
    count_metric refresh_order_status

  -- The writes and the counters; with the client all of it inside the transaction.
  unfoldable pub store_sent_back : Service → Order F → OrderHistory → Event → Exec F (Unit {0})
  store_sent_back s order history event =
      if s.db_client
      then with_transaction (do update_in_tx order history event; count_return)
      else do
        wrap_error (codes "failed to update order") (Cached.update order)
        wrap_error (codes "failed to save history") (Cached.save_history history)
        count_return

  -- The clock is read twice: for the guard, and for the time of the change.
  unfoldable pub return_order_to_delivery : Service → ℕ → Exec F (Unit {0})
  return_order_to_delivery s order_id = do
    order ← wrap_error (codes "repo.GetByID") (Cached.get_by_id order_id)
    stop_on (refuse_status order.status)
    checked_at ← time_now
    stop_on (refuse_early order_id checked_at order)
    now ← time_now
    let changed = sent_back now order
    event ←
        make_event order_returned_to_courier (record { type = system; id = 0 })
          (record {
            id = order_id;
            user_id = order.receiver_id;
            status = codes "returned_to_courier";
          })
    store_sent_back s changed
        (record {
          order_id = order_id;
          status = changed.status;
          changed_at = changed.last_update_time;
        })
        event
