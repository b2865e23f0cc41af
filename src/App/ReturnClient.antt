-- ===== src/App/ReturnClient.antt =====
-- `returnSingle` of internal/app/return_order_client.go
pub mod Ends
use pvz_service.Base.{ℕ, ◌-◌, ◌*◌, not, ◌||◌, Option, none, some, ltb, ◌==◌, if◌then◌else◌}
use pvz_service.Base.Text.{Text, codes}
use pvz_service.Domain.Platform.{Platform, hour}
use pvz_service.Domain.Order.{
  Order, OrderHistory, OrderStatus, in_storage, returned_from_client, same_status,
}
use pvz_service.Domain.Error.{
  Error, wrap, belongs_to_different_receiver_error, already_in_storage_error,
  return_period_expired_error,
}
use pvz_service.Domain.Event.{Event, order_returned_by_client, client}
use pvz_service.Db.World.{
  World, Exec, Result, ok, err, pure, throw, continue, ◌>>=◌, ◌>>◌, relabel, wrap_error,
}
use pvz_service.Db.Client.{with_transaction}
use pvz_service.Repository.Cached
use pvz_service.App.Service.{Service, stop_on, make_event, update_in_tx}

module _ {F : Type 0} ⦃p : Platform F⦄ where
  -- The three guards, in order. `now.Sub(t)` of a later `t` is negative, and within the period.
  unfoldable pub refuse_return : ℕ → ℕ → ℕ → Order F → Option Error
  refuse_return receiver_id order_id now order =
      if not (order.receiver_id == receiver_id)
      then some (belongs_to_different_receiver_error order_id receiver_id order.receiver_id)
      else if same_status order.status in_storage || same_status order.status returned_from_client
      then some (already_in_storage_error order_id)
      else if ltb (48 * hour) (now - order.last_update_time)
      then some (return_period_expired_error order_id (p.hours (now - order.last_update_time)))
      else none

  -- The order with its new status.
  abbrev pub returned : ℕ → Order F → Order F
  returned now order = record order { status = returned_from_client; last_update_time = now }

  -- The writes: with the client in one transaction; without it through the repository, where the
  -- history record has the time at which the order was accepted.
  unfoldable pub store_returned : Service → ℕ → ℕ → Order F → Event → Exec F (Unit {0})
  store_returned s order_id now order event =
      if s.db_client
      then with_transaction (
          update_in_tx order
            (record { order_id = order_id; status = returned_from_client; changed_at = now }) event)
      else do
        wrap_error (codes "failed to update order") (Cached.update order)
        Cached.save_history (record {
          order_id = order.order_id;
          status = order.status;
          changed_at = order.accept_time;
        })

  unfoldable pub return_single : Service → ℕ → ℕ → ℕ → Exec F (Unit {0})
  return_single s receiver_id order_id now = do
    order ← wrap_error (codes "repo.GetByID") (Cached.get_by_id order_id)
    stop_on (refuse_return receiver_id order_id now order)
    event ←
        make_event order_returned_by_client (record { type = client; id = receiver_id })
          (record { id = order_id; user_id = receiver_id; status = codes "returned_by_client" })
    store_returned s order_id now (returned now order) event
