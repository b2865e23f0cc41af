-- ===== src/App/Issue.antt =====
-- `issueSingle` of internal/app/issue_orders.go
pub mod Ends
use pvz_service.Base.{ℕ, not, Option, none, some, ltb, ◌==◌, if◌then◌else◌}
use pvz_service.Base.Text.{Text, codes}
use pvz_service.Domain.Platform.{Platform}
use pvz_service.Domain.Order.{
  Order, OrderHistory, OrderStatus, given_to_client, returned_from_client, same_status,
}
use pvz_service.Domain.Error.{
  Error, wrap, belongs_to_different_receiver_error, order_already_given_error,
  unavaliable_returned_order_error, storage_expired_error,
}
use pvz_service.Domain.Event.{Event, order_issued, client}
use pvz_service.Db.World.{
  World, Exec, Result, ok, err, pure, throw, continue, ◌>>=◌, ◌>>◌, relabel, wrap_error,
}
use pvz_service.Db.Client.{with_transaction}
use pvz_service.Repository.Cached
use pvz_service.App.Service.{Service, stop_on, make_event, update_in_tx}

module _ {F : Type 0} ⦃p : Platform F⦄ where
  -- The four guards, in order: the error, if one of them refuses.
  unfoldable pub refuse_issue : ℕ → ℕ → ℕ → Order F → Option Error
  refuse_issue receiver_id order_id now order =
      if not (order.receiver_id == receiver_id)
      then some (belongs_to_different_receiver_error order_id receiver_id order.receiver_id)
      else if same_status order.status given_to_client
      then some (order_already_given_error order_id)
      else if same_status order.status returned_from_client
      then some (unavaliable_returned_order_error order_id)
      else if ltb order.storage_until now
      then some (storage_expired_error order_id (p.format_date order.storage_until))
      else none

  -- The order with its new status.
  abbrev pub issued : ℕ → Order F → Order F
  issued now order = record order { status = given_to_client; last_update_time = now }

  -- The writes: with the client in one transaction; without it through the repository, where the
  -- history record has the time at which the order was accepted.
  unfoldable pub store_issued : Service → ℕ → ℕ → Order F → Event → Exec F (Unit {0})
  store_issued s order_id now order event =
      if s.db_client
      then with_transaction (
          update_in_tx order
            (record { order_id = order_id; status = given_to_client; changed_at = now }) event)
      else do
        wrap_error (codes "failed to update order") (Cached.update order)
        Cached.save_history (record {
          order_id = order.order_id;
          status = order.status;
          changed_at = order.accept_time;
        })

  unfoldable pub issue_single : Service → ℕ → ℕ → ℕ → Exec F (Unit {0})
  issue_single s receiver_id order_id now = do
    order ← wrap_error (codes "repo.GetByID") (Cached.get_by_id order_id)
    stop_on (refuse_issue receiver_id order_id now order)
    event ←
        make_event order_issued (record { type = client; id = receiver_id })
          (record { id = order_id; user_id = receiver_id; status = codes "issued" })
    store_issued s order_id now (issued now order) event
