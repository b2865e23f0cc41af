-- ===== src/App/ReturnDelivery/Ends.antt =====
-- How `ReturnOrderToDelivery` ends, with the database client.
use pvz_service.Base.{◌⊎◌, ◌≤◌, ℕ, ◌≡◌, refl, inl, inr, true, none, some, List, Option-cases}
use pvz_service.Base.Text.{codes}
use pvz_service.Domain.Error.{wrap}
use pvz_service.Domain.Event.{Actor, OrderInfo, new_event, order_returned_to_courier, system}
use pvz_service.Domain.Order.{in_storage, returned_from_client, Order, OrderHistory}
use pvz_service.Domain.Platform.{Platform}
use pvz_service.Db.Client.{visible}
use pvz_service.Db.Client.Transaction.{begun}
use pvz_service.Db.Tables.{Tables, Write, change_order, find_order}
use pvz_service.Db.World.{Exec, Result-cases, World, count_metric, new_uuid, time_now, ◌>>◌}
use pvz_service.Repository.Cached
use pvz_service.Repository.Cached.Coherent.{Coherent}
use pvz_service.Repository.Cached.Faithful.{get_by_id-IsFaithful}
use pvz_service.Repository.Cached.Steps.{TxStep, TxStep-bind}
use pvz_service.Repository.Orders.Rows.{find_order-id}
use pvz_service.App.Guards.{refuse_early-none, refuse_status-none}
use pvz_service.App.Outcome.{
  Changed, OperationEnds, OperationEnds-error, OperationEnds-map, update-ends,
}
use pvz_service.App.Outcome.Rows.{IsSound}
use pvz_service.App.ReturnDelivery.{
  count_return, courier_status, refuse_early, refuse_status, return_order_to_delivery, sent_back,
  store_sent_back,
}
use pvz_service.App.Service.{Service, make_event, update_in_tx}

module _ {F : Type 0} ⦃p : Platform F⦄ where
  -- The order `o` was there, both guards let it through at the first reading of the clock, and the
  -- change was recorded at the second.
  pub record SentBack (order_id : ℕ) (db db' : Tables F) : Type 0 where
    pub order : Order F
    pub found : find_order order_id db.orders ≡ some order
    pub status_allowed : refuse_status order.status ≡ none
    pub at_hand : (order.status ≡ in_storage) ⊎ (order.status ≡ returned_from_client)
    pub checked_at : ℕ
    pub allowed : refuse_early order_id checked_at order ≡ none
    pub expired : order.storage_until ≤ checked_at
    pub now : ℕ
    pub changed :
        Changed
          (change_order (sent_back now order))
          (record { order_id = order_id; status = courier_status order.status; changed_at = now })
          order_returned_to_courier
          (record { type = system; id = 0 })
          (record {
            id = order_id;
            user_id = order.receiver_id;
            status = codes "returned_to_courier";
          })
          db
          db'

  -- The counters after the writes.
  counted-TxStep :
      (Q : List (Write F) → Type 0) (m : Exec F (Unit {0})) (w : World F)
      → TxStep Q w (m w)
      → TxStep Q w ((do m; count_return) w)
  unfolding count_return count_metric visible
  counted-TxStep Q m w step = TxStep-bind Q Q count_return w (m w) step (λ w1 c same q. record {
    same_db = refl;
    coherent = record { committed = c.committed; seen = c.seen };
    ended = inl (refl, q);
  })

  pub return_order_to_delivery-ends :
      (s : Service) (order_id : ℕ) (w : World F)
      → s.db_client ≡ true
      → Coherent w.caches w.db
      → IsSound w.db
      → OperationEnds
          (λ _ db'. SentBack order_id w.db db')
          w.db
          (return_order_to_delivery s order_id w)
  unfolding return_order_to_delivery make_event time_now new_uuid store_sent_back
  return_order_to_delivery-ends s order_id w client_there c sound =
      let read = get_by_id-IsFaithful order_id w c in
      let w1 = (Cached.get_by_id order_id w).1 in
      let w2 = (time_now w1).1 in
      let w3 = (time_now w2).1 in
      let w4 = (time_now (new_uuid w3).1).1 in
      let Success = λ (u : Unit {0}) (d : Tables F). SentBack order_id w.db d in
      elim (Result-cases (Cached.get_by_id order_id w).0) [
        | inr (e, missing) ↦ rw missing (
            OperationEnds-error Success w.db (wrap (codes "repo.GetByID") e) w1 read.coherent
              read.same_db)
        | inl (o, got) ↦ elim (Option-cases (refuse_status o.status)) [
          | inr (e, refused) ↦
              rw (got, refused) (OperationEnds-error Success w.db e w1 read.coherent read.same_db)
          | inl status_allowed ↦ elim (Option-cases (refuse_early order_id w2.clock o)) [
            | inr (e, refused) ↦
                rw (got, status_allowed, refused)
                  (OperationEnds-error Success w.db e w2 read.coherent read.same_db)
            | inl allowed ↦
                let found = read.right o got in
                let changed = sent_back w3.clock o in
                let h : OrderHistory = record {
                  order_id = order_id;
                  status = courier_status o.status;
                  changed_at = w3.clock;
                } in
                let actor : Actor = record { type = system; id = 0 } in
                let info : OrderInfo = record {
                  id = order_id;
                  user_id = o.receiver_id;
                  status = codes "returned_to_courier";
                } in
                let event = new_event w3.next_id w4.clock order_returned_to_courier actor info in
                rw (got, status_allowed, allowed, client_there)
                  (OperationEnds-map _ Success w.db _
                    (λ u d done. record {
                      order = o;
                      found = found;
                      status_allowed = status_allowed;
                      at_hand = refuse_status-none o.status status_allowed;
                      checked_at = w2.clock;
                      allowed = allowed;
                      expired = refuse_early-none order_id w2.clock o allowed;
                      now = w3.clock;
                      changed = done;
                    })
                    (update-ends order_id changed o h w3.next_id w4.clock order_returned_to_courier
                      actor info (do update_in_tx changed h event; count_return) w.db w4
                      read.same_db read.coherent sound found
                      (find_order-id order_id w.db.orders o found) refl
                      (λ step. counted-TxStep _ (update_in_tx changed h event) (begun w4) step)))
          ]
        ]
      ]
