-- ===== src/App/Progress/Succeeds.antt =====
-- The operations on a stored order (issue_orders.go, return_order_client.go and
-- return_order_delivery.go of internal/app) in a world where no statement fails.
use pvz_service.Base.{ℕ, ◌≡◌, refl, sym, true, none, some, []}
use pvz_service.Base.Text.{codes}
use pvz_service.Domain.Event.{
  client, new_event, order_issued, order_returned_by_client, order_returned_to_courier, system,
}
use pvz_service.Domain.Order.{Order, OrderHistory, given_to_client, returned_from_client}
use pvz_service.Domain.Platform.{Platform}
use pvz_service.Db.Client.Transaction.{begun}
use pvz_service.Db.Tables.{find_order, has_package}
use pvz_service.Db.World.{Result, World, continue, count_metric, err, later, new_uuid, ok, time_now}
use pvz_service.Repository.Cached
use pvz_service.Repository.Cached.Coherent.{Coherent}
use pvz_service.Repository.Cached.Faithful.{get_by_id-IsFaithful}
use pvz_service.Repository.Orders.Rows.{find_order-id}
use pvz_service.App.Issue.{issue_single, issued, refuse_issue, store_issued}
use pvz_service.App.Outcome.Rows.{IsSound}
use pvz_service.App.Progress.{Went, changes-Went, get_by_id_went, with_transaction-Went}
use pvz_service.App.ReturnClient.{refuse_return, return_single, returned, store_returned}
use pvz_service.App.ReturnDelivery.{
  count_return, courier_status, refuse_early, refuse_status, return_order_to_delivery, sent_back,
  store_sent_back,
}
use pvz_service.App.Service.{Service, make_event, update_in_tx}

module _ {F : Type 0} ⦃p : Platform F⦄ where
  -- With the database client, coherent caches, sound tables and no failing statement, issueSingle
  -- reports success for every order that is there, that the four guards let through, and whose
  -- package type is a row as the foreign key has it.
  pub issue_single-succeeds :
      (s : Service) (receiver_id order_id now : ℕ) (o : Order F) (w : World F)
      → s.db_client ≡ true
      → w.faults ≡ []
      → Coherent w.caches w.db
      → IsSound w.db
      → find_order order_id w.db.orders ≡ some o
      → has_package o.package_type w.db.package_types ≡ true
      → refuse_issue receiver_id order_id now o ≡ none
      → (issue_single s receiver_id order_id now w).0 ≡ ok tt
  unfolding issue_single make_event time_now new_uuid store_issued
  issue_single-succeeds s receiver_id order_id now o w client_there none_left c sound found known
        allowed =
      let (got, none_later) = get_by_id_went order_id o w none_left c found in
      let read = get_by_id-IsFaithful order_id w c in
      let w1 = (Cached.get_by_id order_id w).1 in
      let w2 = (time_now (new_uuid w1).1).1 in
      let h : OrderHistory = record {
        order_id = order_id;
        status = given_to_client;
        changed_at = now;
      } in
      let event =
        new_event w1.next_id w2.clock order_issued (record { type = client; id = receiver_id })
          (record { id = order_id; user_id = receiver_id; status = codes "issued" }) in
      let same_id = find_order-id order_id w.db.orders o found in
      rw (got, allowed, client_there)
        (with_transaction-Went _ w2 none_later (
          changes-Went order_id (issued now o) o h event w.db w2 read.same_db none_later
            read.coherent sound found known same_id refl (sym same_id)))

  -- With the database client, coherent caches, sound tables and no failing statement, returnSingle
  -- reports success for every order that is there, that the three guards let through, and whose
  -- package type is a row as the foreign key has it.
  pub return_single-succeeds :
      (s : Service) (receiver_id order_id now : ℕ) (o : Order F) (w : World F)
      → s.db_client ≡ true
      → w.faults ≡ []
      → Coherent w.caches w.db
      → IsSound w.db
      → find_order order_id w.db.orders ≡ some o
      → has_package o.package_type w.db.package_types ≡ true
      → refuse_return receiver_id order_id now o ≡ none
      → (return_single s receiver_id order_id now w).0 ≡ ok tt
  unfolding return_single make_event time_now new_uuid store_returned
  return_single-succeeds s receiver_id order_id now o w client_there none_left c sound found known
        allowed =
      let (got, none_later) = get_by_id_went order_id o w none_left c found in
      let read = get_by_id-IsFaithful order_id w c in
      let w1 = (Cached.get_by_id order_id w).1 in
      let w2 = (time_now (new_uuid w1).1).1 in
      let h : OrderHistory = record {
        order_id = order_id;
        status = returned_from_client;
        changed_at = now;
      } in
      let event =
        new_event w1.next_id w2.clock order_returned_by_client
          (record { type = client; id = receiver_id })
          (record { id = order_id; user_id = receiver_id; status = codes "returned_by_client" }) in
      let same_id = find_order-id order_id w.db.orders o found in
      rw (got, allowed, client_there)
        (with_transaction-Went _ w2 none_later (
          changes-Went order_id (returned now o) o h event w.db w2 read.same_db none_later
            read.coherent sound found known same_id refl (sym same_id)))

  counted-Went :
      (out : Result (Unit {0}) × World F) → Went out → Went (continue out (λ _. count_return))
  unfolding count_return count_metric
  counted-Went (ok u, w) went = (refl, went.1)
  counted-Went (err e, w) went = absurd (cc)

  -- With the database client, coherent caches, sound tables and no failing statement,
  -- ReturnOrderToDelivery reports success for every order that is there, that both guards let
  -- through, the second at the first reading of the clock after the read of the order, and whose
  -- package type is a row as the foreign key has it.
  pub return_order_to_delivery-succeeds :
      (s : Service) (order_id : ℕ) (o : Order F) (w : World F)
      → s.db_client ≡ true
      → w.faults ≡ []
      → Coherent w.caches w.db
      → IsSound w.db
      → find_order order_id w.db.orders ≡ some o
      → has_package o.package_type w.db.package_types ≡ true
      → refuse_status o.status ≡ none
      → let w1 = (Cached.get_by_id order_id w).1 in
        (refuse_early order_id (later w1.clock w1.ticks) o ≡ none)
        → (return_order_to_delivery s order_id w).0 ≡ ok tt
  unfolding return_order_to_delivery make_event time_now new_uuid store_sent_back
  return_order_to_delivery-succeeds s order_id o w client_there none_left c sound found known
        status_allowed allowed =
      let (got, none_later) = get_by_id_went order_id o w none_left c found in
      let read = get_by_id-IsFaithful order_id w c in
      let w3 = (time_now (time_now (Cached.get_by_id order_id w).1).1).1 in
      let w4 = (time_now (new_uuid w3).1).1 in
      let changed = sent_back w3.clock o in
      let h : OrderHistory = record {
        order_id = order_id;
        status = courier_status o.status;
        changed_at = w3.clock;
      } in
      let event =
        new_event w3.next_id w4.clock order_returned_to_courier (record { type = system; id = 0 })
          (record {
            id = order_id;
            user_id = o.receiver_id;
            status = codes "returned_to_courier";
          }) in
      let same_id = find_order-id order_id w.db.orders o found in
      rw (got, status_allowed, allowed, client_there)
        (with_transaction-Went _ w4 none_later (
          counted-Went (update_in_tx changed h event (begun w4)) (
            changes-Went order_id changed o h event w.db w4 read.same_db none_later read.coherent
              sound found known same_id refl (sym same_id))))
