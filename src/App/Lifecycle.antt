-- ===== src/App/Lifecycle.antt =====
-- The service over time: the operations on single orders as steps, each from the world that the one
-- before left, and what holds in every world that they reach.
pub mod Statuses
pub mod Batches
pub mod AllIssued
use mathlib.Core.Path.{subst}
use pvz_service.Base.{ℕ, ◌≡◌, refl, sym, inl, inr, true}
use pvz_service.Domain.Event.{
  Actor, EventType, OrderInfo, order_issued, order_returned_by_client, order_returned_to_courier,
}
use pvz_service.Domain.Order.{AcceptOrderRequest, Order, OrderHistory, same_status}
use pvz_service.Domain.Platform.{Platform}
use pvz_service.Db.Tables.{Tables, change_order}
use pvz_service.Db.World.{Result, World, time_now}
use pvz_service.Repository.Cached.Coherent.{Coherent}
use pvz_service.Repository.Orders.Rows.{find_order-id}
use pvz_service.App.Accept.{accept_order, accepted_order}
use pvz_service.App.Accept.Ends.{accept_order-ends}
use pvz_service.App.Issue.{issue_single, issued}
use pvz_service.App.Issue.Ends.{issue_single-ends}
use pvz_service.App.Outcome.{Changed, OperationEnds}
use pvz_service.App.Outcome.Rows.{IsSound, inserted-IsSound, updated-IsSound}
use pvz_service.App.ReturnClient.{return_single, returned}
use pvz_service.App.ReturnClient.Ends.{return_single-ends}
use pvz_service.App.ReturnDelivery.{return_order_to_delivery, sent_back}
use pvz_service.App.ReturnDelivery.Ends.{return_order_to_delivery-ends}
use pvz_service.App.Service.{Service}

module _ {F : Type 0} ⦃p : Platform F⦄ where
  -- What all operations rely on.
  pub record IsReady (w : World F) : Type 0 where
    pub coherent : Coherent w.caches w.db
    pub sound : IsSound w.db

  OperationEnds-IsReady :
      {A : Type 0} (Success : A → Tables F → Type 0) (w : World F) (out : Result A × World F)
      → IsSound w.db
      → ((a : A) (d : Tables F) → Success a d → IsSound d)
      → OperationEnds Success w.db out
      → IsReady out.1
  OperationEnds-IsReady Success w out sound keeps ends = record {
    coherent = ends.coherent;
    sound = elim ends.ended [
      | inl (failure, same) ↦ subst IsSound (sym same) sound
      | inr (a, (fine, success)) ↦ keeps a _ success
    ];
  }

  updated_IsSound :
      (o : Order F) (h : OrderHistory) (type : EventType) (actor : Actor) (info : OrderInfo)
      (db db' : Tables F)
      → IsSound db
      → h.order_id ≡ o.order_id
      → h.status ≡ o.status
      → Changed (change_order o) h type actor info db db'
      → IsSound db'
  updated_IsSound o h type actor info db db' sound same_id same_status c =
      subst IsSound (sym c.rows) (updated-IsSound o h _ db sound same_id same_status)

  -- The operations on one order, with their arguments; the identifiers of `issueSingle` and
  -- `returnSingle` come with the time at which the service read the clock.
  pub data Step (s : Service) : World F → World F → Type 0 where
    accepting : (req : AcceptOrderRequest F) (w : World F) → Step s w (accept_order s req w).1
    issuing :
        (receiver_id order_id now : ℕ) (w : World F)
        → Step s w (issue_single s receiver_id order_id now w).1
    returning :
        (receiver_id order_id now : ℕ) (w : World F)
        → Step s w (return_single s receiver_id order_id now w).1
    sending_back : (order_id : ℕ) (w : World F) → Step s w (return_order_to_delivery s order_id w).1

  pub data Reachable (s : Service) (start : World F) : World F → Type 0 where
    at_start : Reachable s start start
    after : {v w : World F} → Reachable s start v → Step s v w → Reachable s start w

  pub Step-IsReady :
      (s : Service) (v w : World F) → s.db_client ≡ true → Step s v w → IsReady v → IsReady w
  unfolding accepted_order
  Step-IsReady s v w client_there (accepting req w0) r =
      OperationEnds-IsReady _ v _ r.sound
        (λ price d a. subst IsSound (sym a.changed.rows) (
          inserted-IsSound (accepted_order req (time_now v).1.clock price) _ _ v.db r.sound a.new
            refl refl))
        (accept_order-ends s req v client_there r.coherent)
  Step-IsReady s v w client_there (issuing receiver_id order_id now w0) r =
      OperationEnds-IsReady _ v _ r.sound
        (λ u d i.
          updated_IsSound (issued now i.order) _ order_issued _ _ v.db d r.sound
            (sym (find_order-id order_id v.db.orders i.order i.found)) refl i.changed)
        (issue_single-ends s receiver_id order_id now v client_there r.coherent r.sound)
  Step-IsReady s v w client_there (returning receiver_id order_id now w0) r =
      OperationEnds-IsReady _ v _ r.sound
        (λ u d i.
          updated_IsSound (returned now i.order) _ order_returned_by_client _ _ v.db d r.sound
            (sym (find_order-id order_id v.db.orders i.order i.found)) refl i.changed)
        (return_single-ends s receiver_id order_id now v client_there r.coherent r.sound)
  Step-IsReady s v w client_there (sending_back order_id w0) r =
      OperationEnds-IsReady _ v _ r.sound
        (λ u d i.
          updated_IsSound (sent_back i.now i.order) _ order_returned_to_courier _ _ v.db d r.sound
            (sym (find_order-id order_id v.db.orders i.order i.found)) refl i.changed)
        (return_order_to_delivery-ends s order_id v client_there r.coherent r.sound)

  -- From a world in which the caches fit the tables, identifiers are unique and the last history
  -- record of each order has the order's status, every world that acceptances, issues, returns and
  -- send-backs reach with the database client has these three properties too, whichever statements
  -- fail on the way.
  pub Reachable-IsReady :
      (s : Service) (start w : World F)
      → s.db_client ≡ true
      → IsReady start
      → Reachable s start w
      → IsReady w
  Reachable-IsReady s start w client_there r at_start = r
  Reachable-IsReady s start w client_there r (after {v} before step) =
      Step-IsReady s v w client_there step (Reachable-IsReady s start v client_there r before)
