-- ===== src/App/Lifecycle/Batches.antt =====
-- The calls that treat many orders, each in a goroutine of its own.
use pvz_service.Base.{ℕ, ◌≡◌, inl, inr, true, List, Option-cases}
use pvz_service.Base.Text.{codes}
use pvz_service.Domain.Order.{AcceptOrderRequest, OrderToImport}
use pvz_service.Domain.Platform.{Platform}
use pvz_service.Db.World.{
  Metric, World, count_metric, orders_issued, orders_returned, time_now, Result, continue, err, ok,
  pure,
}
use pvz_service.App.Accept.{accept_order, import_single}
use pvz_service.App.Concurrent.{
  Group, Runs, counted, issue_one, issue_result, launched, return_result, import_result,
}
use pvz_service.App.Concurrent.Counts.{Runs-keeps}
use pvz_service.App.Issue.{issue_single}
use pvz_service.App.Lifecycle.{IsReady, Step-IsReady, issuing, returning, accepting}
use pvz_service.App.ReturnClient.{return_single}
use pvz_service.App.Service.{Service}

module _ {F : Type 0} ⦃p : Platform F⦄ where
  pub ticked-IsReady : (w : World F) → IsReady w → IsReady (time_now w).1
  unfolding time_now
  ticked-IsReady w r = record { coherent = r.coherent; sound = r.sound }

  counted-IsReady :
      {A : Type 0} (metric : Metric) (g : Group F A)
      → IsReady g.world
      → IsReady (counted metric g).1
  unfolding counted count_metric
  counted-IsReady metric g r = record { coherent = r.coherent; sound = r.sound }

  pub issue_one-IsReady :
      (s : Service) (receiver_id id : ℕ) (v : World F)
      → s.db_client ≡ true
      → IsReady v
      → IsReady (issue_one s receiver_id id v).1
  unfolding issue_one time_now
  issue_one-IsReady s receiver_id id v client_there ready =
      let v1 = (time_now v).1 in
      Step-IsReady s v1 (issue_single s receiver_id id v1.clock v1).1 client_there
        (issuing receiver_id id v1.clock v1) (ticked-IsReady v ready)

  -- IssueOrdersToClient with the database client, in any order of its goroutines one behind the
  -- other and with failures of some of them, keeps the caches fitting the tables, the identifiers
  -- unique and the history in step with the orders.
  pub issue_orders-IsReady :
      (s : Service) (receiver_id : ℕ) (order_ids : List ℕ) (w : World F) (g : Group F ℕ)
      → s.db_client ≡ true
      → IsReady w
      → Runs (issue_one s receiver_id) (launched order_ids w) g
      → IsReady (issue_result g).1
  unfolding issue_result
  issue_orders-IsReady s receiver_id order_ids w g client_there r runs =
      counted-IsReady (orders_issued g.processed) g (
        Runs-keeps (issue_one s receiver_id) IsReady
          (λ id v ready. issue_one-IsReady s receiver_id id v client_there ready)
          (launched order_ids w) g runs r)

  -- ReturnOrdersFromClient with the database client, in any order of its goroutines one behind the
  -- other and with failures of some of them, keeps the caches fitting the tables, the identifiers
  -- unique and the history in step with the orders.
  pub return_orders-IsReady :
      (s : Service) (receiver_id now : ℕ) (order_ids : List ℕ) (w : World F) (g : Group F ℕ)
      → s.db_client ≡ true
      → IsReady w
      → Runs (λ id. return_single s receiver_id id now) (launched order_ids w) g
      → IsReady (return_result g).1
  unfolding return_result
  return_orders-IsReady s receiver_id now order_ids w g client_there r runs =
      counted-IsReady (orders_returned (codes "by_client") g.processed) g (
        Runs-keeps (λ id. return_single s receiver_id id now) IsReady
          (λ id v ready.
            Step-IsReady s v (return_single s receiver_id id now v).1 client_there
              (returning receiver_id id now v) ready)
          (launched order_ids w) g runs r)

  discarded-IsReady :
      {A : Type 0} (out : Result A × World F)
      → IsReady out.1
      → IsReady (continue out (λ _. pure tt)).1
  discarded-IsReady (ok a, w) r = r
  discarded-IsReady (err e, w) r = r

  import_single-IsReady :
      (s : Service) (raw : OrderToImport F) (w : World F)
      → s.db_client ≡ true
      → IsReady w
      → IsReady (import_single s raw w).1
  unfolding import_single
  import_single-IsReady s raw w client_there r =
      elim (Option-cases (p.parse_date raw.storage_until)) [
        | inl unread ↦ rw unread r
        | inr (day, read) ↦
            let req : AcceptOrderRequest F = record {
              receiver_id = raw.receiver_id;
              order_id = raw.order_id;
              storage_until = day;
              weight = raw.weight;
              price = raw.price;
              package_type = raw.package_type;
            } in
            let accepted =
              Step-IsReady s w (accept_order s req w).1 client_there (accepting req w) r in
            rw read (discarded-IsReady (accept_order s req w) accepted)
      ]

  -- ImportOrders with the database client, in any order of its goroutines one behind the other and
  -- with failures of some of them, keeps the caches fitting the tables, the identifiers unique and the
  -- history in step with the orders.
  pub import_orders-IsReady :
      (s : Service) (orders : List (OrderToImport F)) (w : World F) (g : Group F (OrderToImport F))
      → s.db_client ≡ true
      → IsReady w
      → Runs (import_single s) (launched orders w) g
      → IsReady (import_result g).1
  unfolding import_result
  import_orders-IsReady s orders w g client_there r runs =
      Runs-keeps (import_single s) IsReady
        (λ raw v ready. import_single-IsReady s raw v client_there ready) (launched orders w) g runs
        r

  -- A call on many orders, with its goroutines in any order one behind the other.
  pub data Batch (s : Service) (w : World F) : World F → Type 0 where
    issuing_all :
        (receiver_id : ℕ) (order_ids : List ℕ) (g : Group F ℕ)
        → Runs (issue_one s receiver_id) (launched order_ids w) g
        → Batch s w (issue_result g).1
    returning_all :
        (receiver_id now : ℕ) (order_ids : List ℕ) (g : Group F ℕ)
        → Runs (λ id. return_single s receiver_id id now) (launched order_ids w) g
        → Batch s w (return_result g).1
    importing_all :
        (orders : List (OrderToImport F)) (g : Group F (OrderToImport F))
        → Runs (import_single s) (launched orders w) g
        → Batch s w (import_result g).1

  -- IssueOrdersToClient, ReturnOrdersFromClient and ImportOrders with the database client, in any
  -- order of their goroutines one behind the other and with failures of some of them, keep the
  -- caches fitting the tables, the identifiers unique and the history in step with the orders.
  pub Batch-IsReady :
      (s : Service) (w w' : World F) → s.db_client ≡ true → IsReady w → Batch s w w' → IsReady w'
  Batch-IsReady s w w' client_there r (issuing_all receiver_id order_ids g runs) =
      issue_orders-IsReady s receiver_id order_ids w g client_there r runs
  Batch-IsReady s w w' client_there r (returning_all receiver_id now order_ids g runs) =
      return_orders-IsReady s receiver_id now order_ids w g client_there r runs
  Batch-IsReady s w w' client_there r (importing_all orders g runs) =
      import_orders-IsReady s orders w g client_there r runs
