-- ===== src/Grpc/Handlers/Batch.antt =====
-- What the handlers of many orders reply.
use pvz_service.Base.{ℕ, ◌<◌, ◌≡◌, refl, ◌≢◌, true, none, List, [], arith, hits, total}
use pvz_service.Domain.Error.{Error}
use pvz_service.Domain.Platform.{Platform}
use pvz_service.Db.World.{Result, World, err, ok}
use pvz_service.App.Concurrent.{Group, Runs, issue_one, issue_result, launched}
use pvz_service.App.Lifecycle.{IsReady}
use pvz_service.App.Lifecycle.AllIssued.{IsGiven, issue_orders-IsGiven}
use pvz_service.App.Service.{Service}
use pvz_service.Grpc.Handlers.{ProcessOrdersMessage, process_answer}
use pvz_service.Grpc.{process_errors}

module _ (multierr_errors : Error → List Error)
    (documented : (e : Error) → multierr_errors e ≢ []) where
  no_status-ok :
      (order_ids : List ℕ) (r : Result (Unit {0}))
      → (process_answer multierr_errors order_ids r).1 ≡ none
      → (r ≡ ok tt) × ((process_answer multierr_errors order_ids r).0.processed ≡ order_ids)
  unfolding process_answer process_errors
  no_status-ok order_ids (ok _) h = (refl, refl)
  no_status-ok order_ids (err e) h = absurd (ground (arith, documented e))

  module _ {F : Type 0} ⦃p : Platform F⦄ where
    -- When ProcessOrders with the action to issue replies without a status, from a ready world and
    -- with the database client, its processed orders are those of the request, and every one of
    -- them is in the committed tables as given to the client, in whatever order the goroutines
    -- ended. The errors that multierr finds in an error are not none, as its documentation says.
    pub process_orders-IsGiven :
        (s : Service) (req : ProcessOrdersMessage) (w : World F) (g : Group F ℕ)
        → s.db_client ≡ true
        → IsReady w
        → Runs (issue_one s req.user_id) (launched req.order_ids w) g
        → g.left ≡ []
        → let reply = process_answer multierr_errors req.order_ids (issue_result g).0 in
          reply.1 ≡ none
          → (reply.0.processed ≡ req.order_ids)
            × ((id : ℕ) → 0 < total (hits id) reply.0.processed → IsGiven id (issue_result g).1)
    process_orders-IsGiven s req w g client_there r runs all_ended no_status =
        let (fine, all) = no_status-ok req.order_ids (issue_result g).0 no_status in
        (
          all,
          λ id asked.
              issue_orders-IsGiven s req.user_id req.order_ids w g client_there r runs all_ended
                fine id (ground arith),
        )
