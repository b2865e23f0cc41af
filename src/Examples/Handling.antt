-- ===== src/Examples/Handling.antt =====
-- The operations on orders, run on the stored order and on a new one.
use pvz_service.Base.{ℕ, ◌≡◌, refl, ◌⊎◌, [], ◌∷◌}
use pvz_service.Base.Text.{codes}
use pvz_service.Domain.Error.{Error}
use pvz_service.Domain.Order.{AcceptOrderRequest}
use pvz_service.Db.Client.{tx, with_transaction, write}
use pvz_service.Db.Client.Transaction.{begun, with_transaction_atomic}
use pvz_service.Db.Tables.{apply_all, put_order}
use pvz_service.Db.World.{Exec, World, err, ok, time_now}
use pvz_service.App.Accept.{accept_order}
use pvz_service.App.Accept.Ends.{Accepted, accept_order-ends}
use pvz_service.App.Issue.{issue_single}
use pvz_service.App.Issue.Ends.{Issued, issue_single-ends}
use pvz_service.App.Lifecycle.{IsReady, accepting, at_start, issuing, Reachable-IsReady, after}
use pvz_service.App.Lifecycle.Statuses.{Move, Step-Move, status_of}
use pvz_service.App.Outcome.{OperationEnds}
use pvz_service.App.ReturnClient.{return_single}
use pvz_service.App.ReturnClient.Ends.{Returned, return_single-ends}
use pvz_service.Examples.{
  number_platform, cold-Coherent, counter, opening, opening-IsReady, shelf, shelf-IsSound,
  stored_order,
}

abbrev parcel : AcceptOrderRequest ℕ
parcel = record {
  receiver_id = 8;
  order_id = 2;
  storage_until = 90;
  weight = 5;
  price = 100;
  package_type = codes "box";
}

with_transaction_atomic_example :
    let fn : Exec ℕ (Unit {0}) = λ w. (ok tt, write tx (put_order stored_order ∷ []) w) in
    let out = with_transaction fn opening in
    (((e : Error) × (out.0 ≡ err e)) × (out.1.db ≡ opening.db))
    ⊎ ((out.0 ≡ ok tt)
        × ((fn (begun opening)).0 ≡ ok tt)
        × (out.1.pending ≡ [])
        × (out.1.db ≡ apply_all (fn (begun opening)).1.pending opening.db))
unfolding write
with_transaction_atomic_example =
    with_transaction_atomic (λ w. (ok tt, write tx (put_order stored_order ∷ []) w)) opening refl

accept_order-ends_example :
    OperationEnds
      (λ price db'. Accepted parcel (time_now opening).1.clock opening.db price db')
      opening.db
      (accept_order counter parcel opening)
accept_order-ends_example = accept_order-ends counter parcel opening refl (cold-Coherent shelf)

issue_single-ends_example :
    OperationEnds
      (λ _ db'. Issued 7 1 20 opening.db db')
      opening.db
      (issue_single counter 7 1 20 opening)
issue_single-ends_example =
    issue_single-ends counter 7 1 20 opening refl (cold-Coherent shelf) shelf-IsSound

return_single-ends_example :
    OperationEnds
      (λ _ db'. Returned 7 1 20 opening.db db')
      opening.db
      (return_single counter 7 1 20 opening)
return_single-ends_example =
    return_single-ends counter 7 1 20 opening refl (cold-Coherent shelf) shelf-IsSound

abbrev handed_over : World ℕ
handed_over = (issue_single counter 7 1 20 opening).1

Reachable-IsReady_example : IsReady (accept_order counter parcel handed_over).1
Reachable-IsReady_example =
    Reachable-IsReady counter opening (accept_order counter parcel handed_over).1 refl
      opening-IsReady
      (after (after at_start (issuing 7 1 20 opening)) (accepting parcel handed_over))

Step-Move_example : Move (status_of 1 shelf) (status_of 1 handed_over.db)
Step-Move_example =
    Step-Move counter opening handed_over 1 refl opening-IsReady (issuing 7 1 20 opening)
