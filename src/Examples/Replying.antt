-- ===== src/Examples/Replying.antt =====
-- What the handlers reply on the shelf.
use pvz_service.Base.{ℕ, ap, ◌*◌, ◌/◌, ◌<◌, ◌≡◌, refl, true, none, some, [], ◌∷◌, hits, total}
use pvz_service.Base.Text.{decimal, text_eq}
use pvz_service.Domain.Platform.{Platform}
use pvz_service.Db.Tables.{find_order, has_package}
use pvz_service.Db.World.{ok, time_now}
use pvz_service.App.Accept.{import_single}
use pvz_service.App.Concurrent.{
  next, Group, ended_with, issue_one, issue_result, launched, ran, started, counted,
}
use pvz_service.App.Issue.{refuse_issue}
use pvz_service.App.Lifecycle.{IsReady}
use pvz_service.App.Lifecycle.AllIssued.{IsGiven}
use pvz_service.App.Lifecycle.Batches.{Batch-IsReady, issuing_all}
use pvz_service.App.Progress.Succeeds.{issue_single-succeeds}
use pvz_service.Grpc.Handlers.{
  AcceptOrderMessage, Floats, ListOrdersMessage, ProcessOrdersMessage, action_issue, process_answer,
}
use pvz_service.Grpc.Handlers.Imports.{day, import_single-ends, imported_request, start_of_day}
use pvz_service.Base.Text.Decimal.{value, value-decimal}
use pvz_service.App.Accept.Ends.{Accepted}
use pvz_service.App.Outcome.{OperationEnds}
use pvz_service.Grpc.Handlers.Batch.{process_orders-IsGiven}
use pvz_service.Grpc.Handlers.Rpc.{to_import}
use pvz_service.Examples.{
  number_platform, cold-Coherent, counter, opening, opening-IsReady, shelf, shelf-IsSound,
  stored_order,
}
use pvz_service.Grpc.{box}

-- float32 and float64 as whole numbers.
abbrev whole_floats : Floats ℕ ℕ
whole_floats = record { widen = λ x. x; narrow = λ x. x }

abbrev list_seven : ListOrdersMessage
list_seven = record {
  user_id = 7;
  in_pvz = true;
  last_n = none;
  pagination = some (record { page = 1; count_on_page = 10 });
}

abbrev parcel_message : AcceptOrderMessage ℕ
parcel_message = record {
  order_id = 2;
  user_id = 7;
  expires_at = some 150;
  package_type = some box;
  weight = 1;
  price = 10;
}

-- A platform that prints a date as the number of its day.
abbrev date_platform : Platform ℕ
date_platform = record number_platform {
  format_date = λ t. decimal (t / day);
  parse_date = λ s. some (value 0 s * day);
}

dates_read :
    (t : ℕ) → date_platform.parse_date (date_platform.format_date t) ≡ some (start_of_day t)
dates_read t = ap (λ (n : ℕ). some (n * day)) (value-decimal (t / day))

import_single-ends_example :
    OperationEnds
      (λ _ db'.
        (price : ℕ) × Accepted ⦃p = date_platform⦄
          (imported_request whole_floats parcel_message)
          (time_now opening).1.clock
          shelf
          price
          db')
      shelf
      (import_single ⦃p = date_platform⦄ counter
        (to_import whole_floats ⦃p = date_platform⦄ parcel_message)
        opening)
import_single-ends_example =
    import_single-ends whole_floats ⦃p = date_platform⦄ counter parcel_message opening refl
      (cold-Coherent shelf) dates_read

abbrev issue_one_of_seven : ProcessOrdersMessage
issue_one_of_seven = record { user_id = 7; action = action_issue; order_ids = 1 ∷ [] }

abbrev issued_group : Group ℕ ℕ
issued_group = ended_with (launched (1 ∷ []) opening) [] (issue_one counter 7 1 opening)

in_time_at_11 : refuse_issue 7 1 11 stored_order ≡ none
unfolding refuse_issue
in_time_at_11 = refl

issued_fine : (issue_one counter 7 1 opening).0 ≡ ok tt
unfolding issue_one time_now find_order has_package text_eq
issued_fine =
    issue_single-succeeds counter 7 1 11 stored_order (time_now opening).1 refl refl
      (cold-Coherent shelf) shelf-IsSound refl refl in_time_at_11

none_left : issued_group.left ≡ []
none_left = rw issued_fine refl

no_status : (process_answer (λ e. e ∷ []) (1 ∷ []) (issue_result issued_group).0).1 ≡ none
unfolding issue_result counted process_answer
no_status = rw issued_fine refl

process_orders-IsGiven_example :
    ((process_answer (λ e. e ∷ []) (1 ∷ []) (issue_result issued_group).0).0.processed ≡ 1 ∷ [])
    × ((id : ℕ)
        → 0
          < total
              (hits id)
              (process_answer (λ e. e ∷ []) (1 ∷ []) (issue_result issued_group).0).0.processed
        → IsGiven id (issue_result issued_group).1)
process_orders-IsGiven_example =
    process_orders-IsGiven (λ e. e ∷ []) (λ e h. cc) counter issue_one_of_seven opening issued_group
      refl opening-IsReady (next started (ran [] [] 1 (launched (1 ∷ []) opening) refl)) none_left
      no_status

Batch-IsReady_example : IsReady (issue_result issued_group).1
Batch-IsReady_example =
    Batch-IsReady counter opening (issue_result issued_group).1 refl opening-IsReady (
      issuing_all 7 (1 ∷ []) issued_group
        (next started (ran [] [] 1 (launched (1 ∷ []) opening) refl)))
