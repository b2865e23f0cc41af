-- ===== src/App/Concurrent.antt =====
-- `processConcurrently` of internal/app/service.go and its callers. The functions run one behind the
-- other in any order: what two of them do at once is not modelled. The semaphore bounds how many run
-- at a time and so does not matter here.
pub mod Counts
pub mod Complete
use pvz_service.Base.{◌≢◌, ℕ, ◌+◌, ◌≡◌, Option, none, some, List, ◌∷◌, ◌++◌}
use pvz_service.Base.Text.{codes}
use pvz_service.Domain.Error.{Error}
use pvz_service.Domain.Platform.{Platform}
use pvz_service.Db.World.{
  Exec, Result, World, err, ok, time_now, ◌>>=◌, ◌>>◌, continue, relabel, Metric, count_metric,
  orders_issued, orders_returned, refresh_order_status,
}
use pvz_service.App.Issue.{issue_single}
use pvz_service.App.ReturnClient.{return_single}
use pvz_service.App.Service.{Service}

-- Where a run stands: the items whose goroutines have not ended, the number processed, and the first
-- error.
pub record Group (F A : Type 0) : Type 0 where
  pub left : List A
  pub processed : ℕ
  pub first_error : Option Error
  pub world : World F

-- `errgroup` keeps the first error.
abbrev pub keep_first : Option Error → Error → Option Error
keep_first (some e) later_error = some e
keep_first none first = some first

pub keep_first_some : (o : Option Error) (e : Error) → keep_first o e ≢ none
keep_first_some none e = λ h. cc
keep_first_some (some first) e = λ h. cc

abbrev pub ended_with :
    {F A : Type 0} → Group F A → List A → Result (Unit {0}) × World F → Group F A
ended_with g left (ok _, w) = record {
  left = left;
  processed = g.processed + 1;
  first_error = g.first_error;
  world = w;
}
ended_with g left (err e, w) = record {
  left = left;
  processed = g.processed;
  first_error = keep_first g.first_error e;
  world = w;
}

-- A goroutine ends: it ran its function, or found the context of the group done and returned its
-- error. The context can be done at any time, as the caller's context may end.
pub data Finishes {F A : Type 0} (fn : A → Exec F (Unit {0})) : Group F A → Group F A → Type 0 where
  ran :
      (before after : List A) (item : A) (g : Group F A)
      → g.left ≡ before ++ item ∷ after
      → Finishes fn g (ended_with g (before ++ after) (fn item g.world))
  cancelled :
      (before after : List A) (item : A) (e : Error) (g : Group F A)
      → g.left ≡ before ++ item ∷ after
      → Finishes fn g
          (record g { left = before ++ after; first_error = keep_first g.first_error e })

pub data Runs {F A : Type 0} (fn : A → Exec F (Unit {0})) (start : Group F A)
    : Group F A → Type 0 where
  started : Runs fn start start
  next : {g h : Group F A} → Runs fn start g → Finishes fn g h → Runs fn start h

-- The group before its first goroutine has ended.
abbrev pub launched : {F A : Type 0} → List A → World F → Group F A
launched items w = record { left = items; processed = 0; first_error = none; world = w }

-- `s.issueSingle(c, receiverID, id, s.nowFn())`
unfoldable pub issue_one : {F : Type 0} ⦃p : Platform F⦄ → Service → ℕ → ℕ → Exec F (Unit {0})
issue_one s receiver_id order_id = do now ← time_now; issue_single s receiver_id order_id now

-- What `IssueOrdersToClient`, `ReturnOrdersFromClient` and `ImportOrders` do when the group is done.
abbrev group_result : Option Error → Result (Unit {0})
group_result none = ok tt
group_result (some e) = err e

-- The counters, which come whether or not there was an error.
unfoldable pub counted : {F A : Type 0} → Metric → Group F A → Result (Unit {0}) × World F
counted metric g = (
  group_result g.first_error,
  (count_metric refresh_order_status (count_metric metric g.world).1).1,
)

unfoldable pub issue_result : {F : Type 0} → Group F ℕ → Result (Unit {0}) × World F
unfolding counted
issue_result g = counted (orders_issued g.processed) g

unfoldable pub return_result : {F : Type 0} → Group F ℕ → Result (Unit {0}) × World F
unfolding counted
return_result g = counted (orders_returned (codes "by_client") g.processed) g

abbrev counted_or_error : Option Error → ℕ → Result ℕ
counted_or_error none processed = ok processed
counted_or_error (some e) processed = err e

-- `processConcurrently` itself, which is all of `ImportOrders`; the number goes out without an error.
unfoldable pub import_result : {F A : Type 0} → Group F A → Result ℕ × World F
import_result g = (counted_or_error g.first_error g.processed, g.world)
