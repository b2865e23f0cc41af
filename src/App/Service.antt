-- ===== src/App/Service.antt =====
-- `PVZService` of internal/app/service.go, over the cached order repository that cmd/pvz/main.go
-- passes to it. `db_client` tells whether the database client is there: without it the service
-- writes through the repository, one statement at a time, and no events.
use pvz_service.Base.{ℕ, zero, suc, Bool, Option, none, some, ℤ, pos, negsuc}
use pvz_service.Base.Text.{codes}
use pvz_service.Domain.Order.{Order, OrderHistory}
use pvz_service.Domain.Event.{Event, EventType, Actor, OrderInfo, new_event}
use pvz_service.Domain.Error.{Error}
use pvz_service.Db.World.{
  World, Exec, Result, ok, err, pure, throw, ◌>>=◌, ◌>>◌, wrap_error, time_now, new_uuid,
}
use pvz_service.Repository.Cached
use pvz_service.Repository.Outbox

pub record Service : Type 0 where
  pub db_client : Bool
  pub worker_limit : ℕ

-- The `if limit <= 0` of `NewPVZService`.
abbrev limit_or_one : ℤ → ℕ
limit_or_one (pos zero) = 1
limit_or_one (pos (suc n)) = suc n
limit_or_one (negsuc n) = 1

unfoldable pub new_service : Bool → ℤ → Service
new_service db_client limit = record { db_client = db_client; worker_limit = limit_or_one limit }

module _ {F : Type 0} where
  -- `_, err := …; err == nil`: the value if there was no error of any kind.
  abbrev pub attempted : {A : Type 0} → Result A × World F → Result (Option A) × World F
  attempted (ok a, w) = (ok (some a), w)
  attempted (err e, w) = (ok none, w)

  abbrev pub attempt : {A : Type 0} → Exec F A → Exec F (Option A)
  attempt m w = attempted (m w)

  -- The early return with the error of a guard that refused.
  abbrev pub stop_on : Option Error → Exec F (Unit {0})
  stop_on (some e) = throw e
  stop_on none = pure tt

  -- `domain.NewEvent`, which takes a fresh identifier and reads the clock.
  unfoldable pub make_event : EventType → Actor → OrderInfo → Exec F Event
  unfolding new_event
  make_event type actor order = do
    id ← new_uuid
    now ← time_now
    pure (new_event id now type actor order)

  -- The function that `AcceptOrder` hands to `WithTransaction`.
  unfoldable pub insert_in_tx : Order F → OrderHistory → Event → Exec F (Unit {0})
  insert_in_tx order history event = do
    wrap_error (codes "save order") (Cached.save_order_in_tx order)
    wrap_error (codes "save history") (Cached.save_history_in_tx history)
    wrap_error (codes "save event") (Outbox.save event)

  -- The one of `issueSingle`, `returnSingle` and `ReturnOrderToDelivery`.
  unfoldable pub update_in_tx : Order F → OrderHistory → Event → Exec F (Unit {0})
  update_in_tx order history event = do
    wrap_error (codes "update order") (Cached.update_order_in_tx order)
    wrap_error (codes "save history") (Cached.save_history_in_tx history)
    wrap_error (codes "save event") (Outbox.save event)
