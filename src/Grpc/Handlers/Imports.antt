-- ===== src/Grpc/Handlers/Imports.antt =====
-- How the import of one order of a gRPC request ends, with the database client. `ImportOrders` of
-- internal/adapter/grpc/handler.go hands its storage limit on as a date.
use pvz_service.Base.{ℕ, ◌*◌, ◌/◌, ◌≡◌, refl, inl, inr, true, some}
use pvz_service.Domain.Order.{AcceptOrderRequest}
use pvz_service.Domain.Platform.{Platform, hour}
use pvz_service.Db.Tables.{Tables}
use pvz_service.Db.World.{World, Result, ok, err, pure, continue, time_now}
use pvz_service.Repository.Cached.Coherent.{Coherent}
use pvz_service.App.Accept.{accept_order, import_single}
use pvz_service.App.Accept.Ends.{Accepted, accept_order-ends}
use pvz_service.App.Outcome.{OperationEnds}
use pvz_service.App.Service.{Service}
use pvz_service.Grpc.Handlers.{AcceptOrderMessage, Floats, as_time, package_text}
use pvz_service.Grpc.Handlers.Rpc.{to_import}

abbrev pub day : ℕ
day = 24 * hour

-- The first instant of the day of an instant, in UTC.
abbrev pub start_of_day : ℕ → ℕ
start_of_day t = t / day * day

module _ {F : Type 0} where
  -- An operation whose value is dropped.
  dropped-ends :
      {A : Type 0} (Success : A → Tables F → Type 0) (db : Tables F) (out : Result A × World F)
      → OperationEnds Success db out
      → OperationEnds (λ _ db'. (a : A) × Success a db') db (continue out (λ _. pure tt))
  dropped-ends Success db (ok a, w) ends = record {
    coherent = ends.coherent;
    ended = elim ends.ended [
      | inl ((e, failed), same) ↦ absurd (cc)
      | inr (b, (fine, success)) ↦ inr (tt, (refl, (b, success)))
    ];
  }
  dropped-ends Success db (err e, w) ends = record {
    coherent = ends.coherent;
    ended = elim ends.ended [
      | inl (failed, same) ↦ inl ((e, refl), same)
      | inr (b, (fine, success)) ↦ absurd (cc)
    ];
  }

module _ {S F : Type 0} (floats : Floats S F) where
  -- What the import of a message asks the service for.
  abbrev pub imported_request : AcceptOrderMessage S → AcceptOrderRequest F
  imported_request m = record {
    receiver_id = m.user_id;
    order_id = m.order_id;
    storage_until = start_of_day (as_time m.expires_at);
    weight = floats.widen m.weight;
    price = floats.widen m.price;
    package_type = package_text m.package_type;
  }

module _ {S F : Type 0} (floats : Floats S F) ⦃p : Platform F⦄ where
  -- With the database client and coherent caches, and with dates that are printed and parsed as
  -- the first instant of their day in UTC, the import of an order of a gRPC request either reports
  -- an error and changes no table, or what AcceptOrder records was recorded for the fields of the
  -- message, with the storage limit cut to the first instant of its day; the caches fit the tables
  -- in both cases.
  pub import_single-ends :
      (s : Service) (m : AcceptOrderMessage S) (w : World F)
      → s.db_client ≡ true
      → Coherent w.caches w.db
      → ((t : ℕ) → p.parse_date (p.format_date t) ≡ some (start_of_day t))
      → OperationEnds
          (λ _ db'.
            (price : F) × Accepted (imported_request floats m) (time_now w).1.clock w.db price db')
          w.db
          (import_single s (to_import floats m) w)
  unfolding import_single to_import
  import_single-ends s m w client_there c dates = rw (dates (as_time m.expires_at)) (
      dropped-ends
        (λ price db'. Accepted (imported_request floats m) (time_now w).1.clock w.db price db') w.db
        (accept_order s (imported_request floats m) w)
        (accept_order-ends s (imported_request floats m) w client_there c))
