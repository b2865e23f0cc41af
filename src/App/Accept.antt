-- ===== src/App/Accept.antt =====
-- internal/app/accept_order.go and internal/app/import_orders.go
pub mod Ends
use pvz_service.Base.{ℕ, Bool, ◌&&◌, Option, none, some, List, [], ◌∷◌, ◌++◌, if◌then◌else◌}
use pvz_service.Base.Text.{Text, codes, text_eq}
use pvz_service.Domain.Platform.{Platform}
use pvz_service.Domain.Order.{
  Order, OrderHistory, in_storage, AcceptOrderRequest, OrderToImport, PackageRules,
}
use pvz_service.Domain.Error.{
  Error, plain, wrap, order_already_exists_error, weight_too_heavy_error,
}
use pvz_service.Domain.Event.{Event, order_accepted, courier}
use pvz_service.Db.World.{
  World, Metric, refresh_order_status, Exec, Result, ok, err, pure, throw, continue, ◌>>=◌, ◌>>◌,
  relabel, wrap_error, time_now, count_metric,
}
use pvz_service.Db.Client.{with_transaction}
use pvz_service.Repository.Cached
use pvz_service.App.Service.{Service, attempted, attempt, make_event, insert_in_tx}

module _ {F : Type 0} ⦃p : Platform F⦄ where
  -- `r.MaxWeight > 0 && req.Weight > r.MaxWeight`
  abbrev pub too_heavy : F → PackageRules F → Bool
  too_heavy weight r = p.gt_float r.max_weight p.zero_float && p.gt_float weight r.max_weight

  -- The loop over the package rules, from the price so far.
  unfoldable pub add_rules : Text → F → F → List (PackageRules F) → Result F
  add_rules package_type weight price [] = ok price
  add_rules package_type weight price (r ∷ rules) =
      let rest = add_rules package_type weight (p.add_float price r.price) rules in
      if too_heavy weight r
      then err (wrap (codes "validation") (weight_too_heavy_error package_type weight r.max_weight))
      else rest

  -- The rules of a package type; none for the empty type.
  unfoldable pub load_rules : Text → Exec F (List (PackageRules F))
  load_rules package_type =
      if text_eq package_type []
      then pure []
      else wrap_error (codes "validation") (Cached.get_package_rules package_type)

  abbrev refuse_existing : ℕ → Option (Order F) → Exec F (Unit {0})
  refuse_existing id (some o) = throw (wrap (codes "repo.GetByID") (order_already_exists_error id))
  refuse_existing id none = pure tt

  unfoldable pub accepted_order : AcceptOrderRequest F → ℕ → F → Order F
  accepted_order req now price = record {
    order_id = req.order_id;
    receiver_id = req.receiver_id;
    storage_until = req.storage_until;
    status = in_storage;
    accept_time = now;
    last_update_time = now;
    package_type = req.package_type;
    weight = req.weight;
    price = price;
  }

  unfoldable pub store_accepted : Service → Order F → OrderHistory → Event → Exec F (Unit {0})
  store_accepted s order history event =
      if s.db_client then with_transaction (insert_in_tx order history event) else do
        wrap_error (codes "repo.Save") (Cached.save order)
        wrap_error (codes "repo.SaveHistory") (Cached.save_history history)

  unfoldable pub accept_order : Service → AcceptOrderRequest F → Exec F F
  accept_order s req = do
    now ← time_now
    existing ← attempt (Cached.get_by_id req.order_id)
    refuse_existing req.order_id existing
    rules ← load_rules req.package_type
    total_price ← λ w. (add_rules req.package_type req.weight req.price rules, w)
    let history : OrderHistory = record {
      order_id = req.order_id;
      status = in_storage;
      changed_at = now;
    }
    event ←
        make_event order_accepted (record { type = courier; id = 1 })
          (record { id = req.order_id; user_id = req.receiver_id; status = codes "accepted" })
    store_accepted s (accepted_order req now total_price) history event
    count_metric Metric.order_accepted
    count_metric refresh_order_status
    pure total_price

  -- `cli.MapStringToTime`
  abbrev parse_storage_until : Text → Option ℕ → Exec F ℕ
  parse_storage_until s none =
      throw (wrap (codes "time.Parse") (plain (codes "cannot parse " ++ s)))
  parse_storage_until s (some t) = pure t

  unfoldable pub import_single : Service → OrderToImport F → Exec F (Unit {0})
  unfolding accept_order
  import_single s raw = do
    storage_until ← parse_storage_until raw.storage_until (p.parse_date raw.storage_until)
    accept_order s (record {
      receiver_id = raw.receiver_id;
      order_id = raw.order_id;
      storage_until = storage_until;
      weight = raw.weight;
      price = raw.price;
      package_type = raw.package_type;
    })
    pure tt
