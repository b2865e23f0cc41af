-- ===== src/Examples/Succeeding.antt =====
-- Operations that succeed on the stored order.
use pvz_service.Base.{ℕ, ◌≡◌, refl, true, false, none, some, [], ◌∷◌, arith}
use pvz_service.Base.Text.{codes, text_eq, text_eq_instance}
use pvz_service.Domain.Order.{Order, given_to_client, in_storage, AcceptOrderRequest, PackageRules}
use pvz_service.Cache.Lru
use pvz_service.Db.Client.{query_row}
use pvz_service.Db.Tables.{Tables, find_order, has_package}
use pvz_service.Db.World.{World, count_metric, later, ok, round_trip, time_now}
use pvz_service.Repository.Cached
use pvz_service.Repository.Orders
use pvz_service.Repository.Orders.{select_rules}
use pvz_service.App.Accept.{accept_order}
use pvz_service.App.Issue.{issue_single, refuse_issue}
use pvz_service.App.Outcome.Rows.{IsSound, UniqueIds, last_status}
use pvz_service.App.Progress.Accepts.{accept_order-succeeds}
use pvz_service.App.Progress.Succeeds.{
  issue_single-succeeds, return_order_to_delivery-succeeds, return_single-succeeds,
}
use pvz_service.App.ReturnClient.{refuse_return, return_single}
use pvz_service.App.ReturnDelivery.{refuse_early, refuse_status, return_order_to_delivery}
use pvz_service.Examples.{
  number_platform, cold-Coherent, counter, opening, shelf, shelf-IsSound, stored_order,
}

stored_there : find_order 1 shelf.orders ≡ some stored_order
unfolding find_order
stored_there = refl

box_known : has_package (codes "box") shelf.package_types ≡ true
unfolding has_package text_eq
box_known = refl

in_time : refuse_issue 7 1 20 stored_order ≡ none
unfolding refuse_issue
in_time = refl

issue_single-succeeds_example : (issue_single counter 7 1 20 opening).0 ≡ ok tt
issue_single-succeeds_example =
    issue_single-succeeds counter 7 1 20 stored_order opening refl refl (cold-Coherent shelf)
      shelf-IsSound stored_there box_known in_time

abbrev given_order : Order ℕ
given_order = record stored_order { status = given_to_client }

abbrev bare_shelf : Tables ℕ
bare_shelf = record shelf {
  orders = given_order ∷ [];
  history = record { order_id = 1; status = given_to_client; changed_at = 4 } ∷ [];
}

bare_shelf-IsSound : IsSound bare_shelf
unfolding UniqueIds find_order last_status
bare_shelf-IsSound = record { unique = (refl, tt); logged = λ id o found. ground arith }

given_there : find_order 1 bare_shelf.orders ≡ some given_order
unfolding find_order
given_there = refl

taken_back : refuse_return 7 1 20 given_order ≡ none
unfolding refuse_return
taken_back = refl

return_single-succeeds_example :
    (return_single counter 7 1 20 (record opening { db = bare_shelf })).0 ≡ ok tt
return_single-succeeds_example =
    return_single-succeeds counter 7 1 20 given_order (record opening { db = bare_shelf }) refl refl
      (cold-Coherent bare_shelf) bare_shelf-IsSound given_there box_known taken_back

abbrev late : World ℕ
late = record opening { clock = 60 }

unclaimed : refuse_status in_storage ≡ none
unfolding refuse_status
unclaimed = refl

expired :
    let w1 = (Cached.get_by_id 1 late).1 in
    refuse_early 1 (later w1.clock w1.ticks) stored_order ≡ none
unfolding refuse_early Cached.get_by_id Cached.read_through Cached.cache_get Cached.cache_set
    time_now count_metric Orders.get_by_id query_row round_trip find_order Lru.get Lru.map_get
    Lru.new
expired = refl

return_order_to_delivery-succeeds_example : (return_order_to_delivery counter 1 late).0 ≡ ok tt
return_order_to_delivery-succeeds_example =
    return_order_to_delivery-succeeds counter 1 stored_order late refl refl (cold-Coherent shelf)
      shelf-IsSound stored_there box_known unclaimed expired

-- A carton that weighs what the rule of its package allows at most.
abbrev carton : AcceptOrderRequest ℕ
carton = record {
  receiver_id = 8;
  order_id = 2;
  storage_until = 90;
  weight = 30;
  price = 100;
  package_type = codes "box";
}

abbrev box_rules : PackageRules ℕ
box_rules = record { max_weight = 30; price = 20 }

carton_absent : find_order 2 shelf.orders ≡ none
unfolding find_order
carton_absent = refl

box_given : text_eq (codes "box") [] ≡ false
unfolding text_eq
box_given = refl

box_selected : select_rules (codes "box") shelf ≡ box_rules ∷ []
unfolding select_rules text_eq
box_selected = refl

accept_order-succeeds_example : (accept_order counter carton opening).0 ≡ ok 120
accept_order-succeeds_example =
    accept_order-succeeds counter carton box_rules [] opening refl refl (cold-Coherent shelf)
      carton_absent box_given box_known box_selected (λ limited. refl, tt)
