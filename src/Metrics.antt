-- ===== src/Metrics.antt =====
-- internal/metrics/provider.go: the gauge of orders by status, one value for each text that was ever
-- set. A Go map is a list of keys and values; its keys are different, so that the order in which they
-- are visited does not matter for the gauge.
pub mod Gauge
use pvz_service.Base.{ℕ, suc, Option, none, some, List, [], ◌∷◌, if◌then◌else◌}
use pvz_service.Base.Text.{Text, text_eq}
use pvz_service.Domain.Order.{Order, get_status_string}
use pvz_service.Db.World.{Result, err, ok}

-- A value for each key.
abbrev pub Values : Type 0
Values = List (Text × ℕ)

unfoldable pub value_of : Text → Values → Option ℕ
value_of k [] = none
value_of k ((j, n) ∷ m) = if text_eq j k then some n else value_of k m

-- `statusCounts[status]++`
unfoldable pub count_status : Text → Values → Values
count_status k [] = (k, 1) ∷ []
count_status k ((j, n) ∷ m) =
    let rest = count_status k m in if text_eq j k then (j, suc n) ∷ m else (j, n) ∷ rest

-- `OrdersByStatus.WithLabelValues(status).Set(count)`
unfoldable pub set_gauge : Text → ℕ → Values → Values
set_gauge k n [] = (k, n) ∷ []
set_gauge k n ((j, old) ∷ m) =
    let rest = set_gauge k n m in if text_eq j k then (j, n) ∷ m else (j, old) ∷ rest

unfoldable pub update_order_status_metrics : Values → Values → Values
unfolding set_gauge
update_order_status_metrics [] gauge = gauge
update_order_status_metrics ((status, count) ∷ counts) gauge =
    update_order_status_metrics counts (set_gauge status count gauge)

module _ {F : Type 0} where
  -- The loop over the orders.
  unfoldable pub count_statuses : List (Order F) → Values → Values
  unfolding count_status
  count_statuses [] counts = counts
  count_statuses (o ∷ orders) counts =
      count_statuses orders (count_status (get_status_string o.status) counts)

  -- `RefreshOrderStatusMetrics` on what `GetAllOrders` answers.
  unfoldable pub refresh_order_status_metrics : Result (List (Order F)) → Values → Values
  unfolding update_order_status_metrics count_statuses
  refresh_order_status_metrics (err e) gauge = gauge
  refresh_order_status_metrics (ok orders) gauge =
      update_order_status_metrics (count_statuses orders []) gauge
