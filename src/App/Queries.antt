-- ===== src/App/Queries.antt =====
-- internal/app/get_orders.go. A slice out of range is a panic of the handler's goroutine, which the
-- gRPC middleware turns into an error of its own: `none` here.
pub mod Answers
use pvz_service.Base.{
  ℕ, ◌-◌, Bool, not, ◌&&◌, Option, none, some, List, [], ◌∷◌, ltb, if◌then◌else◌, length,
}
use pvz_service.Base.Sort.{sort_desc}
use pvz_service.Base.Text.{codes, decimal}
use pvz_service.Domain.Error.{entity_not_found_error, wrap}
use pvz_service.Domain.Order.{Order, OrderHistory, ReceiverOrdersRequest, in_storage, same_status}
use pvz_service.Db.World.{Exec, pure, throw, wrap_error, ◌>>=◌, ◌>>◌, continue, relabel}
use pvz_service.Repository.Cached
use pvz_service.App.Paginate.{paginate, slice}

module _ {F : Type 0} where
  -- The loop that leaves out what is not in the pick-up point.
  unfoldable pub filter_in_pvz : Bool → List (Order F) → List (Order F)
  filter_in_pvz in_pvz [] = []
  filter_in_pvz in_pvz (o ∷ l) =
      let rest = filter_in_pvz in_pvz l in
      if in_pvz && not (same_status o.status in_storage) then rest else o ∷ rest

  -- `filteredOrders[totalItems-req.LastN:]`
  unfoldable pub last_orders : ℕ → List (Order F) → Option (List (Order F))
  unfolding slice
  last_orders last_n orders =
      let total_items = length orders in
      if ltb last_n total_items
      then slice orders (total_items - last_n) total_items
      else some orders

  unfoldable pub choose_page : ReceiverOrdersRequest → List (Order F) → Option (List (Order F))
  unfolding last_orders paginate
  choose_page req filtered =
      if ltb 0 req.last_n
      then last_orders req.last_n filtered
      else paginate filtered req.page req.limit

  abbrev with_total : ℕ → Option (List (Order F)) → Option (List (Order F) × ℕ)
  with_total total none = none
  with_total total (some page) = some (page, total)

  unfoldable pub answer_receiver :
      ReceiverOrdersRequest → List (Order F) → Option (List (Order F) × ℕ)
  unfolding filter_in_pvz choose_page
  answer_receiver req receiver_orders =
      let filtered = filter_in_pvz req.in_pvz receiver_orders in
      with_total (length filtered) (choose_page req filtered)

  unfoldable pub get_receiver_orders : ReceiverOrdersRequest → Exec F (Option (List (Order F) × ℕ))
  get_receiver_orders req = do
    receiver_orders ←
        wrap_error (codes "repo.GetByReceiverID") (Cached.get_by_receiver_id req.receiver_id)
    pure (answer_receiver req receiver_orders)

  unfoldable pub answer_returned : ℕ → ℕ → List (Order F) → Option (List (Order F) × ℕ)
  unfolding paginate
  answer_returned page limit return_orders =
      with_total (length return_orders) (paginate return_orders page limit)

  unfoldable pub get_returned_orders : ℕ → ℕ → Exec F (Option (List (Order F) × ℕ))
  get_returned_orders page limit = do
    return_orders ← wrap_error (codes "repo.GetReturnedOrders") Cached.get_returned_orders
    pure (answer_returned page limit return_orders)

  -- `sort.Slice`, which may order equal times in any way; the model keeps their order.
  unfoldable pub get_order_history : Exec F (List (Order F))
  get_order_history = do
    orders ← wrap_error (codes "repo.GetAllOrders") Cached.get_all_orders
    pure (sort_desc (λ o. o.last_update_time) orders)

  abbrev no_history : ℕ → List OrderHistory → Exec F (Unit {0})
  no_history order_id [] =
      throw (wrap (codes "history") (entity_not_found_error (codes "Order") (decimal order_id)))
  no_history order_id (h ∷ history) = pure tt

  unfoldable pub get_order_history_by_id : ℕ → Exec F (List OrderHistory)
  get_order_history_by_id order_id = do
    history ←
        wrap_error (codes "repo.GetHistoryByOrderID") (Cached.get_history_by_order_id order_id)
    no_history order_id history
    pure (sort_desc (λ h. h.changed_at) history)
