-- ===== src/Repository/Orders.antt =====
-- internal/repository/postgres/crud.go, getters.go and order_pg_repo.go. Rows are scanned into the
-- records that were written, so `scanOrder` is the identity on them.
pub mod Ends
pub mod Rows
use pvz_service.Base.{
  ℕ, Bool, true, false, ◌||◌, Option, none, some, List, [], ◌∷◌, ◌++◌, ◌==◌, if◌then◌else◌, filterb,
}
use pvz_service.Base.Sort.{sort_desc}
use pvz_service.Base.Text.{Text, codes, decimal, text_eq}
use pvz_service.Domain.Error.{
  Error, plain, wrap, entity_not_found_error, order_already_exists_error,
}
use pvz_service.Domain.Order.{
  Order, returned_from_client, given_to_courier, same_status, OrderHistory, PackageRules,
}
use pvz_service.Db.Tables.{Tables, put_order, change_order, put_history, find_order, has_package}
use pvz_service.Db.World.{Exec, pure, throw, ◌>>=◌, ◌>>◌, wrap_error}
use pvz_service.Db.Client.{Conn, Outcome, violation, affected, exec, query, query_row}

abbrev order_name : Text
order_name = codes "Order"

abbrev pub order_not_found : ℕ → Error
order_not_found id = entity_not_found_error order_name (decimal id)

module _ {F : Type 0} where
  -- `INSERT INTO orders … ON CONFLICT (id) DO NOTHING`. The foreign key of `package_code` is checked
  -- for a row that is inserted; the empty code of an order without a package is a code as any other.
  unfoldable pub insert_order : Order F → Tables F → Outcome F
  insert_order o db = elim (find_order o.order_id db.orders) [
    | some _ ↦ affected 0 []
    | none ↦
        if has_package o.package_type db.package_types
        then affected 1 (put_order o ∷ [])
        else violation (codes "orders_package_code_fkey")
  ]

  -- `UPDATE orders SET … WHERE id = $1`
  unfoldable pub update_order : Order F → Tables F → Outcome F
  update_order o db = elim (find_order o.order_id db.orders) [
    | none ↦ affected 0 []
    | some _ ↦
        if has_package o.package_type db.package_types
        then affected 1 (change_order o ∷ [])
        else violation (codes "orders_package_code_fkey")
  ]

  -- `INSERT INTO order_history …`
  unfoldable pub insert_history : OrderHistory → Tables F → Outcome F
  insert_history h db = elim (find_order h.order_id db.orders) [
    | none ↦ violation (codes "fk_order")
    | some _ ↦ affected 1 (put_history h ∷ [])
  ]

  -- `rows == 0` after an insert, and after an update.
  unfoldable pub check_inserted : ℕ → ℕ → Exec F (Unit {0})
  check_inserted id rows = if rows == 0 then throw (order_already_exists_error id) else pure tt

  unfoldable pub check_updated : ℕ → ℕ → Exec F (Unit {0})
  check_updated id rows = if rows == 0 then throw (order_not_found id) else pure tt

  -- `Save` by the client, `SaveOrderInTx` in a transaction.
  unfoldable pub save_order : Conn → Order F → Exec F (Unit {0})
  save_order c o = do
    rows ← wrap_error (codes "exec insert") (exec c (insert_order o))
    check_inserted o.order_id rows

  -- `Update`, `UpdateOrderInTx`
  unfoldable pub change : Conn → Order F → Exec F (Unit {0})
  change c o = do
    rows ← wrap_error (codes "exec update") (exec c (update_order o))
    check_updated o.order_id rows

  -- `SaveHistory`, `SaveHistoryInTx`
  unfoldable pub save_history : Conn → OrderHistory → Exec F (Unit {0})
  save_history c h = do
    wrap_error (codes "exec insert history") (exec c (insert_history h))
    pure tt

  -- `sql.ErrNoRows` of `GetByID`
  abbrev or_not_found : ℕ → Option (Order F) → Exec F (Order F)
  or_not_found id none = throw (wrap (codes "get by id") (order_not_found id))
  or_not_found id (some o) = pure o

  unfoldable pub get_by_id : ℕ → Exec F (Order F)
  get_by_id id = do
    found ← wrap_error (codes "scan") (query_row (λ db. find_order id db.orders))
    or_not_found id found

  unfoldable pub exists : ℕ → Exec F Bool
  exists id = do
    found ← wrap_error (codes "check existence") (query_row (λ db. find_order id db.orders))
    pure (elim found [ none ↦ false | some _ ↦ true ])

  unfoldable pub select_receiver : ℕ → Tables F → List (Order F)
  select_receiver receiver db = filterb (λ o. o.receiver_id == receiver) db.orders

  -- `status IN ($1, $2)`
  abbrev pub is_returned : Order F → Bool
  is_returned o = same_status o.status returned_from_client || same_status o.status given_to_courier

  unfoldable pub select_returned : Tables F → List (Order F)
  select_returned db = sort_desc (λ o. o.last_update_time) (filterb is_returned db.orders)

  unfoldable pub select_all : Tables F → List (Order F)
  select_all db = sort_desc (λ o. o.last_update_time) db.orders

  unfoldable pub select_history : ℕ → Tables F → List OrderHistory
  select_history id db = sort_desc (λ h. h.changed_at) (filterb (λ h. h.order_id == id) db.history)

  abbrev rules_of : Text → List (Text × PackageRules F) → List (PackageRules F)
  rules_of code [] = []
  rules_of code ((c, r) ∷ l) =
      let rest = rules_of code l in if text_eq c code then r ∷ rest else rest

  unfoldable pub select_rules : Text → Tables F → List (PackageRules F)
  select_rules code db = rules_of code db.package_types

  unfoldable pub get_by_receiver_id : ℕ → Exec F (List (Order F))
  get_by_receiver_id receiver = wrap_error (codes "query") (query (select_receiver receiver))

  unfoldable pub get_returned_orders : Exec F (List (Order F))
  get_returned_orders = wrap_error (codes "query") (query select_returned)

  unfoldable pub get_all_orders : Exec F (List (Order F))
  get_all_orders = wrap_error (codes "query") (query select_all)

  -- `len(rules) == 0`
  abbrev some_rules : Text → List (PackageRules F) → Exec F (List (PackageRules F))
  some_rules code [] = throw (plain (codes "no rules found for package code " ++ code))
  some_rules code (r ∷ rules) = pure (r ∷ rules)

  unfoldable pub get_package_rules : Text → Exec F (List (PackageRules F))
  get_package_rules code = do
    rules ← wrap_error (codes "query") (query (select_rules code))
    some_rules code rules

  unfoldable pub get_history_by_order_id : ℕ → Exec F (List OrderHistory)
  get_history_by_order_id id = wrap_error (codes "query") (query (select_history id))
