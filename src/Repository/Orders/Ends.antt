-- ===== src/Repository/Orders/Ends.antt =====
-- How each writing statement on orders ends: with its one write, or with an error and no write.
use pvz_service.Base.{ℕ, ◌≡◌, ◌≢◌, ◌⊎◌, inl, inr, true, none, List, [], ◌∷◌, arith}
use pvz_service.Base.Text.{codes}
use pvz_service.Domain.Error.{wrap, order_already_exists_error}
use pvz_service.Domain.Order.{Order, OrderHistory}
use pvz_service.Db.Tables.{
  Tables, Write, put_order, change_order, put_history, find_order, has_package,
}
use pvz_service.Db.World.{World}
use pvz_service.Db.Client.{Conn, affected, visible}
use pvz_service.Db.Client.Cases.{exec_cases, write-nil, Ends}
use pvz_service.Repository.Orders.{
  insert_order, update_order, insert_history, save_order, change, save_history, check_inserted,
  check_updated, order_not_found,
}

module _ {F : Type 0} where
  -- An insert that was made found no order of that identifier, and a package of that code.
  insert_order_made :
      (o : Order F) (db : Tables F) (n : ℕ) (ws : List (Write F))
      → insert_order o db ≡ affected n ws
      → ((n ≡ 0) × (ws ≡ []))
        ⊎ ((n ≡ 1)
            × (ws ≡ put_order o ∷ [])
            × (find_order o.order_id db.orders ≡ none)
            × (has_package o.package_type db.package_types ≡ true))
  unfolding insert_order
  insert_order_made o db n ws h = ground arith

  update_order_made :
      (o : Order F) (db : Tables F) (n : ℕ) (ws : List (Write F))
      → update_order o db ≡ affected n ws
      → ((n ≡ 0) × (ws ≡ []))
        ⊎ ((n ≡ 1)
            × (ws ≡ change_order o ∷ [])
            × (find_order o.order_id db.orders ≢ none)
            × (has_package o.package_type db.package_types ≡ true))
  unfolding update_order
  update_order_made o db n ws h = ground arith

  insert_history_made :
      (r : OrderHistory) (db : Tables F) (n : ℕ) (ws : List (Write F))
      → insert_history r db ≡ affected n ws
      → (n ≡ 1) × (ws ≡ put_history r ∷ []) × (find_order r.order_id db.orders ≢ none)
  unfolding insert_history
  insert_history_made r db n ws h = ground arith

  -- `Save` and `SaveOrderInTx` insert the order, which was not there before, or change nothing.
  pub save_order-Ends :
      (c : Conn) (o : Order F) (w : World F)
      → Ends c
          (put_order o ∷ [])
          ((find_order o.order_id (visible c w).orders ≡ none)
            × (has_package o.package_type (visible c w).package_types ≡ true))
          w
          (save_order c o w)
  unfolding save_order check_inserted
  save_order-Ends c o w = elim (exec_cases c (insert_order o) w) [
    | inr (e, out) ↦ inr (wrap (codes "exec insert") e, rw out)
    | inl (n, ws, made, out) ↦ elim (insert_order_made o (visible c w) n ws made) [
      | inl (zero_rows, nothing) ↦
          inr (order_already_exists_error o.order_id, rw (out, zero_rows, nothing, write-nil))
      | inr (one_row, wrote, absent, known) ↦ inl ((absent, known), rw (out, one_row, wrote))
    ]
  ]

  -- `Update` and `UpdateOrderInTx` change the order of that identifier, which was there, or nothing.
  pub change-Ends :
      (c : Conn) (o : Order F) (w : World F)
      → Ends c
          (change_order o ∷ [])
          ((find_order o.order_id (visible c w).orders ≢ none)
            × (has_package o.package_type (visible c w).package_types ≡ true))
          w
          (change c o w)
  unfolding change check_updated
  change-Ends c o w = elim (exec_cases c (update_order o) w) [
    | inr (e, out) ↦ inr (wrap (codes "exec update") e, rw out)
    | inl (n, ws, made, out) ↦ elim (update_order_made o (visible c w) n ws made) [
      | inl (zero_rows, nothing) ↦
          inr (order_not_found o.order_id, rw (out, zero_rows, nothing, write-nil))
      | inr (one_row, wrote, present, known) ↦ inl ((present, known), rw (out, one_row, wrote))
    ]
  ]

  -- `SaveHistory` and `SaveHistoryInTx` add the record of an order that is there, or nothing.
  pub save_history-Ends :
      (c : Conn) (r : OrderHistory) (w : World F)
      → Ends c
          (put_history r ∷ [])
          (find_order r.order_id (visible c w).orders ≢ none)
          w
          (save_history c r w)
  unfolding save_history
  save_history-Ends c r w = elim (exec_cases c (insert_history r) w) [
    | inr (e, out) ↦ inr (wrap (codes "exec insert history") e, rw out)
    | inl (n, ws, made, out) ↦
        let (_, wrote, present) = insert_history_made r (visible c w) n ws made in
        inl (present, rw (out, wrote))
  ]
