-- ===== src/Cli/Commands.antt =====
-- The commands of internal/adapter/cli, but for process_orders.go and scroll_orders.go.
use pvz_service.Base.{
  ℕ, ◌&&◌, ◌||◌, Option, none, some, List, [], ◌∷◌, ◌++◌, map, ltb, ◌==◌, if◌then◌else◌,
}
use pvz_service.Base.Text.{Text, codes, decimal}
use pvz_service.Domain.Error.{Error, plain, wrap}
use pvz_service.Domain.Order.{Order, OrderToImport, get_status_string}
use pvz_service.Domain.Platform.{Platform}
use pvz_service.Db.World.{Result, err, ok}
use pvz_service.Cli.{
  ◌>>=◌, ◌>>◌, Command, Flags, OrderService, Outside, checked, map_package_type, print_line,
  print_lines, call, as_is,
}

-- `fmt.Printf("LABEL: %d\n", n)`
abbrev pub print_number : {S : Type 0} → Text → ℕ → Command S (Unit {0})
print_number label n = print_line (label ++ decimal n)

abbrev pub or_default : ℕ → ℕ → ℕ
or_default default n = if n == 0 then default else n

-- `lastN > 0 && (page > 0 || limit > 0)`
abbrev refuse_combination : ℕ → ℕ → ℕ → Result (Unit {0})
refuse_combination last_n page limit =
    if ltb 0 last_n && (ltb 0 page || ltb 0 limit)
    then err (plain (codes "invalid flags combination"))
    else ok tt

module _ {F : Type 0} (p : Platform F) where
  -- The fields of an order that `list-orders` and `scroll-orders` print.
  unfoldable pub order_line : Text → Order F → Text
  unfolding map_package_type
  order_line label o =
      label
      ++ (decimal o.order_id
          ++ (codes " Receiver: "
              ++ (decimal o.receiver_id
                  ++ (codes " Status: "
                      ++ (get_status_string o.status
                          ++ (codes " Storage Limit: "
                              ++ (p.format_date o.storage_until
                                  ++ (codes " Package: "
                                      ++ (map_package_type o.package_type
                                          ++ (codes " Weight: "
                                              ++ (p.fixed 2 o.weight
                                                  ++ (codes " Price: "
                                                      ++ p.fixed 2 o.price))))))))))))

  unfoldable pub return_line : Order F → Text
  return_line o =
      codes "RETURN: "
      ++ (decimal o.order_id
          ++ (codes " "
              ++ (decimal o.receiver_id ++ (codes " " ++ p.format_date o.last_update_time))))

  unfoldable pub history_line : Order F → Text
  history_line o =
      codes "HISTORY: "
      ++ (decimal o.order_id
          ++ (codes " "
              ++ (get_status_string o.status ++ (codes " " ++ p.format_date o.last_update_time))))

-- Either the message for none, or a line for each.
abbrev pub lines_or : {F : Type 0} → Text → (Order F → Text) → List (Order F) → List Text
lines_or nothing line [] = nothing ∷ []
lines_or nothing line (o ∷ orders) = map line (o ∷ orders)

module _ {F S : Type 0} (p : Platform F) (outside : Outside F) (service : OrderService F S) where
  abbrev map_string_to_time : Text → Option ℕ → Result ℕ
  map_string_to_time s (some date) = ok date
  map_string_to_time s none = err (plain (outside.date_error s))

  unfoldable pub add_comm : Flags F → Command S (Unit {0})
  unfolding print_line
  add_comm flags = do
    receiver_id ← checked (codes "flag.GetUint64") (flags.get_uint64 (codes "user-id"))
    order_id ← checked (codes "flag.GetUint64") (flags.get_uint64 (codes "order-id"))
    expires ← checked (codes "flag.GetString") (flags.get_string (codes "expires"))
    weight ← checked (codes "flag.GetFloat64") (flags.get_float64 (codes "weight"))
    price ← checked (codes "flag.GetFloat64") (flags.get_float64 (codes "price"))
    package_type ← checked (codes "flag.GetString") (flags.get_string (codes "package"))
    storage_until ← checked (codes "time.Parse") (map_string_to_time expires (p.parse_date expires))
    total_price ← call (
        service.accept_order (record {
          receiver_id = receiver_id;
          order_id = order_id;
          storage_until = storage_until;
          weight = weight;
          price = price;
          package_type = package_type;
        }))
    print_number (codes "ORDER_ACCEPTED: ") order_id
    print_line (codes "PACKAGE: " ++ package_type)
    print_line (codes "TOTAL_PRICE: " ++ p.fixed 2 total_price)

  unfoldable pub back_order : Flags F → Command S (Unit {0})
  unfolding print_line
  back_order flags = do
    order_id ← checked (codes "flag.GetUint64") (flags.get_uint64 (codes "order-id"))
    call (service.return_order_to_delivery order_id)
    print_number (codes "ORDER_RETURNED: ") order_id

  unfoldable pub list_orders_comm : Flags F → Command S (Unit {0})
  unfolding print_line print_lines order_line
  list_orders_comm flags = do
    receiver_id ← checked (codes "flag.GetUint64") (flags.get_uint64 (codes "user-id"))
    in_pvz ← checked (codes "flag.GetBool") (flags.get_bool (codes "in-pvz"))
    last_n ← checked (codes "flag.GetUint64") (flags.get_uint64 (codes "last"))
    page ← checked (codes "flag.GetUint64") (flags.get_uint64 (codes "page"))
    limit ← checked (codes "flag.GetUint64") (flags.get_uint64 (codes "limit"))
    as_is (refuse_combination last_n page limit)
    answer ← call (
        service.get_receiver_orders receiver_id in_pvz last_n (or_default 1 page)
          (or_default 10 limit))
    print_lines (
        lines_or (codes "No orders found for this receiver with the given criteria.")
          (order_line p (codes "Order: ")) answer.0)
    print_number (codes "TOTAL: ") answer.1

  unfoldable pub get_returned_orders : Flags F → Command S (Unit {0})
  unfolding print_line print_lines return_line
  get_returned_orders flags = do
    page_flag ← checked (codes "flag.GetUint64") (flags.get_uint64 (codes "page"))
    limit_flag ← checked (codes "flag.GetUint64") (flags.get_uint64 (codes "limit"))
    let page = or_default 1 page_flag
    let limit = or_default 10 limit_flag
    answer ← call (service.get_returned_orders page limit)
    print_lines (
        lines_or (codes "No returns found on this page or no returns in total.") (return_line p)
          answer.0)
    print_line (codes "PAGE: " ++ (decimal page ++ (codes " LIMIT: " ++ decimal limit)))
    print_number (codes "TOTAL: ") answer.1

  unfoldable pub get_orders_sorted_by_time : Command S (Unit {0})
  unfolding print_lines history_line
  get_orders_sorted_by_time = do
    all_orders ← call service.get_order_history
    print_lines (lines_or (codes "No orders in the system.") (history_line p) all_orders)

  -- The name of the file; an empty name makes an error that wraps nil.
  abbrev file_name : Result Text → Result Text
  file_name (err e) = err (wrap (codes "flag.GetString") e)
  file_name (ok []) = err (plain (codes "flag.GetString: %!w(<nil>)"))
  file_name (ok (c ∷ path)) = ok (c ∷ path)

  -- What follows the call of the service, which returns a count with an error too.
  abbrev report_imported : ℕ × Option Error → Command S (Unit {0})
  report_imported (count, none) s = print_number (codes "IMPORTED: ") count s
  report_imported (count, some e) s = (
    err e,
    (if ltb 0 count
        then record s {
          output =
              s.output
              ++ (codes "IMPORTED: " ++ (decimal count ++ codes " orders successfully.")) ∷ [];
        }
        else s),
  )

  abbrev call_import : List (OrderToImport F) → Command S (ℕ × Option Error)
  call_import orders s =
      let (answer, state) = service.import_orders orders s.service in
      (ok answer, record s { service = state })

  unfoldable pub import_orders_comm : Flags F → Command S (Unit {0})
  unfolding print_line
  import_orders_comm flags = do
    file_path ← as_is (file_name (flags.get_string (codes "file")))
    data_read ← checked (codes "os.ReadFile") (outside.read_file file_path)
    orders_to_import ← checked (codes "json.Unmarshal") (outside.unmarshal data_read)
    answer ← call_import orders_to_import
    report_imported answer
