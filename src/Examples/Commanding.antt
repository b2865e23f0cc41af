-- ===== src/Examples/Commanding.antt =====
-- Commands for a service that holds ten orders and counts the calls of it.
use pvz_service.Base.{
  ◌++◌, ℕ, ◌+◌, ◌≡◌, refl, true, false, none, List, [], ◌∷◌, arith, ltb, if◌then◌else◌,
}
use pvz_service.Base.Text.{Text, codes, quoted, text_eq}
use pvz_service.Domain.Error.{plain}
use pvz_service.Domain.Order.{Order}
use pvz_service.Db.World.{Result, err, ok}
use pvz_service.Cli.{Flags, OrderService, Outside, Session, print_line, print_lines}
use pvz_service.Cli.Ids.{id_list, parse_order_ids, parse_order_ids-round_trip}
use pvz_service.Cli.Input.{to_lower, trim_space}
use pvz_service.Cli.Process.{Ended, process_orders, process_orders-Ended}
use pvz_service.Cli.Run.{
  Terminal, all_executed, commands, end_of, exited, has_exit, run, run-all_executed,
}
use pvz_service.Cli.Scroll.{scroll_orders_comm, print_scroll_orders, scroll_loop, word_of}
use pvz_service.Cli.Scrolling.{Scrolled, scroll_orders_comm-Scrolled}
use pvz_service.Examples.{number_platform, stored_order}

parse_order_ids-round_trip_example :
    parse_order_ids quoted (id_list (12 ∷ 7 ∷ [])) ≡ ok (12 ∷ 7 ∷ [])
parse_order_ids-round_trip_example =
    parse_order_ids-round_trip quoted 12 (7 ∷ []) (omega arith) (omega arith, tt)

abbrev parcel_of : ℕ → Order ℕ
parcel_of id = record stored_order { order_id = id }

-- The order behind the last one, and the identifier to go on from.
abbrev batch : ℕ → List (Order ℕ) × ℕ
batch last_id = if ltb last_id 10 then (parcel_of (last_id + 1) ∷ [], last_id + 1) else ([], 0)

abbrev counting_service : OrderService ℕ ℕ
counting_service = record {
  accept_order = λ req calls. (ok req.price, calls + 1);
  return_order_to_delivery = λ id calls. (ok tt, calls + 1);
  issue_orders_to_client = λ receiver ids calls. (ok tt, calls + 1);
  return_orders_from_client = λ receiver ids calls. (ok tt, calls + 1);
  get_receiver_orders = λ receiver in_pvz last_n page limit calls. (ok ([], 0), calls + 1);
  get_receiver_orders_scroll = λ receiver last_id limit calls. (ok (batch last_id), calls + 1);
  get_returned_orders = λ page limit calls. (ok ([], 0), calls + 1);
  get_order_history = λ calls. (ok [], calls + 1);
  import_orders = λ orders calls. ((0, none), calls + 1);
}

abbrev no_files : Outside ℕ
no_files = record {
  quote = quoted;
  date_error = λ s. s;
  read_file = λ path. err (plain (codes "no such file"));
  unmarshal = λ data_read. ok [];
}

-- `--user-id 7 --action issue --order-ids 12,7`; a number that is not given is 0.
abbrev issue_flags : Flags ℕ
issue_flags = record {
  get_uint64 = λ name. ok (if text_eq name (codes "user-id") then 7 else 0);
  get_float64 = λ name. ok 0;
  get_string = λ name. ok (if text_eq name (codes "action") then codes "issue" else codes "12,7");
  get_bool = λ name. ok false;
}

abbrev fresh_session : Session ℕ
fresh_session = record { service = 0; output = [] }

process_orders-Ended_example :
    Ended no_files counting_service issue_flags fresh_session
      (process_orders no_files counting_service issue_flags fresh_session)
process_orders-Ended_example =
    process_orders-Ended no_files counting_service issue_flags fresh_session

abbrev typed : List Text
typed = codes " next " ∷ codes "" ∷ codes "NEXT" ∷ codes "back" ∷ codes "exit" ∷ codes "next" ∷ []

scroll_orders_comm-Scrolled_example :
    Scrolled number_platform counting_service issue_flags 0
      (scroll_orders_comm number_platform counting_service none typed issue_flags
        fresh_session).1.service
scroll_orders_comm-Scrolled_example =
    scroll_orders_comm-Scrolled number_platform counting_service issue_flags none typed
      fresh_session

-- Three questions: the first batch, and one for each `next` in front of `exit`.
asked_three_times :
    (scroll_orders_comm number_platform counting_service none typed issue_flags
      fresh_session).1.service
    ≡ 3
unfolding scroll_orders_comm scroll_loop print_scroll_orders print_line print_lines trim_space
    to_lower word_of text_eq
asked_three_times = refl

abbrev executing : List Text → List (List Text) → Result (Unit {0}) × List (List Text)
executing args done_before = (err (plain (codes "unknown flag: --x")), done_before ++ args ∷ [])

run-all_executed_example :
    let t : Terminal (List (List Text)) = record { state = []; errors = [] } in
    ((run (λ e. e ∷ []) executing true none typed t).1.state
      ≡ all_executed executing (commands typed) [])
    × ((run (λ e. e ∷ []) executing true none typed t).0
        ≡ (if has_exit typed then exited else end_of none))
run-all_executed_example =
    run-all_executed (λ e. e ∷ []) executing true none typed (record { state = []; errors = [] })
