-- ===== src/Cli/Scroll.antt =====
-- internal/adapter/cli/scroll_orders.go. The lines that the user types, and the error of the scanner
-- when they end, are given.
use pvz_service.Base.{
  ℕ, Bool, true, false, ◌&&◌, Option, none, some, List, [], ◌∷◌, ◌++◌, ltb, ◌==◌, if◌then◌else◌,
}
use pvz_service.Base.Text.{Text, codes, decimal, text_eq}
use pvz_service.Domain.Error.{Error, wrap}
use pvz_service.Domain.Order.{Order}
use pvz_service.Domain.Platform.{Platform}
use pvz_service.Db.World.{err, ok}
use pvz_service.Cli.{
  Command, Flags, OrderService, call, checked, print_line, print_lines, ◌>>=◌, ◌>>◌,
}
use pvz_service.Cli.Commands.{lines_or, or_default, order_line}
use pvz_service.Cli.Input.{to_lower, trim_space}

abbrev pub is_empty {ℓ} : {A : Type ℓ} → List A → Bool
is_empty [] = true
is_empty (x ∷ l) = false

-- `scanner.Err()` at the end of the input
abbrev pub scan_end : {S : Type 0} → Option Error → Command S (Unit {0})
scan_end none s = (ok tt, s)
scan_end (some e) s = (err (wrap (codes "scanner.Scan") e), s)

-- The cases of a line.
pub data Word : Type 0 where
  empty_word next_word exit_word other_word : Word

unfoldable pub word_of : Text → Word
unfolding to_lower
word_of input =
    if text_eq input []
    then empty_word
    else if text_eq (to_lower input) (codes "next")
    then next_word
    else if text_eq (to_lower input) (codes "exit")
    then exit_word
    else other_word

module _ {F S : Type 0} (p : Platform F) (service : OrderService F S) where
  unfoldable pub print_scroll_orders : List (Order F) → ℕ → Command S (Unit {0})
  unfolding print_line print_lines order_line
  print_scroll_orders orders next_last_id =
      print_lines
        (lines_or (codes "No orders found in this batch.") (order_line p (codes "ORDER: ")) orders)
      >> print_line (
          if ltb 0 next_last_id
          then codes "NEXT: " ++ decimal next_last_id
          else codes "NEXT: 0 (End of orders)")

  -- What follows a line: `stay` goes on with the next line, `ask` calls the service first.
  abbrev pub react : Word → ℕ → Command S (Unit {0}) → Command S (Unit {0}) → Command S (Unit {0})
  react empty_word current_last_id stay ask = stay
  react next_word current_last_id stay ask =
      if current_last_id == 0 then print_line (codes "No more orders to display.") >> stay else ask
  react exit_word current_last_id stay ask = print_line (codes "Exiting scroll-orders.")
  react other_word current_last_id stay ask =
      print_line (codes "Unknown command. Type 'next' to get more orders or 'exit' to quit.")
      >> stay

  module _ (receiver_id limit : ℕ) (scanner_error : Option Error) where
    -- A round of the loop, up to the reading of a line. The scanner has no error before it stops.
    abbrev pub round : ℕ → List (Order F) → Command S (Unit {0}) → Command S (Unit {0})
    round current_last_id orders read =
        if (current_last_id == 0) && is_empty orders
        then print_line (codes "No more orders to display.")
        else print_line (codes "> ") >> read

    -- The loop, with `currentLastID` and the last batch.
    unfoldable pub scroll_loop : List Text → ℕ → List (Order F) → Command S (Unit {0})
    unfolding print_line print_scroll_orders trim_space word_of
    scroll_loop [] current_last_id orders = round current_last_id orders (scan_end scanner_error)
    scroll_loop (line ∷ lines) current_last_id orders = round current_last_id orders (
        react (word_of (trim_space line)) current_last_id (scroll_loop lines current_last_id orders)
          (call (service.get_receiver_orders_scroll receiver_id current_last_id limit) >>= λ answer.
            print_scroll_orders answer.0 answer.1 >> scroll_loop lines answer.1 answer.0))

  unfoldable pub scroll_orders_comm : Option Error → List Text → Flags F → Command S (Unit {0})
  unfolding print_scroll_orders scroll_loop
  scroll_orders_comm scanner_error lines flags = do
    receiver_id ← checked (codes "flag.GetUint64") (flags.get_uint64 (codes "user-id"))
    limit_flag ← checked (codes "flag.GetUint64") (flags.get_uint64 (codes "limit"))
    let limit = or_default 20 limit_flag
    answer ← call (service.get_receiver_orders_scroll receiver_id 0 limit)
    print_scroll_orders answer.0 answer.1
    scroll_loop receiver_id limit scanner_error lines answer.1 answer.0
