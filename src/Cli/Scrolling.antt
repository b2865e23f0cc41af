-- ===== src/Cli/Scrolling.antt =====
-- The questions that scroll_orders.go asks of the service.
use pvz_service.Base.{
  ℕ, ◌<◌, ◌≡◌, refl, inl, inr, ◌&&◌, Option, none, some, List, [], ◌∷◌, ◌++◌, arith, ◌==◌,
  Bool-cases,
}
use pvz_service.Base.Text.{Text, codes}
use pvz_service.Domain.Error.{Error}
use pvz_service.Domain.Order.{Order}
use pvz_service.Domain.Platform.{Platform}
use pvz_service.Db.World.{Result, err, ok, Result-cases}
use pvz_service.Cli.{
  ◌>>=◌, ◌>>◌, OrderService, Session, proceed, Command, print_line, print_lines, call, Flags,
}
use pvz_service.Cli.Commands.{or_default}
use pvz_service.Cli.Input.{trim_space}
use pvz_service.Cli.Scroll.{
  print_scroll_orders, scroll_loop, Word, empty_word, exit_word, is_empty, next_word, other_word,
  react, round, scan_end, word_of, scroll_orders_comm,
}

module _ {F S : Type 0} (service : OrderService F S) (receiver_id limit : ℕ) where
  -- From one state of the service to another by questions, each with the identifier that the answer
  -- before it named. After an answer that names 0, and after an error, nothing is asked.
  pub data Asked : ℕ → S → S → Type 0 where
    nothing_more : (last_id : ℕ) (s : S) → Asked last_id s s
    refused :
        (last_id : ℕ) (s after : S) (e : Error)
        → 0 < last_id
        → service.get_receiver_orders_scroll receiver_id last_id limit s ≡ (err e, after)
        → Asked last_id s after
    answered :
        (last_id next_id : ℕ) (s after end : S) (orders : List (Order F))
        → 0 < last_id
        → service.get_receiver_orders_scroll receiver_id last_id limit s
          ≡ (ok (orders, next_id), after)
        → Asked next_id after end
        → Asked last_id s end

module _ {F S : Type 0} (p : Platform F) (service : OrderService F S) (receiver_id limit : ℕ) where
  -- A command asks in this way only, from the identifier on.
  abbrev Continues : ℕ → Command S (Unit {0}) → Type 0
  Continues last_id m =
      (s : Session S) → Asked service receiver_id limit last_id s.service (m s).1.service

  scan_end-Continues : (last_id : ℕ) (e : Option Error) → Continues last_id (scan_end e)
  scan_end-Continues last_id none s = nothing_more last_id s.service
  scan_end-Continues last_id (some e) s = nothing_more last_id s.service

  round-Continues :
      (scanner_error : Option Error) (last_id : ℕ) (orders : List (Order F))
      (read : Command S (Unit {0}))
      → Continues last_id read
      → Continues last_id (round p service receiver_id limit scanner_error last_id orders read)
  unfolding print_line
  round-Continues scanner_error last_id orders read h s =
      elim (Bool-cases ((last_id == 0) && is_empty orders)) [
        | inl stop ↦ rw stop (nothing_more last_id s.service)
        | inr go ↦ rw go (h (record s { output = s.output ++ codes "> " ∷ [] }))
      ]

  react-Continues :
      (word : Word) (last_id : ℕ) (stay ask : Command S (Unit {0}))
      → Continues last_id stay
      → (0 < last_id → Continues last_id ask)
      → Continues last_id (react p service word last_id stay ask)
  unfolding print_line
  react-Continues empty_word last_id stay ask h k s = h s
  react-Continues next_word last_id stay ask h k s = elim (Bool-cases (last_id == 0)) [
    | inl last ↦ rw last (h _)
    | inr more ↦ rw more (k (ground arith) s)
  ]
  react-Continues exit_word last_id stay ask h k s = nothing_more last_id s.service
  react-Continues other_word last_id stay ask h k s = h _

  call-Continues :
      (last_id : ℕ) (s : Session S) (rest : List (Order F) × ℕ → Command S (Unit {0}))
      → 0 < last_id
      → ((answer : List (Order F) × ℕ) → Continues answer.1 (rest answer))
      → (r : Result (List (Order F) × ℕ) × S)
      → service.get_receiver_orders_scroll receiver_id last_id limit s.service ≡ r
      → Asked service receiver_id limit last_id s.service
          (proceed (r.0, record s { service = r.1 }) rest).1.service
  call-Continues last_id s rest more h (err e, after) asked =
      refused last_id s.service after e more asked
  call-Continues last_id s rest more h (ok (orders, next_id), after) asked =
      answered last_id next_id s.service after _ orders more asked
        (h (orders, next_id) (record s { service = after }))

  print-Continues :
      (last_id : ℕ) (orders : List (Order F)) (next_id : ℕ) (m : Command S (Unit {0}))
      → Continues last_id m
      → Continues last_id (print_scroll_orders p service orders next_id >> m)
  unfolding print_scroll_orders print_line print_lines
  print-Continues last_id orders next_id m h s =
      h (print_scroll_orders p service orders next_id s).1

  module _ (scanner_error : Option Error) where
    abbrev loop : List Text → ℕ → List (Order F) → Command S (Unit {0})
    loop lines last_id orders =
        scroll_loop p service receiver_id limit scanner_error lines last_id orders

    abbrev onwards : List Text → List (Order F) × ℕ → Command S (Unit {0})
    onwards lines answer =
        print_scroll_orders p service answer.0 answer.1 >> loop lines answer.1 answer.0

    abbrev ask : List Text → ℕ → Command S (Unit {0})
    ask lines last_id =
        call (service.get_receiver_orders_scroll receiver_id last_id limit) >>= onwards lines

    loop-Continues :
        (lines : List Text) (last_id : ℕ) (orders : List (Order F))
        → Continues last_id (loop lines last_id orders)
    unfolding scroll_loop
    loop-Continues [] last_id orders =
        round-Continues scanner_error last_id orders (scan_end scanner_error)
          (scan_end-Continues last_id scanner_error)
    loop-Continues (line ∷ lines) last_id orders =
        let stay = loop lines last_id orders in
        round-Continues scanner_error last_id orders
          (react p service (word_of (trim_space line)) last_id stay (ask lines last_id))
          (react-Continues (word_of (trim_space line)) last_id stay (ask lines last_id)
            (loop-Continues lines last_id orders)
            (λ more t.
              call-Continues last_id t (onwards lines) more
                (λ answer.
                  print-Continues answer.1 answer.0 answer.1 (loop lines answer.1 answer.0)
                    (loop-Continues lines answer.1 answer.0))
                (service.get_receiver_orders_scroll receiver_id last_id limit t.service) refl))

module _ {F S : Type 0} (p : Platform F) (service : OrderService F S) (flags : Flags F) where
  -- What a run of the command may do to the state of the service.
  pub data Scrolled : S → S → Type 0 where
    no_receiver : (s : S) (e : Error) → flags.get_uint64 (codes "user-id") ≡ err e → Scrolled s s
    no_limit : (s : S) (e : Error) → flags.get_uint64 (codes "limit") ≡ err e → Scrolled s s
    first_refused :
        (receiver_id limit : ℕ) (s after : S) (e : Error)
        → flags.get_uint64 (codes "user-id") ≡ ok receiver_id
        → flags.get_uint64 (codes "limit") ≡ ok limit
        → service.get_receiver_orders_scroll receiver_id 0 (or_default 20 limit) s ≡ (err e, after)
        → Scrolled s after
    first_answered :
        (receiver_id limit next_id : ℕ) (s after end : S) (orders : List (Order F))
        → flags.get_uint64 (codes "user-id") ≡ ok receiver_id
        → flags.get_uint64 (codes "limit") ≡ ok limit
        → service.get_receiver_orders_scroll receiver_id 0 (or_default 20 limit) s
          ≡ (ok (orders, next_id), after)
        → Asked service receiver_id (or_default 20 limit) next_id after end
        → Scrolled s end

  first-Scrolled :
      (scanner_error : Option Error) (lines : List Text) (s : Session S) (receiver_id limit : ℕ)
      → flags.get_uint64 (codes "user-id") ≡ ok receiver_id
      → flags.get_uint64 (codes "limit") ≡ ok limit
      → (r : Result (List (Order F) × ℕ) × S)
      → service.get_receiver_orders_scroll receiver_id 0 (or_default 20 limit) s.service ≡ r
      → Scrolled s.service
          (proceed
            (r.0, record s { service = r.1 })
            (onwards p service receiver_id (or_default 20 limit) scanner_error lines)).1.service
  first-Scrolled scanner_error lines s receiver_id limit hr hl (err e, after) asked =
      first_refused receiver_id limit s.service after e hr hl asked
  first-Scrolled scanner_error lines s receiver_id limit hr hl (ok (orders, next_id), after) asked =
      let size = or_default 20 limit in
      first_answered receiver_id limit next_id s.service after _ orders hr hl asked (
        print-Continues p service receiver_id size next_id orders next_id
          (loop p service receiver_id size scanner_error lines next_id orders)
          (loop-Continues p service receiver_id size scanner_error lines next_id orders)
          (record s { service = after }))

  -- Whatever the user types, scroll-orders asks the service first with 0 and then with the
  -- identifier that the answer before named; after an error of the service, and after an answer
  -- that names 0, it asks nothing more, and without its flags nothing at all.
  pub scroll_orders_comm-Scrolled :
      (scanner_error : Option Error) (lines : List Text) (s : Session S)
      → Scrolled s.service (scroll_orders_comm p service scanner_error lines flags s).1.service
  unfolding scroll_orders_comm
  scroll_orders_comm-Scrolled scanner_error lines s =
      elim (Result-cases (flags.get_uint64 (codes "user-id"))) [
        | inr (e, h) ↦ rw h (no_receiver s.service e h)
        | inl (receiver_id, hr) ↦ rw hr (elim (Result-cases (flags.get_uint64 (codes "limit"))) [
          | inr (e, h) ↦ rw h (no_limit s.service e h)
          | inl (limit, hl) ↦ rw hl (
              first-Scrolled scanner_error lines s receiver_id limit hr hl
                (service.get_receiver_orders_scroll receiver_id 0 (or_default 20 limit) s.service)
                refl)
        ])
      ]
