-- ===== src/Cli/Process.antt =====
-- internal/adapter/cli/process_orders.go: the identifiers that a user lists, issued or returned.
use mathlib.Core.Path.{subst}
use pvz_service.Base.{
  ap, ◌∙◌, ◌≢◌, ℕ, ◌≡◌, refl, sym, inl, inr, not, ◌&&◌, List, ◌++◌, map, if◌then◌else◌, Bool-cases,
}
use pvz_service.Base.Text.{Text, codes, decimal, text_eq, text_eq_iff}
use pvz_service.Domain.Error.{plain, Error, wrap}
use pvz_service.Db.World.{Result, err, ok, Result-cases}
use pvz_service.Cli.{
  Command, Flags, OrderService, Outside, Session, as_is, call, checked, print_lines, ◌>>=◌, ◌>>◌,
  proceed,
}
use pvz_service.Cli.Ids.{parse_order_ids}

module _ {F S : Type 0} (outside : Outside F) (service : OrderService F S) where
  abbrev refuse_action : Text → Result (Unit {0})
  refuse_action action =
      if not (text_eq action (codes "issue")) && not (text_eq action (codes "return"))
      then err (plain (codes "invalid action '" ++ (action ++ codes "'")))
      else ok tt

  unfoldable pub serve : Text → ℕ → List ℕ → S → Result (Unit {0}) × S
  serve action receiver_id order_ids =
      if text_eq action (codes "issue")
      then service.issue_orders_to_client receiver_id order_ids
      else service.return_orders_from_client receiver_id order_ids

  abbrev pub processed : List ℕ → List Text
  processed order_ids = map (λ id. codes "PROCESSED: " ++ decimal id) order_ids

  unfoldable pub process_orders : Flags F → Command S (Unit {0})
  unfolding print_lines parse_order_ids serve
  process_orders flags = do
    receiver_id ← checked (codes "flag.GetUint64") (flags.get_uint64 (codes "user-id"))
    action ← checked (codes "flag.GetString") (flags.get_string (codes "action"))
    order_ids_str ← checked (codes "flag.GetString") (flags.get_string (codes "order-ids"))
    as_is (refuse_action action)
    order_ids ← as_is (parse_order_ids outside.quote order_ids_str)
    call (serve action receiver_id order_ids)
    print_lines (processed order_ids)

module _ {F S : Type 0} (outside : Outside F) (service : OrderService F S) (flags : Flags F) where
  -- Once the service has answered: a line for each identifier, or the service's error.
  abbrev pub Reported : List ℕ → Result (Unit {0}) × S → Session S → Result (Unit {0}) × Session S
  Reported order_ids (ok _, state) s = (
    ok tt,
    record {
      service = state;
      output = s.output ++ map (λ id. codes "PROCESSED: " ++ decimal id) order_ids;
    },
  )
  Reported order_ids (err e, state) s = (err e, record s { service = state })

  -- What a run returns and leaves, from a session, in each case.
  pub data Ended : Session S → Result (Unit {0}) × Session S → Type 0 where
    no_receiver :
        (e : Error) (s : Session S)
        → flags.get_uint64 (codes "user-id") ≡ err e
        → Ended s (err (wrap (codes "flag.GetUint64") e), s)
    no_action :
        (e : Error) (s : Session S)
        → flags.get_string (codes "action") ≡ err e
        → Ended s (err (wrap (codes "flag.GetString") e), s)
    no_ids :
        (e : Error) (s : Session S)
        → flags.get_string (codes "order-ids") ≡ err e
        → Ended s (err (wrap (codes "flag.GetString") e), s)
    invalid_action :
        (action : Text) (s : Session S)
        → flags.get_string (codes "action") ≡ ok action
        → action ≢ codes "issue"
        → action ≢ codes "return"
        → Ended s (err (plain (codes "invalid action '" ++ (action ++ codes "'"))), s)
    unreadable :
        (text : Text) (e : Error) (s : Session S)
        → flags.get_string (codes "order-ids") ≡ ok text
        → parse_order_ids outside.quote text ≡ err e
        → Ended s (err e, s)
    issued_all :
        (receiver_id : ℕ) (text : Text) (order_ids : List ℕ) (s : Session S)
        → flags.get_uint64 (codes "user-id") ≡ ok receiver_id
        → flags.get_string (codes "action") ≡ ok (codes "issue")
        → flags.get_string (codes "order-ids") ≡ ok text
        → parse_order_ids outside.quote text ≡ ok order_ids
        → Ended s
            (Reported order_ids (service.issue_orders_to_client receiver_id order_ids s.service) s)
    returned_all :
        (receiver_id : ℕ) (text : Text) (order_ids : List ℕ) (s : Session S)
        → flags.get_uint64 (codes "user-id") ≡ ok receiver_id
        → flags.get_string (codes "action") ≡ ok (codes "return")
        → flags.get_string (codes "order-ids") ≡ ok text
        → parse_order_ids outside.quote text ≡ ok order_ids
        → Ended s (
            Reported order_ids
              (service.return_orders_from_client receiver_id order_ids s.service)
              s)

  reported :
      (order_ids : List ℕ) (s : Session S) (r : Result (Unit {0}) × S)
      → proceed
          (r.0, record s { service = r.1 })
          (λ _. print_lines (processed outside service order_ids))
        ≡ Reported order_ids r s
  unfolding print_lines
  reported order_ids s (ok _, state) = refl
  reported order_ids s (err e, state) = refl

  -- From the action on.
  abbrev act : Text → ℕ → Text → Command S (Unit {0})
  act action receiver_id text = do
    as_is (refuse_action outside service action)
    order_ids ← as_is (parse_order_ids outside.quote text)
    call (serve outside service action receiver_id order_ids)
    print_lines (processed outside service order_ids)

  issue-Ended :
      (receiver_id : ℕ) (text : Text) (s : Session S)
      → flags.get_uint64 (codes "user-id") ≡ ok receiver_id
      → flags.get_string (codes "action") ≡ ok (codes "issue")
      → flags.get_string (codes "order-ids") ≡ ok text
      → Ended s (act (codes "issue") receiver_id text s)
  unfolding serve text_eq
  issue-Ended receiver_id text s hr ha ht =
      elim (Result-cases (parse_order_ids outside.quote text)) [
        | inr (e, h) ↦ rw h (unreadable text e s ht h)
        | inl (order_ids, hp) ↦ rw hp (
            subst (Ended s)
              (sym (
                reported order_ids s
                  (service.issue_orders_to_client receiver_id order_ids s.service)))
              (issued_all receiver_id text order_ids s hr ha ht hp))
      ]

  return-Ended :
      (receiver_id : ℕ) (text : Text) (s : Session S)
      → flags.get_uint64 (codes "user-id") ≡ ok receiver_id
      → flags.get_string (codes "action") ≡ ok (codes "return")
      → flags.get_string (codes "order-ids") ≡ ok text
      → Ended s (act (codes "return") receiver_id text s)
  unfolding serve text_eq
  return-Ended receiver_id text s hr ha ht =
      elim (Result-cases (parse_order_ids outside.quote text)) [
        | inr (e, h) ↦ rw h (unreadable text e s ht h)
        | inl (order_ids, hp) ↦ rw hp (
            subst (Ended s)
              (sym (
                reported order_ids s
                  (service.return_orders_from_client receiver_id order_ids s.service)))
              (returned_all receiver_id text order_ids s hr ha ht hp))
      ]

  act-Ended :
      (action : Text) (receiver_id : ℕ) (text : Text) (s : Session S)
      → flags.get_uint64 (codes "user-id") ≡ ok receiver_id
      → flags.get_string (codes "action") ≡ ok action
      → flags.get_string (codes "order-ids") ≡ ok text
      → Ended s (act action receiver_id text s)
  act-Ended action receiver_id text s hr ha ht =
      elim (Bool-cases (text_eq action (codes "issue"))) [
        | inl issue ↦
            let same = (text_eq_iff action (codes "issue")).0 issue in
            subst (λ a. Ended s (act a receiver_id text s)) (sym same)
              (issue-Ended receiver_id text s hr (ha ∙ ap ok same) ht)
        | inr other ↦ elim (Bool-cases (text_eq action (codes "return"))) [
          | inl back ↦
              let same = (text_eq_iff action (codes "return")).0 back in
              subst (λ a. Ended s (act a receiver_id text s)) (sym same)
                (return-Ended receiver_id text s hr (ha ∙ ap ok same) ht)
          | inr neither ↦
              rw (other, neither)
                (invalid_action action s ha
                  (λ same. cc ((text_eq_iff action (codes "issue")).1 same, other))
                  (λ same. cc ((text_eq_iff action (codes "return")).1 same, neither)))
        ]
      ]

  -- process-orders returns the error of a flag that cannot be read, of an action that is neither
  -- issue nor return, or of identifiers that cannot be read, calls no method of the service and
  -- prints nothing; or the action is issue and it calls IssueOrdersToClient, or it is return and
  -- it calls ReturnOrdersFromClient, once and with exactly the receiver and the identifiers of the
  -- flags; then it prints one line for each identifier, in order, if the service reports success,
  -- and nothing if it reports an error, which it returns.
  pub process_orders-Ended : (s : Session S) → Ended s (process_orders outside service flags s)
  unfolding process_orders
  process_orders-Ended s = elim (Result-cases (flags.get_uint64 (codes "user-id"))) [
    | inr (e, h) ↦ rw h (no_receiver e s h)
    | inl (receiver_id, hr) ↦ rw hr (elim (Result-cases (flags.get_string (codes "action"))) [
      | inr (e, h) ↦ rw h (no_action e s h)
      | inl (action, ha) ↦ rw ha (elim (Result-cases (flags.get_string (codes "order-ids"))) [
        | inr (e, h) ↦ rw h (no_ids e s h)
        | inl (text, ht) ↦ rw ht (act-Ended action receiver_id text s hr ha ht)
      ])
    ])
  ]
