-- ===== src/App/Lifecycle/Statuses.antt =====
-- The statuses that an order goes through.
use mathlib.Core.Path.{subst}
use pvz_service.Base.{
  ℕ, ◌≡◌, refl, sym, ◌≢◌, inl, inr, true, false, Option, none, some, [], ◌∷◌, ◌++◌, arith, ◌==◌,
  Bool-cases,
}
use pvz_service.Domain.Event.{OutboxMessage}
use pvz_service.Domain.Order.{
  Order, OrderHistory, OrderStatus, given_to_client, given_to_courier, in_storage,
  returned_from_client, returned_without_client, same_status,
}
use pvz_service.Domain.Platform.{Platform}
use pvz_service.Db.Tables.{
  Tables, apply, apply_all, change_order, find_order, put_history, put_order, put_outbox,
  replace_order,
}
use pvz_service.Db.World.{Result, World, time_now}
use pvz_service.Repository.Orders.Rows.{find_order-append, find_order-replace, find_order-id}
use pvz_service.App.Accept.{accepted_order}
use pvz_service.App.Accept.Ends.{accept_order-ends}
use pvz_service.App.Issue.{refuse_issue, issued}
use pvz_service.App.Issue.Ends.{issue_single-ends}
use pvz_service.App.Lifecycle.{
  after, IsReady, Reachable, Step, accepting, at_start, issuing, Reachable-IsReady, returning,
  sending_back,
}
use pvz_service.App.Outcome.{OperationEnds}
use pvz_service.App.ReturnClient.{refuse_return, returned}
use pvz_service.App.ReturnClient.Ends.{return_single-ends}
use pvz_service.App.ReturnDelivery.{courier_status, refuse_status, sent_back}
use pvz_service.App.ReturnDelivery.Ends.{return_order_to_delivery-ends}
use pvz_service.App.Service.{Service}

-- What one operation may do to the status of an order; `none` stands for no order. The courier's
-- statuses pass the guards on the status of `issueSingle` and `returnSingle`.
pub data Move : Option OrderStatus → Option OrderStatus → Type 0 where
  stays : {s : Option OrderStatus} → Move s s
  accepts : Move none (some in_storage)
  issues :
      {s : OrderStatus}
      → s ≢ given_to_client
      → s ≢ returned_from_client
      → Move (some s) (some given_to_client)
  returns :
      {s : OrderStatus}
      → s ≢ in_storage
      → s ≢ returned_from_client
      → Move (some s) (some returned_from_client)
  sends_unclaimed : Move (some in_storage) (some returned_without_client)
  sends_returned : Move (some returned_from_client) (some given_to_courier)

same_status_refl : (s : OrderStatus) → same_status s s ≡ true
same_status_refl in_storage = refl
same_status_refl given_to_client = refl
same_status_refl returned_from_client = refl
same_status_refl returned_without_client = refl
same_status_refl given_to_courier = refl

differs : (s t : OrderStatus) → same_status s t ≡ false → s ≢ t
differs s t h e =
    let same : same_status s t ≡ true =
      subst (λ u. same_status s u ≡ true) e (same_status_refl s) in
    absurd (ground arith)

send-Move : (s : OrderStatus) → refuse_status s ≡ none → Move (some s) (some (courier_status s))
unfolding refuse_status courier_status
send-Move in_storage h = sends_unclaimed
send-Move returned_from_client h = sends_returned
send-Move given_to_client h = absurd (cc)
send-Move returned_without_client h = absurd (cc)
send-Move given_to_courier h = absurd (cc)

left_once :
    (a b : Option OrderStatus) (s : OrderStatus)
    → Move a b
    → a ≡ some s
    → s ≢ in_storage
    → (t : OrderStatus) × ((b ≡ some t) × (t ≢ in_storage))
left_once a b s stays e left = (s, (e, left))
left_once a b s accepts e left = absurd (cc)
left_once a b s (issues h k) e left = (given_to_client, (refl, λ q. cc))
left_once a b s (returns h k) e left = (returned_from_client, (refl, λ q. cc))
left_once a b s sends_unclaimed e left = (returned_without_client, (refl, λ q. cc))
left_once a b s sends_returned e left = (given_to_courier, (refl, λ q. cc))

module _ {F : Type 0} ⦃p : Platform F⦄ where
  abbrev status_in : Option (Order F) → Option OrderStatus
  status_in none = none
  status_in (some o) = some o.status

  unfoldable pub status_of : ℕ → Tables F → Option OrderStatus
  status_of id db = status_in (find_order id db.orders)

  Move-between :
      (a b a' b' : Option (Order F))
      → a ≡ a'
      → b ≡ b'
      → Move (status_in a') (status_in b')
      → Move (status_in a) (status_in b)
  Move-between a b a' b' ha hb m =
      subst (λ x. Move (status_in x) (status_in b)) (sym ha)
        (subst (λ y. Move (status_in a') (status_in y)) (sym hb) m)

  issue-Move :
      (receiver_id order_id now : ℕ) (o : Order F)
      → refuse_issue receiver_id order_id now o ≡ none
      → Move (some o.status) (some given_to_client)
  unfolding refuse_issue
  issue-Move receiver_id order_id now o h =
      issues (differs o.status given_to_client (ground arith))
        (differs o.status returned_from_client (ground arith))

  return-Move :
      (receiver_id order_id now : ℕ) (o : Order F)
      → refuse_return receiver_id order_id now o ≡ none
      → Move (some o.status) (some returned_from_client)
  unfolding refuse_return
  return-Move receiver_id order_id now o h =
      returns (differs o.status in_storage (ground arith))
        (differs o.status returned_from_client (ground arith))

  changed-Move :
      (o old : Order F) (h : OrderHistory) (m : OutboxMessage) (id order_id : ℕ) (db : Tables F)
      → find_order order_id db.orders ≡ some old
      → o.order_id ≡ order_id
      → Move (some old.status) (some o.status)
      → Move
          (status_of id db)
          (status_of id (apply_all (change_order o ∷ put_history h ∷ put_outbox m ∷ []) db))
  unfolding status_of apply_all apply
  changed-Move o old h m id order_id db found same move = elim (Bool-cases (o.order_id == id)) [
    | inr other ↦
        let kept : find_order id (replace_order o db.orders) ≡ find_order id db.orders =
          ground (arith, find_order-replace id db.orders o) in
        rw kept stays
    | inl asked ↦
        let asked_for : order_id ≡ id = ground arith in
        let before : find_order id db.orders ≡ some old = cc in
        let changed : find_order id (replace_order o db.orders) ≡ some o =
          ground (arith, find_order-replace id db.orders o) in
        Move-between _ _ (some old) (some o) before changed move
  ]

  inserted-Move :
      (o : Order F) (h : OrderHistory) (m : OutboxMessage) (id : ℕ) (db : Tables F)
      → find_order o.order_id db.orders ≡ none
      → o.status ≡ in_storage
      → Move
          (status_of id db)
          (status_of id (apply_all (put_order o ∷ put_history h ∷ put_outbox m ∷ []) db))
  unfolding status_of apply_all apply
  inserted-Move o h m id db absent fresh = elim (Bool-cases (o.order_id == id)) [
    | inr other ↦
        let kept : find_order id (db.orders ++ o ∷ []) ≡ find_order id db.orders =
          ground (arith, find_order-append id db.orders o) in
        rw kept stays
    | inl asked ↦
        let same : o.order_id ≡ id = ground arith in
        let before : find_order id db.orders ≡ none = cc in
        let after : find_order id (db.orders ++ o ∷ []) ≡ some o =
          ground (arith, find_order-append id db.orders o) in
        Move-between _ _ none (some o) before after (rw fresh accepts)
  ]

  ended-Move :
      {A : Type 0} (Success : A → Tables F → Type 0) (id : ℕ) (w : World F)
      (out : Result A × World F)
      → ((a : A) (d : Tables F) → Success a d → Move (status_of id w.db) (status_of id d))
      → OperationEnds Success w.db out
      → Move (status_of id w.db) (status_of id out.1.db)
  ended-Move Success id w out moves ends = elim ends.ended [
    | inl (failure, same) ↦ rw same stays
    | inr (a, (fine, success)) ↦ moves a _ success
  ]

  -- One operation on a ready world with the database client changes the status of each order as
  -- the relation Move allows: no order to in storage, in storage to sent back unclaimed, returned
  -- to given to the courier, to given to the client from all but given and returned, to returned
  -- from all but in storage and returned, or no change.
  pub Step-Move :
      (s : Service) (v w : World F) (id : ℕ)
      → s.db_client ≡ true
      → IsReady v
      → Step s v w
      → Move (status_of id v.db) (status_of id w.db)
  unfolding accepted_order
  Step-Move s v w id client_there r (accepting req w0) =
      ended-Move _ id v _
        (λ price d a.
          subst (λ (x : Tables F). Move (status_of id v.db) (status_of id x)) (sym a.changed.rows)
            (inserted-Move (accepted_order req (time_now v).1.clock price) _ _ id v.db a.new refl))
        (accept_order-ends s req v client_there r.coherent)
  Step-Move s v w id client_there r (issuing receiver_id order_id now w0) =
      ended-Move _ id v _
        (λ u d i.
          subst (λ (x : Tables F). Move (status_of id v.db) (status_of id x)) (sym i.changed.rows)
            (changed-Move (issued now i.order) i.order _ _ id order_id v.db i.found
              (find_order-id order_id v.db.orders i.order i.found)
              (issue-Move receiver_id order_id now i.order i.allowed)))
        (issue_single-ends s receiver_id order_id now v client_there r.coherent r.sound)
  Step-Move s v w id client_there r (returning receiver_id order_id now w0) =
      ended-Move _ id v _
        (λ u d i.
          subst (λ (x : Tables F). Move (status_of id v.db) (status_of id x)) (sym i.changed.rows)
            (changed-Move (returned now i.order) i.order _ _ id order_id v.db i.found
              (find_order-id order_id v.db.orders i.order i.found)
              (return-Move receiver_id order_id now i.order i.allowed)))
        (return_single-ends s receiver_id order_id now v client_there r.coherent r.sound)
  Step-Move s v w id client_there r (sending_back order_id w0) =
      ended-Move _ id v _
        (λ u d i.
          subst (λ (x : Tables F). Move (status_of id v.db) (status_of id x)) (sym i.changed.rows)
            (changed-Move (sent_back i.now i.order) i.order _ _ id order_id v.db i.found
              (find_order-id order_id v.db.orders i.order i.found)
              (send-Move i.order.status i.status_allowed)))
        (return_order_to_delivery-ends s order_id v client_there r.coherent r.sound)

  -- An order whose status is not InStorage in a ready world still exists, and is not InStorage, in
  -- every world that the operations reach from it with the database client.
  pub Reachable-left_storage :
      (s : Service) (start w : World F) (id : ℕ) (status : OrderStatus)
      → s.db_client ≡ true
      → IsReady start
      → Reachable s start w
      → status_of id start.db ≡ some status
      → status ≢ in_storage
      → (later : OrderStatus) × ((status_of id w.db ≡ some later) × (later ≢ in_storage))
  Reachable-left_storage s start w id status client_there r at_start before left =
      (status, (before, left))
  Reachable-left_storage s start w id status client_there r (after {v} earlier step) before left =
      let (t, (found, out)) =
        Reachable-left_storage s start v id status client_there r earlier before left in
      left_once _ _ t
        (Step-Move s v w id client_there (Reachable-IsReady s start v client_there r earlier) step)
        found out
