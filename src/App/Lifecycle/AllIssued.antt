-- ===== src/App/Lifecycle/AllIssued.antt =====
-- What IssueOrdersToClient has done when it reports no error.
use mathlib.Core.Path.{subst}
use pvz_service.Base.{
  ℕ, ◌<◌, ◌≡◌, refl, sym, ◌⊎◌, inl, inr, true, some, List, [], ◌∷◌, arith, ◌==◌, Bool-cases, hits,
  total,
}
use pvz_service.Domain.Event.{OutboxMessage}
use pvz_service.Domain.Order.{Order, OrderHistory, given_to_client}
use pvz_service.Domain.Platform.{Platform}
use pvz_service.Db.Tables.{
  Tables, apply, apply_all, change_order, find_order, put_history, put_outbox, replace_order,
}
use pvz_service.Db.World.{World, ok, count_metric, time_now}
use pvz_service.Repository.Orders.Rows.{find_order-id, find_order-replace}
use pvz_service.App.Concurrent.{Group, Runs, counted, issue_one, issue_result, launched}
use pvz_service.App.Concurrent.Complete.{Runs-complete}
use pvz_service.App.Issue.{issue_single, issued}
use pvz_service.App.Issue.Ends.{issue_single-ends}
use pvz_service.App.Lifecycle.{IsReady}
use pvz_service.App.Lifecycle.Batches.{issue_one-IsReady, ticked-IsReady}
use pvz_service.App.Lifecycle.Statuses.{status_of}
use pvz_service.App.Service.{Service}

module _ {F : Type 0} ⦃p : Platform F⦄ where
  -- The order is there and was given to the client.
  abbrev pub IsGiven : ℕ → World F → Type 0
  IsGiven id w = status_of id w.db ≡ some given_to_client

  -- The status of every order once the order `order_id` is given to its client.
  rows-IsGiven :
      (id order_id now : ℕ) (o : Order F) (h : OrderHistory) (m : OutboxMessage) (db d : Tables F)
      → find_order order_id db.orders ≡ some o
      → d ≡ apply_all (change_order (issued now o) ∷ put_history h ∷ put_outbox m ∷ []) db
      → (id ≡ order_id) ⊎ (status_of id db ≡ some given_to_client)
      → status_of id d ≡ some given_to_client
  unfolding status_of apply_all apply
  rows-IsGiven id order_id now o h m db d found rows which =
      let given = issued now o in
      let its_id : o.order_id ≡ order_id = find_order-id order_id db.orders o found in
      rw rows (elim (Bool-cases (o.order_id == id)) [
        | inl asked ↦
            let before : find_order id db.orders ≡ some o =
              let it : order_id ≡ id = ground arith in cc in
            let changed : find_order id (replace_order given db.orders) ≡ some given =
              ground (arith, find_order-replace id db.orders given) in
            rw changed refl
        | inr other ↦
            let kept : find_order id (replace_order given db.orders) ≡ find_order id db.orders =
              ground (arith, find_order-replace id db.orders given) in
            rw kept (elim which [ inl it ↦ absurd (ground arith) | inr before ↦ before ])
      ])

  issue_single-IsGiven :
      (s : Service) (receiver_id order_id now id : ℕ) (w : World F)
      → s.db_client ≡ true
      → IsReady w
      → (((issue_single s receiver_id order_id now w).0 ≡ ok tt) × (id ≡ order_id)) ⊎ IsGiven id w
      → IsGiven id (issue_single s receiver_id order_id now w).1
  issue_single-IsGiven s receiver_id order_id now id w client_there r which =
      elim (issue_single-ends s receiver_id order_id now w client_there r.coherent r.sound).ended [
        | inl ((e, refused), kept) ↦ elim which [
          | inl (fine, it) ↦ absurd (cc)
          | inr given ↦
              subst (λ (d : Tables F). status_of id d ≡ some given_to_client) (sym kept) given
        ]
        | inr (u, (fine, i)) ↦
            rows-IsGiven id order_id now i.order _ _ w.db _ i.found i.changed.rows
              (elim which [ inl (_, it) ↦ inl it | inr given ↦ inr given ])
      ]

  issue_one-IsGiven :
      (s : Service) (receiver_id order_id id : ℕ) (w : World F)
      → s.db_client ≡ true
      → IsReady w
      → (((issue_one s receiver_id order_id w).0 ≡ ok tt) × (id ≡ order_id)) ⊎ IsGiven id w
      → IsGiven id (issue_one s receiver_id order_id w).1
  unfolding issue_one time_now
  issue_one-IsGiven s receiver_id order_id id w client_there r which =
      let v = (time_now w).1 in
      issue_single-IsGiven s receiver_id order_id v.clock id v client_there (ticked-IsReady w r)
        which

  -- If IssueOrdersToClient with the database client reports no error from a ready world, then, in
  -- whatever order its goroutines ended, every requested order is in the committed tables as given to
  -- the client.
  pub issue_orders-IsGiven :
      (s : Service) (receiver_id : ℕ) (order_ids : List ℕ) (w : World F) (g : Group F ℕ)
      → s.db_client ≡ true
      → IsReady w
      → Runs (issue_one s receiver_id) (launched order_ids w) g
      → g.left ≡ []
      → (issue_result g).0 ≡ ok tt
      → (id : ℕ) → 0 < total (hits id) order_ids
      → IsGiven id (issue_result g).1
  unfolding issue_result counted count_metric
  issue_orders-IsGiven s receiver_id order_ids w g client_there r runs all_ended fine id asked =
      Runs-complete (issue_one s receiver_id) IsReady IsGiven
        (λ i v ready. issue_one-IsReady s receiver_id i v client_there ready)
        (λ i v ready made.
          issue_one-IsGiven s receiver_id i i v client_there ready (inl (made, refl)))
        (λ k i v ready given. issue_one-IsGiven s receiver_id i k v client_there ready (inr given))
        order_ids w g r runs all_ended (ground arith) id asked
