-- ===== src/App/Progress/Accepts.antt =====
-- internal/app/accept_order.go in a world where no statement fails.
use mathlib.Core.Path.{subst}
use pvz_service.Base.{
  ℕ, ◌≡◌, refl, sym, ap, ◌∙◌, inl, inr, true, false, none, some, List, [], ◌∷◌, ◌++◌, arith,
  Option-cases,
}
use pvz_service.Base.Text.{Text, codes, text_eq_instance, text_eq}
use pvz_service.Domain.Error.{Error, wrap}
use pvz_service.Domain.Event.{Event, courier, new_event, order_accepted}
use pvz_service.Domain.Order.{Order, OrderHistory, PackageRules, AcceptOrderRequest, in_storage}
use pvz_service.Domain.Platform.{Platform}
use pvz_service.Cache.Lru
use pvz_service.Cache.Lru.{get}
use pvz_service.Db.Client.{affected, query, query_row, visible, write, with_transaction}
use pvz_service.Db.Client.Transaction.{begun}
use pvz_service.Db.Tables.{Tables, apply, apply_all, find_order, has_package, put_order}
use pvz_service.Db.World.{
  World, count_metric, err, later, ok, round_trip, time_now, Metric, Result, continue, new_uuid,
  pure, refresh_order_status, ◌>>◌,
}
use pvz_service.Repository.Cached
use pvz_service.Repository.Cached.Coherent.{Coherent}
use pvz_service.Repository.Cached.Faithful.{get_by_id-IsFaithful, get_package_rules-IsFaithful}
use pvz_service.Repository.Cached.Writes.{save_order_in_tx-TxWrites}
use pvz_service.Repository.Orders
use pvz_service.Repository.Orders.{select_rules}
use pvz_service.Repository.Orders.Rows.{find_order-append}
use pvz_service.Repository.Outbox
use pvz_service.App.Guards.{Fits, Fits-add_rules, full_price}
use pvz_service.App.Accept.{accept_order, accepted_order, load_rules, store_accepted}
use pvz_service.App.Accept.Ends.{load_rules-IsFaithful}
use pvz_service.App.Progress.{
  Went, Went-continue, Went-relabel, event-Went, exec_quiet, history-Went, quiet, quiet_self,
  with_transaction-Went,
}
use pvz_service.App.Service.{insert_in_tx, Service, make_event}

module _ {F : Type 0} where
  absent-quiet :
      (id : ℕ) (w : World F)
      → Coherent w.caches w.db
      → find_order id w.db.orders ≡ none
      → ((e : Error) × ((Cached.get_by_id id (quiet w)).0 ≡ err e))
        × ((Cached.get_by_id id (quiet w)).1.faults ≡ [])
  unfolding Cached.get_by_id Cached.read_through Cached.cache_get Cached.cache_set time_now
      count_metric Orders.get_by_id query_row round_trip
  absent-quiet id w c absent =
      let read = get_by_id-IsFaithful id (quiet w) c in
      let now = later w.clock w.ticks in
      elim (Option-cases (Lru.get w.caches.orders now (Cached.order_key id)).1) [
        | inl missed ↦ (
          (wrap (codes "get by id") (Orders.order_not_found id), rw (missed, absent) refl),
          rw (missed, absent) refl,
        )
        | inr (v, hit) ↦
            let held : find_order id w.db.orders ≡ some v = read.right v (rw hit refl) in
            absurd (cc)
      ]

  rules-quiet :
      (code : Text) (r : PackageRules F) (rules : List (PackageRules F)) (w : World F)
      → Coherent w.caches w.db
      → select_rules code w.db ≡ r ∷ rules
      → ((Cached.get_package_rules code (quiet w)).0 ≡ ok (r ∷ rules))
        × ((Cached.get_package_rules code (quiet w)).1.faults ≡ [])
  unfolding Cached.get_package_rules Cached.read_through Cached.cache_get Cached.cache_set time_now
      count_metric Orders.get_package_rules query round_trip
  rules-quiet code r rules w c there =
      let read = get_package_rules-IsFaithful code (quiet w) c in
      let now = later w.clock w.ticks in
      elim (Option-cases (Lru.get w.caches.package_rules now (Cached.rules_key code)).1) [
        | inl missed ↦ (rw (missed, there) refl, rw (missed, there) refl)
        | inr (v, hit) ↦
            let held : v ≡ select_rules code w.db = read.right v (rw hit refl) in
            (rw hit (ap ok (held ∙ there)), rw hit refl)
      ]

  insert_made :
      (o : Order F) (db : Tables F)
      → find_order o.order_id db.orders ≡ none
      → has_package o.package_type db.package_types ≡ true
      → Orders.insert_order o db ≡ affected 1 (put_order o ∷ [])
  unfolding Orders.insert_order
  insert_made o db absent known = ground arith

  insert-Went :
      (o : Order F) (w : World F)
      → w.faults ≡ []
      → find_order o.order_id (apply_all w.pending w.db).orders ≡ none
      → has_package o.package_type (apply_all w.pending w.db).package_types ≡ true
      → Went (Cached.save_order_in_tx o w)
  unfolding Cached.save_order_in_tx Cached.invalidate_order_caches Cached.cache_delete
      Orders.save_order Orders.check_inserted write
  insert-Went o w none_left absent known =
      let made = insert_made o (apply_all w.pending w.db) absent known in
      rw (exec_quiet (Orders.insert_order o) w 1 (put_order o ∷ []) none_left made)
        (refl, rw none_left refl)

  insert_in_tx-Went :
      (o : Order F) (h : OrderHistory) (event : Event) (w : World F)
      → w.faults ≡ []
      → Coherent w.caches w.db
      → find_order o.order_id w.db.orders ≡ none
      → has_package o.package_type w.db.package_types ≡ true
      → h.order_id ≡ o.order_id
      → Went (insert_in_tx o h event (begun w))
  unfolding insert_in_tx apply_all visible apply
  insert_in_tx-Went o h event w none_left c absent known same_id =
      let w0 = begun w in
      let first = insert-Went o w0 (rw none_left refl) absent known in
      let step = save_order_in_tx-TxWrites o w0 (record { committed = c; seen = c }) in
      let w1 = (Cached.save_order_in_tx o w0).1 in
      let written : w1.pending ≡ put_order o ∷ [] = elim step.ended [
        | inl (fine, (fits, ws)) ↦ ws
        | inr (e, stopped) ↦ absurd (cc)
      ] in
      let added : find_order o.order_id (w.db.orders ++ o ∷ []) ≡ some o =
        ground (arith, find_order-append o.order_id w.db.orders o) in
      let there : find_order h.order_id (apply_all w1.pending w1.db).orders ≡ some o =
        rw (written, step.same_db, same_id) added in
      let second = history-Went h o w1 first.1 there in
      Went-continue (codes "save order") _ (Cached.save_order_in_tx o w0) first (
        Went-continue (codes "save history") _ (Cached.save_history_in_tx h w1) second (
          Went-relabel (codes "save event") (Outbox.save event (Cached.save_history_in_tx h w1).1)
            (event-Went event (Cached.save_history_in_tx h w1).1 second.1)))

  -- The two reads of `AcceptOrder`, one behind the other, and what they leave.
  load-quiet :
      ⦃p : Platform F⦄ (code : Text) (r : PackageRules F) (rules : List (PackageRules F))
      (w : World F)
      → w.faults ≡ []
      → Coherent w.caches w.db
      → text_eq code [] ≡ false
      → select_rules code w.db ≡ r ∷ rules
      → ((load_rules code w).0 ≡ ok (r ∷ rules)) × ((load_rules code w).1.faults ≡ [])
  unfolding load_rules
  load-quiet code r rules w none_left c given there =
      let (got, left) =
        subst
          (λ v.
            ((Cached.get_package_rules code v).0 ≡ ok (r ∷ rules))
            × ((Cached.get_package_rules code v).1.faults ≡ []))
          (sym (quiet_self w none_left)) (rules-quiet code r rules w c there) in
      rw given (rw got refl, rw got left)

  counted_price :
      (price : F) (out : Result (Unit {0}) × World F)
      → out.0 ≡ ok tt
      → (continue out (λ _. do
        count_metric Metric.order_accepted
        count_metric refresh_order_status
        pure price)).0
        ≡ ok price
  unfolding count_metric
  counted_price price (ok u, w) fine = refl
  counted_price price (err e, w) fine = absurd (cc)

  module _ ⦃p : Platform F⦄ where
    -- With the database client, coherent caches and no failing statement, AcceptOrder returns the
    -- request's price with the prices of the rules added if no order has the identifier, the
    -- package type is not empty and is a row, the table has its rules, and none of them that has a
    -- limit has it below the weight: a weight equal to the limit is accepted.
    pub accept_order-succeeds :
        (s : Service) (req : AcceptOrderRequest F) (r : PackageRules F)
        (rules : List (PackageRules F)) (w : World F)
        → s.db_client ≡ true
        → w.faults ≡ []
        → Coherent w.caches w.db
        → find_order req.order_id w.db.orders ≡ none
        → text_eq req.package_type [] ≡ false
        → has_package req.package_type w.db.package_types ≡ true
        → select_rules req.package_type w.db ≡ r ∷ rules
        → Fits req.weight (r ∷ rules)
        → (accept_order s req w).0 ≡ ok (full_price req.price (r ∷ rules))
    unfolding accept_order time_now make_event new_uuid store_accepted accepted_order
    accept_order-succeeds s req r rules w client_there none_left c absent given known there fits =
        let price = full_price req.price (r ∷ rules) in
        let priced = Fits-add_rules req.package_type req.weight req.price (r ∷ rules) fits in
        let w0 = (time_now w).1 in
        let (missing, left1) =
          subst
            (λ v.
              ((e : Error) × ((Cached.get_by_id req.order_id v).0 ≡ err e))
              × ((Cached.get_by_id req.order_id v).1.faults ≡ []))
            (sym (quiet_self w0 none_left)) (absent-quiet req.order_id w0 c absent) in
        let asked = get_by_id-IsFaithful req.order_id w0 c in
        let w1 = (Cached.get_by_id req.order_id w0).1 in
        let c1 : Coherent w1.caches w1.db =
          subst (λ (d : Tables F). Coherent w1.caches d) (sym asked.same_db) asked.coherent in
        let (got, left2) =
          load-quiet req.package_type r rules w1 left1 c1 given
            (ap (select_rules req.package_type) asked.same_db ∙ there) in
        let loaded = load_rules-IsFaithful req.package_type w1 c1 in
        let w2 = (load_rules req.package_type w1).1 in
        let same = loaded.same_db ∙ asked.same_db in
        let w3 = (time_now (new_uuid w2).1).1 in
        let c3 : Coherent w3.caches w3.db =
          subst (λ (d : Tables F). Coherent w3.caches d) (sym loaded.same_db) loaded.coherent in
        let o = accepted_order req w0.clock price in
        let h : OrderHistory = record {
          order_id = req.order_id;
          status = in_storage;
          changed_at = w0.clock;
        } in
        let event =
          new_event w2.next_id w3.clock order_accepted (record { type = courier; id = 1 })
            (record { id = req.order_id; user_id = req.receiver_id; status = codes "accepted" }) in
        let absent3 : find_order req.order_id w3.db.orders ≡ none =
          ap (λ (d : Tables F). find_order req.order_id d.orders) same ∙ absent in
        let known3 : has_package req.package_type w3.db.package_types ≡ true =
          ap (λ (d : Tables F). has_package req.package_type d.package_types) same ∙ known in
        rw (missing.1, got, priced, client_there)
          (counted_price price (with_transaction (insert_in_tx o h event) w3) (
            with_transaction-Went (insert_in_tx o h event) w3 left2
              (insert_in_tx-Went o h event w3 left2 c3 absent3 known3 refl)))
