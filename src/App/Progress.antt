-- ===== src/App/Progress.antt =====
-- The reads and the transactions of internal/app in a world where no statement fails.
pub mod Succeeds
pub mod Accepts
use mathlib.Core.Path.{subst}
use pvz_service.Base.{
  ℕ, ◌≡◌, refl, sym, ap, inl, inr, true, Option, some, List, [], ◌∷◌, arith, Option-cases, All,
}
use pvz_service.Base.Text.{Text, text_eq_instance, codes}
use pvz_service.Domain.Event.{Event, client, new_event, order_issued, order_returned_by_client}
use pvz_service.Domain.Order.{Order, OrderHistory, given_to_client, returned_from_client}
use pvz_service.Domain.Platform.{second, Platform}
use pvz_service.Cache.Lru
use pvz_service.Db.Client.{
  begin_tx, commit, exec, perform, query_row, rollback_on_error, visible, with_transaction, write,
  Conn, Outcome, affected, tx,
}
use pvz_service.Db.Client.Cases.{tripped}
use pvz_service.Db.Client.Transaction.{begun, committed}
use pvz_service.Db.Tables.{
  apply, apply_all, find_order, has_package, replace_order, Tables, Write, change_order,
  put_history,
}
use pvz_service.Db.World.{
  World, count_metric, later, new_uuid, ok, round_trip, time_now, Exec, Result, continue, err,
  relabel, next_fault,
}
use pvz_service.Repository.Cached
use pvz_service.Repository.Cached.{update}
use pvz_service.Repository.Cached.Coherent.{Coherent}
use pvz_service.Repository.Cached.Faithful.{get_by_id-IsFaithful}
use pvz_service.Repository.Cached.Writes.{update_order_in_tx-TxWrites}
use pvz_service.Repository.Orders
use pvz_service.Repository.Orders.Rows.{find_order-replace, KeepsReceiver, find_order-id}
use pvz_service.Repository.Outbox
use pvz_service.App.Issue.{issue_single, issued, refuse_issue, store_issued}
use pvz_service.App.Outcome.Rows.{IsSound, UniqueIds-KeepsReceiver}
use pvz_service.App.ReturnClient.{refuse_return, return_single, returned, store_returned}
use pvz_service.App.Service.{update_in_tx, Service, make_event}

module _ {F : Type 0} where
  -- A world in which none of the coming statements fails.
  abbrev pub quiet : World F → World F
  quiet w = record w { faults = [] }

  pub quiet_self : (w : World F) → w.faults ≡ [] → w ≡ quiet w
  quiet_self w e = ap (λ (f : List (Option Text)). record w { faults = f }) e

  get_by_id-quiet :
      (id : ℕ) (o : Order F) (w : World F)
      → Coherent w.caches w.db
      → find_order id w.db.orders ≡ some o
      → ((Cached.get_by_id id (quiet w)).0 ≡ ok o) × ((Cached.get_by_id id (quiet w)).1.faults ≡ [])
  unfolding Cached.get_by_id Cached.read_through Cached.cache_get Cached.cache_set time_now
      count_metric Orders.get_by_id query_row round_trip
  get_by_id-quiet id o w c found =
      let read = get_by_id-IsFaithful id (quiet w) c in
      let now = later w.clock w.ticks in
      elim (Option-cases (Lru.get w.caches.orders now (Cached.order_key id)).1) [
        | inl missed ↦ (rw (missed, found) refl, rw (missed, found) refl)
        | inr (v, hit) ↦
            let held : find_order id w.db.orders ≡ some v = read.right v (rw hit refl) in
            let same : v ≡ o = cc in (rw hit (ap ok same), rw hit refl)
      ]

  -- A statement in a transaction that no fault meets is performed.
  pub exec_quiet :
      (statement : Tables F → Outcome F) (w : World F) (n : ℕ) (ws : List (Write F))
      → w.faults ≡ []
      → statement (apply_all w.pending w.db) ≡ affected n ws
      → exec tx statement w ≡ (ok n, write tx ws (tripped w))
  unfolding exec round_trip perform visible write
  exec_quiet statement w n ws none_left made = rw (none_left, made) refl

  update_made :
      (o old : Order F) (db : Tables F)
      → find_order o.order_id db.orders ≡ some old
      → has_package o.package_type db.package_types ≡ true
      → Orders.update_order o db ≡ affected 1 (change_order o ∷ [])
  unfolding Orders.update_order
  update_made o old db found known = ground arith

  history_made :
      (h : OrderHistory) (o : Order F) (db : Tables F)
      → find_order h.order_id db.orders ≡ some o
      → Orders.insert_history h db ≡ affected 1 (put_history h ∷ [])
  unfolding Orders.insert_history
  history_made h o db found = ground arith

  -- A step that ended well, with no fault ahead.
  abbrev pub Went : Result (Unit {0}) × World F → Type 0
  Went out = (out.0 ≡ ok tt) × (out.1.faults ≡ [])

  pub Went-continue :
      (label : Text) (k : Exec F (Unit {0})) (out : Result (Unit {0}) × World F)
      → Went out
      → Went (k out.1)
      → Went (continue (relabel label out) (λ _. k))
  Went-continue label k (ok u, w) first rest = rest
  Went-continue label k (err e, w) first rest = absurd (cc)

  pub Went-relabel :
      (label : Text) (out : Result (Unit {0}) × World F) → Went out → Went (relabel label out)
  Went-relabel label (ok u, w) g = g
  Went-relabel label (err e, w) g = absurd (cc)

  update-Went :
      (o old : Order F) (w : World F)
      → w.faults ≡ []
      → find_order o.order_id (apply_all w.pending w.db).orders ≡ some old
      → has_package o.package_type (apply_all w.pending w.db).package_types ≡ true
      → Went (Cached.update_order_in_tx o w)
  unfolding Cached.update_order_in_tx Cached.invalidate_order_caches Cached.cache_delete
      Orders.change Orders.check_updated write
  update-Went o old w none_left found known =
      let made = update_made o old (apply_all w.pending w.db) found known in
      rw (exec_quiet (Orders.update_order o) w 1 (change_order o ∷ []) none_left made)
        (refl, rw none_left refl)

  pub history-Went :
      (h : OrderHistory) (o : Order F) (w : World F)
      → w.faults ≡ []
      → find_order h.order_id (apply_all w.pending w.db).orders ≡ some o
      → Went (Cached.save_history_in_tx h w)
  unfolding Cached.save_history_in_tx Cached.cache_delete Orders.save_history write
  history-Went h o w none_left found =
      let made = history_made h o (apply_all w.pending w.db) found in
      rw (exec_quiet (Orders.insert_history h) w 1 (put_history h ∷ []) none_left made)
        (refl, rw none_left refl)

  pub event-Went : (event : Event) (w : World F) → w.faults ≡ [] → Went (Outbox.save event w)
  unfolding Outbox.save new_uuid time_now exec round_trip perform write
  event-Went event w none_left = (rw none_left refl, rw none_left refl)

  -- The transaction of a change of an order that is there.
  pub update_in_tx-Went :
      (o old : Order F) (h : OrderHistory) (event : Event) (w : World F)
      → w.faults ≡ []
      → Coherent w.caches w.db
      → KeepsReceiver o w.db.orders
      → find_order o.order_id w.db.orders ≡ some old
      → has_package o.package_type w.db.package_types ≡ true
      → h.order_id ≡ o.order_id
      → Went (update_in_tx o h event (begun w))
  unfolding update_in_tx apply_all visible apply
  update_in_tx-Went o old h event w none_left c keeps found known same_id =
      let w0 = begun w in
      let first = update-Went o old w0 (rw none_left refl) found known in
      let step = update_order_in_tx-TxWrites o w0 (record { committed = c; seen = c }) keeps in
      let w1 = (Cached.update_order_in_tx o w0).1 in
      let written : w1.pending ≡ change_order o ∷ [] = elim step.ended [
        | inl (fine, (fits, ws)) ↦ ws
        | inr (e, stopped) ↦ absurd (cc)
      ] in
      let replaced : find_order o.order_id (replace_order o w.db.orders) ≡ some o =
        ground (arith, find_order-replace o.order_id w.db.orders o) in
      let there : find_order h.order_id (apply_all w1.pending w1.db).orders ≡ some o =
        rw (written, step.same_db, same_id) replaced in
      let second = history-Went h o w1 first.1 there in
      Went-continue (codes "update order") _ (Cached.update_order_in_tx o w0) first (
        Went-continue (codes "save history") _ (Cached.save_history_in_tx h w1) second (
          Went-relabel (codes "save event") (Outbox.save event (Cached.save_history_in_tx h w1).1)
            (event-Went event (Cached.save_history_in_tx h w1).1 second.1)))

  committed_well :
      (out : Result (Unit {0}) × World F)
      → Went out
      → (rollback_on_error (continue out (λ _ w. relabel (codes "commit tx") (commit w)))).0 ≡ ok tt
  unfolding rollback_on_error commit round_trip
  committed_well (ok u, w) went = rw went.1 refl
  committed_well (err e, w) went = absurd (cc)

  -- A transaction whose function went well commits.
  pub with_transaction-Went :
      (fn : Exec F (Unit {0})) (w : World F)
      → w.faults ≡ []
      → Went (fn (begun w))
      → (with_transaction fn w).0 ≡ ok tt
  unfolding with_transaction begin_tx round_trip
  with_transaction-Went fn w none_left went =
      let fine : next_fault w.faults ≡ ok tt = rw none_left refl in
      rw fine (committed_well (fn (begun w)) went)

  pub get_by_id_went :
      (id : ℕ) (o : Order F) (w : World F)
      → w.faults ≡ []
      → Coherent w.caches w.db
      → find_order id w.db.orders ≡ some o
      → ((Cached.get_by_id id w).0 ≡ ok o) × ((Cached.get_by_id id w).1.faults ≡ [])
  get_by_id_went id o w none_left c found =
      subst (λ v. ((Cached.get_by_id id v).0 ≡ ok o) × ((Cached.get_by_id id v).1.faults ≡ []))
        (sym (quiet_self w none_left)) (get_by_id-quiet id o w c found)

  -- The function of the transaction of a change goes well after reads that changed no table.
  pub changes-Went :
      (id : ℕ) (o old : Order F) (h : OrderHistory) (event : Event) (db : Tables F) (w : World F)
      → w.db ≡ db
      → w.faults ≡ []
      → Coherent w.caches db
      → IsSound db
      → find_order id db.orders ≡ some old
      → has_package o.package_type db.package_types ≡ true
      → o.order_id ≡ id
      → old.receiver_id ≡ o.receiver_id
      → h.order_id ≡ o.order_id
      → Went (update_in_tx o h event (begun w))
  changes-Went id o old h event db w same none_left c sound found known same_id receiver same_row =
      let coherent : Coherent w.caches w.db = rw same c in
      let keeps : KeepsReceiver o w.db.orders = rw same (
        subst (λ r. All (λ x. x.order_id ≡ o.order_id → x.receiver_id ≡ r) db.orders) receiver
          (subst (λ i. All (λ x. x.order_id ≡ i → x.receiver_id ≡ old.receiver_id) db.orders)
            (sym same_id) (UniqueIds-KeepsReceiver id db.orders old sound.unique found))) in
      let there : find_order o.order_id w.db.orders ≡ some old =
        subst (λ i. find_order i w.db.orders ≡ some old) (sym same_id)
          (subst (λ (d : Tables F). find_order id d.orders ≡ some old) (sym same) found) in
      let package_there : has_package o.package_type w.db.package_types ≡ true =
        subst (λ (d : Tables F). has_package o.package_type d.package_types ≡ true) (sym same)
          known in
      update_in_tx-Went o old h event w none_left coherent keeps there package_there same_row
