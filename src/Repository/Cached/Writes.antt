-- ===== src/Repository/Cached/Writes.antt =====
-- The writing methods of cached_order_repo.go, followed through the caches and the open transaction.
use pvz_service.Base.{ℕ, ◌≡◌, refl, sym, ap, ◌∙◌, ◌≢◌, inl, inr, true, none, List, [], ◌∷◌, ◌++◌}
use mathlib.Core.Path.{subst}
use pvz_service.Base.Text.{text_eq_instance}
use pvz_service.Domain.Error.{Error}
use pvz_service.Domain.Order.{Order, OrderHistory}
use pvz_service.Cache.Lru
use pvz_service.Cache.Lru.{LruCache, CacheItem}
use pvz_service.Db.Client.{tx, visible, write}
use pvz_service.Db.Client.Cases.{tripped}
use pvz_service.Db.Tables.{
  Tables, Write, put_order, change_order, put_history, find_order, has_package, apply, apply_all,
  apply_all-append,
}
use pvz_service.Db.World.{World, Caches, err}
use pvz_service.Repository.Cached
use pvz_service.Repository.Cached.{
  order_key, receiver_key, returned_key, all_key, history_key, rules_key, history_slot,
  cache_delete, cache_set, invalidate_order_caches,
}
use pvz_service.Repository.Cached.Coherent.{HistoryEntry, Holds-delete, Coherent}
use pvz_service.Repository.Cached.Steps.{TxCoherent, TxWrites}
use pvz_service.Repository.Orders.{
  select_receiver, select_returned, select_all, select_history, select_rules,
}
use pvz_service.Repository.Orders.Ends.{save_order-Ends, change-Ends, save_history-Ends}
use pvz_service.Repository.Orders.Rows.{
  AgreeBut, AgreeBut-refl, put_order-AgreeBut, change_order-AgreeBut, KeepsReceiver,
  put_history-others,
}
use pvz_service.Repository.Cached.Survivors.{invalidated, invalidated-Coherent}

module _ {F : Type 0} where
  -- What the transaction sees after one more write.
  pub visible-write :
      (x : Write F) (w : World F) → visible tx (write tx (x ∷ []) w) ≡ apply x (visible tx w)
  unfolding visible write apply_all
  visible-write x w = apply_all-append w.pending (x ∷ []) w.db

  tripped-TxCoherent : (w : World F) → TxCoherent w → TxCoherent (tripped w)
  unfolding visible
  tripped-TxCoherent w c = record { committed = c.committed; seen = c.seen }

  -- A write of one order, then the invalidation.
  order_written :
      (x : Write F) (o : Order F) (w : World F)
      → TxCoherent w
      → AgreeBut o.order_id o.receiver_id (visible tx w) (apply x (visible tx w))
      → TxCoherent (invalidated o.order_id o.receiver_id (write tx (x ∷ []) (tripped w)))
  unfolding invalidate_order_caches cache_delete write visible apply_all
  order_written x o w c agree =
      let id = o.order_id in
      let r = o.receiver_id in
      let w1 = write tx (x ∷ []) (tripped w) in
      let fits =
        invalidated-Coherent id r (visible tx w) (apply x (visible tx w)) agree w1 c.seen in
      record {
        committed = invalidated-Coherent id r w.db w.db (AgreeBut-refl id r w.db) w1 c.committed;
        seen =
            subst (λ (d : Tables F). Coherent (invalidated id r w1).caches d)
              (sym (apply_all-append w.pending (x ∷ []) w.db)) fits;
      }

  written-TxWrites :
      {Fits : Type 0} (x : Write F) (o : Order F) (w : World F)
      → TxCoherent w
      → AgreeBut o.order_id o.receiver_id (visible tx w) (apply x (visible tx w))
      → Fits
      → TxWrites
          (x ∷ [])
          Fits
          w
          (invalidate_order_caches o.order_id o.receiver_id (write tx (x ∷ []) (tripped w)))
  unfolding invalidate_order_caches cache_delete write
  written-TxWrites x o w c agree fits = record {
    same_db = refl;
    coherent = order_written x o w c agree;
    ended = inl (refl, (fits, refl));
  }

  failed-TxWrites :
      {Fits : Type 0} (ws : List (Write F)) (w : World F) (e : Error)
      → TxCoherent w
      → TxWrites ws Fits w (err e, tripped w)
  failed-TxWrites ws w e c = record {
    same_db = refl;
    coherent = tripped-TxCoherent w c;
    ended = inr (e, refl);
  }

  -- `SaveOrderInTx`: the order is pending, and was not visible before; or there was an error.
  pub save_order_in_tx-TxWrites :
      (o : Order F) (w : World F)
      → TxCoherent w
      → TxWrites
          (put_order o ∷ [])
          ((find_order o.order_id (visible tx w).orders ≡ none)
            × (has_package o.package_type (visible tx w).package_types ≡ true))
          w
          (Cached.save_order_in_tx o w)
  unfolding Cached.save_order_in_tx
  save_order_in_tx-TxWrites o w c = elim (save_order-Ends tx o w) [
    | inl (fits, out) ↦
        rw out (written-TxWrites (put_order o) o w c (put_order-AgreeBut o (visible tx w)) fits)
    | inr (e, out) ↦ rw out (failed-TxWrites (put_order o ∷ []) w e c)
  ]

  -- `UpdateOrderInTx` of an order that keeps its receiver.
  pub update_order_in_tx-TxWrites :
      (o : Order F) (w : World F)
      → TxCoherent w
      → KeepsReceiver o (visible tx w).orders
      → TxWrites
          (change_order o ∷ [])
          ((find_order o.order_id (visible tx w).orders ≢ none)
            × (has_package o.package_type (visible tx w).package_types ≡ true))
          w
          (Cached.update_order_in_tx o w)
  unfolding Cached.update_order_in_tx
  update_order_in_tx-TxWrites o w c keeps = elim (change-Ends tx o w) [
    | inl (fits, out) ↦ rw out (
        written-TxWrites (change_order o) o w c (change_order-AgreeBut o (visible tx w) keeps) fits)
    | inr (e, out) ↦ rw out (failed-TxWrites (change_order o ∷ []) w e c)
  ]

  -- The caches after other history rows and the deletion of one key.
  history_invalidated :
      (id : ℕ) (c : Caches F) (db : Tables F) (rows : List OrderHistory)
      → ((j : ℕ) → j ≢ id → select_history j (record db { history = rows }) ≡ select_history j db)
      → Coherent c db
      → Coherent
          (record c { history = Lru.delete c.history (history_key id) })
          (record db { history = rows })
  unfolding select_receiver select_returned select_all select_rules
  history_invalidated id c db rows others h = record {
    orders = h.orders;
    receivers = h.receivers;
    history =
        Holds-delete (HistoryEntry db) c.history (history_key id) h.history
          (HistoryEntry (record db { history = rows }))
          (λ x ne (j, key, value).
            (j, key, value ∙ sym (others j (λ same. ne (key ∙ ap history_key same)))));
    package_rules = h.package_rules;
  }

  history_written :
      {Fits : Type 0} (r : OrderHistory) (w : World F)
      → TxCoherent w
      → Fits
      → TxWrites (put_history r ∷ []) Fits w (
          cache_delete history_slot
            (history_key r.order_id)
            (write tx (put_history r ∷ []) (tripped w)))
  unfolding cache_delete write visible apply apply_all
  history_written r w c fits = record {
    same_db = refl;
    coherent = record {
      committed =
          history_invalidated r.order_id w.caches w.db w.db.history (λ j h. refl) c.committed;
      seen =
          let key = history_key r.order_id in
          let seen = apply_all w.pending w.db in
          subst
            (λ (d : Tables F).
              Coherent (record w.caches { history = Lru.delete w.caches.history key }) d)
            (sym (apply_all-append w.pending (put_history r ∷ []) w.db))
            (history_invalidated r.order_id w.caches seen (seen.history ++ r ∷ [])
              (put_history-others r seen) c.seen);
    };
    ended = inl (refl, (fits, refl));
  }

  -- `SaveHistoryInTx`: the record of an order that the transaction sees is pending.
  pub save_history_in_tx-TxWrites :
      (r : OrderHistory) (w : World F)
      → TxCoherent w
      → TxWrites
          (put_history r ∷ [])
          (find_order r.order_id (visible tx w).orders ≢ none)
          w
          (Cached.save_history_in_tx r w)
  unfolding Cached.save_history_in_tx
  save_history_in_tx-TxWrites r w c = elim (save_history-Ends tx r w) [
    | inl (fits, out) ↦ rw out (history_written r w c fits)
    | inr (e, out) ↦ rw out (failed-TxWrites (put_history r ∷ []) w e c)
  ]
