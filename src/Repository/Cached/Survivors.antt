-- ===== src/Repository/Cached/Survivors.antt =====
-- What `invalidateOrderCaches` of internal/repository/postgres/cached_order_repo.go leaves in the
-- caches, against tables in which one order has changed.
use pvz_service.Base.{ℕ, sym, ap, ◌∙◌, ◌≢◌, inl, inr, List, All-mono}
use pvz_service.Base.Text.{Text, text_eq_instance}
use pvz_service.Domain.Order.{Order, OrderHistory, PackageRules}
use pvz_service.Cache.Lru
use pvz_service.Cache.Lru.{LruCache, CacheItem}
use pvz_service.Db.Tables.{Tables}
use pvz_service.Db.World.{World}
use pvz_service.Repository.Cached.{
  order_key, receiver_key, returned_key, all_key, history_key, cache_delete,
  invalidate_order_caches,
}
use pvz_service.Repository.Cached.Coherent.{
  OrderEntry, ListEntry, HistoryEntry, RulesEntry, Holds, Holds-delete, Coherent,
}
use pvz_service.Repository.Orders.Rows.{AgreeBut}

pub map-Holds :
    {V : Type 0} (P Q : CacheItem Text V → Type 0) (c : LruCache Text V)
    → ((x : CacheItem Text V) → P x → Q x)
    → Holds P c
    → Holds Q c
map-Holds P Q c f h = record { valid = h.valid; entries = All-mono P Q f _ h.entries }

module _ {F : Type 0} where
  -- The world after `invalidateOrderCaches`.
  abbrev pub invalidated : ℕ → ℕ → World F → World F
  invalidated id r w = (invalidate_order_caches id r w).1

  module _ (id r : ℕ) (db db' : Tables F) (agree : AgreeBut id r db db') where
    order_survives :
        (x : CacheItem Text (Order F)) → x.key ≢ order_key id → OrderEntry db x → OrderEntry db' x
    order_survives x other (j, key, found) =
        (j, key, agree.orders j (λ same. other (key ∙ ap order_key same)) ∙ found)

    -- Of the lists of orders only those of other receivers survive the four deletions.
    abbrev Other : CacheItem Text (List (Order F)) → Type 0
    Other x = (x.key ≢ receiver_key r) × ListEntry db x

    abbrev Kept : CacheItem Text (List (Order F)) → Type 0
    Kept x = (x.key ≢ returned_key) × (x.key ≢ receiver_key r) × ListEntry db x

    list_survives :
        (x : CacheItem Text (List (Order F))) → x.key ≢ all_key → Kept x → ListEntry db' x
    list_survives x not_all (not_returned, other, inl (q, key, value)) =
        inl (q, key, value ∙ sym (agree.receivers q (λ same. other (key ∙ ap receiver_key same))))
    list_survives x not_all (not_returned, other, inr (inl (key, value))) =
        absurd (not_returned key)
    list_survives x not_all (not_returned, other, inr (inr (key, value))) = absurd (not_all key)

    history_survives :
        (x : CacheItem Text (List OrderHistory))
        → x.key ≢ history_key id
        → HistoryEntry db x
        → HistoryEntry db' x
    history_survives x other (j, key, value) =
        (j, key, value ∙ sym (agree.history j (λ same. other (key ∙ ap history_key same))))

    rules_survive :
        (x : CacheItem Text (List (PackageRules F))) → RulesEntry db x → RulesEntry db' x
    rules_survive x (code, key, value) = (code, key, value ∙ sym (agree.package_rules code))

    lists_survive :
        (c : LruCache Text (List (Order F)))
        → Holds (ListEntry db) c
        → Holds
            (ListEntry db')
            (Lru.delete (Lru.delete (Lru.delete c (receiver_key r)) returned_key) all_key)
    lists_survive c h =
        let first = Holds-delete (ListEntry db) c (receiver_key r) h Other (λ x ne e. (ne, e)) in
        let second =
          Holds-delete Other (Lru.delete c (receiver_key r)) returned_key first Kept
            (λ x ne e. (ne, e.0, e.1)) in
        Holds-delete Kept (Lru.delete (Lru.delete c (receiver_key r)) returned_key) all_key second
          (ListEntry db') list_survives

    -- After `invalidateOrderCaches` the caches fit any tables that differ only in what it drops.
    pub invalidated-Coherent :
        (w : World F) → Coherent w.caches db → Coherent (invalidated id r w).caches db'
    unfolding invalidate_order_caches cache_delete
    invalidated-Coherent w c = record {
      orders =
          Holds-delete (OrderEntry db) w.caches.orders (order_key id) c.orders (OrderEntry db')
            order_survives;
      receivers = lists_survive w.caches.receivers c.receivers;
      history =
          Holds-delete (HistoryEntry db) w.caches.history (history_key id) c.history
            (HistoryEntry db') history_survives;
      package_rules =
          map-Holds (RulesEntry db) (RulesEntry db') w.caches.package_rules rules_survive
            c.package_rules;
    }
