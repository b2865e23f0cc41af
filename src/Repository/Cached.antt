-- ===== src/Repository/Cached.antt =====
-- internal/repository/postgres/cached_order_repo.go: the order repository behind four caches.
pub mod Keys
pub mod Coherent
pub mod Reads
pub mod Faithful
pub mod Lists
pub mod Relabel
pub mod Steps
pub mod Survivors
pub mod Writes
pub mod Upkeep
use pvz_service.Base.{ℕ, Bool, true, Option, none, some, List, [], ◌∷◌, ◌++◌}
use pvz_service.Base.Text.{Text, codes, decimal, text_eq_instance}
use pvz_service.Domain.Order.{Order, OrderHistory, PackageRules}
use pvz_service.Cache.Lru
use pvz_service.Cache.Lru.{LruCache}
use pvz_service.Db.Client.{client, tx}
use pvz_service.Db.World.{
  World, Caches, cache_hit, Exec, ok, pure, ◌>>=◌, ◌>>◌, time_now, count_metric,
  update_cache_metrics, continue, relabel,
}
use pvz_service.Repository.Orders

-- The keys, as `fmt.Sprintf` prints them.
unfoldable pub order_key : ℕ → Text
order_key id = codes "order:" ++ decimal id

unfoldable pub receiver_key : ℕ → Text
receiver_key id = codes "receiver:" ++ decimal id

unfoldable pub history_key : ℕ → Text
history_key id = codes "history:" ++ decimal id

unfoldable pub rules_key : Text → Text
rules_key code = codes "package_rules:" ++ code

abbrev pub returned_key : Text
returned_key = codes "returned_orders"

abbrev pub all_key : Text
all_key = codes "all_orders"

-- One of the four caches: how it is read from the caches, and written back.
pub record Slot (F V : Type 0) : Type 0 where
  pub name : Text
  pub read : Caches F → LruCache Text V
  pub store : LruCache Text V → Caches F → Caches F

module _ {F : Type 0} where
  abbrev pub order_slot : Slot F (Order F)
  order_slot = record {
    name = codes "orders";
    read = λ c. c.orders;
    store = λ s c. record c { orders = s };
  }

  abbrev pub receiver_slot : Slot F (List (Order F))
  receiver_slot = record {
    name = codes "receivers";
    read = λ c. c.receivers;
    store = λ s c. record c { receivers = s };
  }

  abbrev pub history_slot : Slot F (List OrderHistory)
  history_slot = record {
    name = codes "history";
    read = λ c. c.history;
    store = λ s c. record c { history = s };
  }

  abbrev pub rules_slot : Slot F (List (PackageRules F))
  rules_slot = record {
    name = codes "package_rules";
    read = λ c. c.package_rules;
    store = λ s c. record c { package_rules = s };
  }

module _ {F V : Type 0} (s : Slot F V) where
  abbrev pub put_back : LruCache Text V → World F → World F
  put_back c w = record w { caches = s.store c w.caches }

  -- `Get`, `Set` and `Delete` of one cache. The clock is read once in each `Get` and `Set`.
  unfoldable pub cache_get : Text → Exec F (Option V)
  cache_get key = do
    now ← time_now
    λ w. let (c, found) = Lru.get (s.read w.caches) now key in (ok found, put_back c w)

  unfoldable pub cache_set : Text → V → Exec F (Unit {0})
  cache_set key value = do
    now ← time_now
    λ w. (ok tt, put_back (Lru.set (s.read w.caches) now key value) w)

  unfoldable pub cache_delete : Text → Exec F (Unit {0})
  cache_delete key w = (ok tt, put_back (Lru.delete (s.read w.caches) key) w)

  -- The body that the reading methods share: a hit, or a read of the database that is kept.
  abbrev pub miss : Text → Exec F V → Exec F V
  miss key load = do
    count_metric (cache_hit s.name (codes "miss"))
    value ← load
    cache_set key value
    pure value

  abbrev pub hit_or_miss : Text → Exec F V → Option V → Exec F V
  hit_or_miss key load (some value) = do count_metric (cache_hit s.name (codes "hit")); pure value
  hit_or_miss key load none = miss key load

  unfoldable pub read_through : Text → Exec F V → Exec F V
  read_through key load = do found ← cache_get key; hit_or_miss key load found

module _ {F : Type 0} where
  unfoldable pub invalidate_order_caches : ℕ → ℕ → Exec F (Unit {0})
  invalidate_order_caches order_id receiver_id = do
    cache_delete order_slot (order_key order_id)
    cache_delete receiver_slot (receiver_key receiver_id)
    cache_delete receiver_slot returned_key
    cache_delete receiver_slot all_key
    cache_delete history_slot (history_key order_id)

  abbrev found_or_asked : ℕ → Option (Order F) → Exec F Bool
  found_or_asked order_id (some _) = do
    count_metric (cache_hit (codes "orders") (codes "hit"))
    pure true
  found_or_asked order_id none = do
    count_metric (cache_hit (codes "orders") (codes "miss"))
    Orders.exists order_id

  unfoldable pub exists : ℕ → Exec F Bool
  exists order_id = do
    found ← cache_get order_slot (order_key order_id)
    found_or_asked order_id found

  unfoldable pub save : Order F → Exec F (Unit {0})
  save o = do
    Orders.save_order client o
    invalidate_order_caches o.order_id o.receiver_id
    cache_set order_slot (order_key o.order_id) o

  unfoldable pub get_by_id : ℕ → Exec F (Order F)
  get_by_id order_id = read_through order_slot (order_key order_id) (Orders.get_by_id order_id)

  unfoldable pub update : Order F → Exec F (Unit {0})
  update o = do
    Orders.change client o
    invalidate_order_caches o.order_id o.receiver_id
    cache_set order_slot (order_key o.order_id) o

  unfoldable pub get_by_receiver_id : ℕ → Exec F (List (Order F))
  get_by_receiver_id receiver_id =
      read_through receiver_slot (receiver_key receiver_id) (Orders.get_by_receiver_id receiver_id)

  unfoldable pub get_returned_orders : Exec F (List (Order F))
  get_returned_orders = read_through receiver_slot returned_key Orders.get_returned_orders

  unfoldable pub get_all_orders : Exec F (List (Order F))
  get_all_orders = read_through receiver_slot all_key Orders.get_all_orders

  unfoldable pub get_package_rules : Text → Exec F (List (PackageRules F))
  get_package_rules code = read_through rules_slot (rules_key code) (Orders.get_package_rules code)

  unfoldable pub save_history : OrderHistory → Exec F (Unit {0})
  save_history h = do
    Orders.save_history client h
    cache_delete history_slot (history_key h.order_id)

  unfoldable pub get_history_by_order_id : ℕ → Exec F (List OrderHistory)
  get_history_by_order_id order_id =
      read_through history_slot (history_key order_id) (Orders.get_history_by_order_id order_id)

  unfoldable pub save_order_in_tx : Order F → Exec F (Unit {0})
  save_order_in_tx o = do Orders.save_order tx o; invalidate_order_caches o.order_id o.receiver_id

  unfoldable pub update_order_in_tx : Order F → Exec F (Unit {0})
  update_order_in_tx o = do Orders.change tx o; invalidate_order_caches o.order_id o.receiver_id

  unfoldable pub save_history_in_tx : OrderHistory → Exec F (Unit {0})
  save_history_in_tx h = do
    Orders.save_history tx h
    cache_delete history_slot (history_key h.order_id)

  -- Each cache drops what has expired; its own clock reading is the one of the four calls.
  unfoldable pub cleanup_expired : Exec F (Unit {0})
  cleanup_expired = do
    now ← time_now
    λ w.
        let c = w.caches in
        (
          ok tt,
          record w {
            caches = record {
              orders = Lru.cleanup_expired c.orders now;
              receivers = Lru.cleanup_expired c.receivers now;
              history = Lru.cleanup_expired c.history now;
              package_rules = Lru.cleanup_expired c.package_rules now;
            };
          },
        )

  unfoldable pub clear_cache : Exec F (Unit {0})
  clear_cache w =
      let c = w.caches in
      (
        ok tt,
        record w {
          caches = record {
            orders = Lru.clear c.orders;
            receivers = Lru.clear c.receivers;
            history = Lru.clear c.history;
            package_rules = Lru.clear c.package_rules;
          };
        },
      )

  unfoldable pub get_cache_stats : Exec F (List (Text × ℕ))
  get_cache_stats w =
      let c = w.caches in
      let stats =
        (codes "orders", Lru.size c.orders)
        ∷ (codes "receivers", Lru.size c.receivers)
        ∷ (codes "history", Lru.size c.history)
        ∷ (codes "package_rules", Lru.size c.package_rules)
        ∷ [] in
      (ok stats, record w { metrics = w.metrics ++ update_cache_metrics stats ∷ [] })
