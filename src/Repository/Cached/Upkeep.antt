-- ===== src/Repository/Cached/Upkeep.antt =====
-- `ClearCache` and `CleanupExpired` of internal/repository/postgres/cached_order_repo.go.
use pvz_service.Base.{ℕ, inl, inr, List, [], ◌∷◌, ◌++◌, arith, leb, Bool-cases, All}
use pvz_service.Base.Text.{Text, text_eq_instance}
use pvz_service.Cache.Lru
use pvz_service.Cache.Lru.{CacheItem, LruCache}
use pvz_service.Cache.Lru.Cleanup.{cleanup_expired-Trims}
use pvz_service.Cache.Lru.Spec.{view}
use pvz_service.Cache.Lru.Valid.{clear-IsValid}
use pvz_service.Db.World.{World, later, time_now}
use pvz_service.Repository.Cached
use pvz_service.Repository.Cached.Coherent.{
  Coherent, HistoryEntry, Holds, ListEntry, OrderEntry, RulesEntry,
}

All-before : {A : Type 0} (P : A → Type 0) (l m : List A) → All P (l ++ m) → All P l
All-before P [] m h = tt
All-before P (x ∷ l) m h = (h.0, All-before P l m h.1)

module _ {V : Type 0} (P : CacheItem Text V → Type 0) (c : LruCache Text V) (h : Holds P c) where
  Holds-clear : Holds P (Lru.clear c)
  unfolding Lru.clear
  Holds-clear = record { valid = clear-IsValid c [] h.valid; entries = tt }

  Holds-cleanup_expired : (now : ℕ) → Holds P (Lru.cleanup_expired c now)
  Holds-cleanup_expired now = elim (Bool-cases (leb c.ttl 0)) [
    | inl off ↦ unfold Lru.cleanup_expired in rw off h
    | inr on ↦
        let (valid, (dropped, parts, all_old, rest)) =
          cleanup_expired-Trims c now h.valid (ground arith) in
        record {
          valid = valid;
          entries = All-before P (view (Lru.cleanup_expired c now)) dropped (rw parts at h.entries);
        }
  ]

module _ {F : Type 0} where
  pub clear_cache-Coherent :
      (w : World F) → Coherent w.caches w.db → Coherent (Cached.clear_cache w).1.caches w.db
  unfolding Cached.clear_cache
  clear_cache-Coherent w c = record {
    orders = Holds-clear (OrderEntry w.db) w.caches.orders c.orders;
    receivers = Holds-clear (ListEntry w.db) w.caches.receivers c.receivers;
    history = Holds-clear (HistoryEntry w.db) w.caches.history c.history;
    package_rules = Holds-clear (RulesEntry w.db) w.caches.package_rules c.package_rules;
  }

  pub cleanup_expired-Coherent :
      (w : World F) → Coherent w.caches w.db → Coherent (Cached.cleanup_expired w).1.caches w.db
  unfolding Cached.cleanup_expired time_now
  cleanup_expired-Coherent w c =
      let now = later w.clock w.ticks in
      record {
        orders = Holds-cleanup_expired (OrderEntry w.db) w.caches.orders c.orders now;
        receivers = Holds-cleanup_expired (ListEntry w.db) w.caches.receivers c.receivers now;
        history = Holds-cleanup_expired (HistoryEntry w.db) w.caches.history c.history now;
        package_rules =
            Holds-cleanup_expired (RulesEntry w.db) w.caches.package_rules c.package_rules now;
      }
