-- ===== src/Repository/Cached/Coherent.antt =====
-- A cache is coherent with the tables if each entry is what its query would select.
use pvz_service.Base.{ℕ, ◌≡◌, ◌≢◌, ◌⊎◌, some, List, All}
use pvz_service.Base.Text.{Text, text_eq_instance}
use pvz_service.Domain.Order.{Order, OrderHistory, PackageRules}
use pvz_service.Cache.Lru
use pvz_service.Cache.Lru.{LruCache, CacheItem}
use pvz_service.Cache.Lru.Spec.{view}
use pvz_service.Cache.Lru.Valid.{IsValid, get-IsValid, set-IsValid, delete-IsValid}
use pvz_service.Cache.Lru.Entries.{Found, get-All, set-All, delete-All}
use pvz_service.Db.Tables.{Tables, find_order}
use pvz_service.Db.World.{World, Caches, Result, ok}
use pvz_service.Repository.Orders.{
  select_receiver, select_returned, select_all, select_history, select_rules,
}
use pvz_service.Repository.Cached.{
  order_key, receiver_key, returned_key, all_key, history_key, rules_key, Slot,
}

module _ {F : Type 0} (db : Tables F) where
  -- What an entry of each cache says of the tables.
  abbrev pub OrderEntry : CacheItem Text (Order F) → Type 0
  OrderEntry x = (id : ℕ) × (x.key ≡ order_key id) × (find_order id db.orders ≡ some x.value)

  abbrev pub ListEntry : CacheItem Text (List (Order F)) → Type 0
  ListEntry x =
      ((r : ℕ) × (x.key ≡ receiver_key r) × (x.value ≡ select_receiver r db))
      ⊎ ((x.key ≡ returned_key) × (x.value ≡ select_returned db))
      ⊎ ((x.key ≡ all_key) × (x.value ≡ select_all db))

  abbrev pub HistoryEntry : CacheItem Text (List OrderHistory) → Type 0
  HistoryEntry x = (id : ℕ) × (x.key ≡ history_key id) × (x.value ≡ select_history id db)

  abbrev pub RulesEntry : CacheItem Text (List (PackageRules F)) → Type 0
  RulesEntry x = (code : Text) × (x.key ≡ rules_key code) × (x.value ≡ select_rules code db)

-- A cache that is valid and whose entries all satisfy a predicate.
pub record Holds {V : Type 0} (P : CacheItem Text V → Type 0) (c : LruCache Text V) : Type 0 where
  pub valid : IsValid c
  pub entries : All P (view c)

pub record Coherent {F : Type 0} (c : Caches F) (db : Tables F) : Type 0 where
  pub orders : Holds (OrderEntry db) c.orders
  pub receivers : Holds (ListEntry db) c.receivers
  pub history : Holds (HistoryEntry db) c.history
  pub package_rules : Holds (RulesEntry db) c.package_rules

module _ {V : Type 0} (P : CacheItem Text V → Type 0) (c : LruCache Text V) (k : Text)
    (h : Holds P c) where
  pub Holds-get :
      (now : ℕ)
      → Holds P (Lru.get c now k).0 × ((v : V) → (Lru.get c now k).1 ≡ some v → Found P k v)
  Holds-get now =
      let (kept, found) = get-All P c k h.valid h.entries now in
      (record { valid = get-IsValid c k now h.valid; entries = kept }, found)

  pub Holds-set :
      (now : ℕ) (v : V)
      → P (record { key = k; value = v; created_at = now })
      → Holds P (Lru.set c now k v)
  Holds-set now v p = record {
    valid = set-IsValid c k now v h.valid;
    entries = set-All P c k h.valid h.entries now v p;
  }

  pub Holds-delete :
      (Q : CacheItem Text V → Type 0)
      → ((x : CacheItem Text V) → x.key ≢ k → P x → Q x)
      → Holds Q (Lru.delete c k)
  Holds-delete Q f = record {
    valid = delete-IsValid c k h.valid;
    entries = delete-All P c k h.valid h.entries Q f;
  }

-- A reading method as it ended: it changed no table and no pending write, the cache of its slot holds
-- what it held, and a value that it returned is one that such an entry has.
pub record ReadsAs {F V : Type 0} (s : Slot F V) (P : CacheItem Text V → Type 0) (key : Text)
    (w : World F) (out : Result V × World F) : Type 0 where
  pub same_db : out.1.db ≡ w.db
  pub same_pending : out.1.pending ≡ w.pending
  pub cache : LruCache Text V
  pub stored : out.1.caches ≡ s.store cache w.caches
  pub holds : Holds P cache
  pub value : (v : V) → out.0 ≡ ok v → Found P key v

-- A load from the database: it touches no cache and no table, and returns what an entry may hold.
pub record LoadsAs {F V : Type 0} (P : CacheItem Text V → Type 0) (key : Text) (w : World F)
    (out : Result V × World F) : Type 0 where
  pub same_db : out.1.db ≡ w.db
  pub same_pending : out.1.pending ≡ w.pending
  pub same_caches : out.1.caches ≡ w.caches
  pub value :
      (v : V) → out.0 ≡ ok v → (now : ℕ) → P (record { key = key; value = v; created_at = now })
