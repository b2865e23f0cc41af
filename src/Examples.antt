-- ===== src/Examples.antt =====
-- Small concrete runs: a platform on whole numbers, a database with one stored order, fresh caches.
mod Handling
mod Succeeding
mod Asking
mod Sending
mod Caching
mod Pooling
mod Replying
mod Notifying
mod Commanding
use pvz_service.Base.{ℕ, ◌+◌, ◌/◌, refl, true, some, [], ◌∷◌, arith, ltb, pos}
use pvz_service.Base.Text.{Text, codes, decimal, text_eq_instance}
use pvz_service.Domain.Order.{Order, in_storage}
use pvz_service.Domain.Platform.{Platform, hour}
use pvz_service.Cache.Lru.{CacheItem, LruCache, new}
use pvz_service.Cache.Lru.Spec.{entries}
use pvz_service.Cache.Lru.Valid.{new-IsValid}
use pvz_service.Db.Tables.{Tables, find_order}
use pvz_service.Db.World.{Caches, World}
use pvz_service.Repository.Cached.Coherent.{
  Holds, Coherent, HistoryEntry, ListEntry, OrderEntry, RulesEntry,
}
use pvz_service.App.Lifecycle.{IsReady}
use pvz_service.App.Outcome.Rows.{IsSound, last_status, UniqueIds}
use pvz_service.App.Service.{Service}
use pvz_service.Grpc.{box}

instance abbrev pub number_platform : Platform ℕ
number_platform = record {
  zero_float = 0;
  add_float = ◌+◌;
  gt_float = λ x y. ltb y x;
  fixed = λ n x. decimal x;
  hours = λ t. t / hour;
  format_date = decimal;
  parse_date = λ s. some 100;
}

abbrev pub stored_order : Order ℕ
stored_order = record {
  order_id = 1;
  receiver_id = 7;
  storage_until = 50;
  status = in_storage;
  accept_time = 3;
  last_update_time = 3;
  package_type = codes "box";
  weight = 2;
  price = 10;
}

abbrev pub shelf : Tables ℕ
shelf = record {
  package_types = (codes "box", record { max_weight = 30; price = 20 }) ∷ [];
  orders = stored_order ∷ [];
  history = record { order_id = 1; status = in_storage; changed_at = 3 } ∷ [];
  outbox = [];
  dlq = [];
}

abbrev pub small : {V : Type 0} → LruCache Text V
small = new (record { max_size = pos 2; ttl = pos 60 })

abbrev pub cold : Caches ℕ
cold = record { orders = small; receivers = small; history = small; package_rules = small }

abbrev pub opening : World ℕ
opening = record {
  db = shelf;
  pending = [];
  caches = cold;
  metrics = [];
  clock = 10;
  ticks = 1 ∷ 2 ∷ [];
  faults = [];
  next_id = 100;
}

abbrev pub counter : Service
counter = record { db_client = true; worker_limit = 4 }

small-Holds : {V : Type 0} (P : CacheItem Text V → Type 0) → Holds P (small {V = V})
unfolding new
small-Holds P = record {
  valid = new-IsValid (record { max_size = pos 2; ttl = pos 60 });
  entries = tt;
}

pub cold-Coherent : (db : Tables ℕ) → Coherent cold db
cold-Coherent db = record {
  orders = small-Holds (OrderEntry db);
  receivers = small-Holds (ListEntry db);
  history = small-Holds (HistoryEntry db);
  package_rules = small-Holds (RulesEntry db);
}

pub shelf-IsSound : IsSound shelf
unfolding UniqueIds find_order last_status
shelf-IsSound = record { unique = (refl, tt); logged = λ id o found. ground arith }

pub opening-IsReady : IsReady opening
opening-IsReady = record { coherent = cold-Coherent shelf; sound = shelf-IsSound }
