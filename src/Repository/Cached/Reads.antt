-- ===== src/Repository/Cached/Reads.antt =====
-- The reading methods of the cached repository return what the database would.
use pvz_service.Base.{◌≡◌, refl, ap, ◌∙◌, Option, none, some, [], ◌∷◌, ◌++◌}
use mathlib.Core.Path.{ap₂, subst}
use pvz_service.Base.Text.{Text, codes, text_eq_instance}
use pvz_service.Cache.Lru
use pvz_service.Cache.Lru.{LruCache, CacheItem}
use pvz_service.Cache.Lru.Entries.{Found}
use pvz_service.Db.World.{
  World, Caches, Exec, Result, ok, err, continue, ◌>>◌, time_now, count_metric, ok_injective,
  cache_hit, later, rest_of,
}
use pvz_service.Repository.Cached.{Slot, put_back, cache_get, cache_set, hit_or_miss, read_through}
use pvz_service.Repository.Cached.Coherent.{Holds, Holds-get, Holds-set, ReadsAs, LoadsAs}

module _ {F V : Type 0} (s : Slot F V)
    (read-store : (c : LruCache Text V) (x : Caches F) → s.read (s.store c x) ≡ c)
    (store-store : (c d : LruCache Text V) (x : Caches F) → s.store c (s.store d x) ≡ s.store c x)
    (P : CacheItem Text V → Type 0) (key : Text) (load : Exec F V) where
  miss_loaded :
      (w w1 : World F) (c : LruCache Text V) (out : Result V × World F)
      → w1.db ≡ w.db
      → w1.pending ≡ w.pending
      → w1.caches ≡ s.store c w.caches
      → Holds P c
      → LoadsAs P key w1 out
      → ReadsAs s P key w (continue out (λ value. do cache_set s key value; λ w'. (ok value, w')))
  unfolding cache_set time_now
  miss_loaded w w1 c (ok v, w2) db pending caches h l =
      let now = later w2.clock w2.ticks in
      let old : s.read w2.caches ≡ c = ap s.read (l.same_caches ∙ caches) ∙ read-store c w.caches in
      let p = l.value v refl now in
      record {
        same_db = l.same_db ∙ db;
        same_pending = l.same_pending ∙ pending;
        cache = Lru.set c now key v;
        stored =
            ap₂ (λ (x : LruCache Text V) (y : Caches F). s.store (Lru.set x now key v) y) old
              (l.same_caches ∙ caches)
            ∙ store-store (Lru.set c now key v) c w.caches;
        holds = Holds-set P c key h now v p;
        value =
            λ v' e. (record { key = key; value = v; created_at = now }, p, refl, ok_injective e);
      }
  miss_loaded w w1 c (err e, w2) db pending caches h l = record {
    same_db = l.same_db ∙ db;
    same_pending = l.same_pending ∙ pending;
    cache = c;
    stored = l.same_caches ∙ caches;
    holds = h;
    value = λ v' bad. cc;
  }

  hit_or_miss-ReadsAs :
      (w w1 : World F) (c : LruCache Text V) (r : Option V)
      → w1.db ≡ w.db
      → w1.pending ≡ w.pending
      → w1.caches ≡ s.store c w.caches
      → Holds P c
      → ((v : V) → r ≡ some v → Found P key v)
      → ((w' : World F) → w'.db ≡ w.db → LoadsAs P key w' (load w'))
      → ReadsAs s P key w (hit_or_miss s key load r w1)
  unfolding count_metric
  hit_or_miss-ReadsAs w w1 c (some v) db pending caches h found loads = record {
    same_db = db;
    same_pending = pending;
    cache = c;
    stored = caches;
    holds = h;
    value = λ v' e. subst (λ (u : V). Found P key u) (ok_injective e) (found v refl);
  }
  hit_or_miss-ReadsAs w w1 c none db pending caches h found loads =
      let w2 = record w1 { metrics = w1.metrics ++ cache_hit s.name (codes "miss") ∷ [] } in
      miss_loaded w w2 c (load w2) db pending caches h (loads w2 db)

  -- A read through a cache that holds `P` returns a value of which `P` holds, and keeps `P`.
  pub read_through-ReadsAs :
      (w : World F)
      → Holds P (s.read w.caches)
      → ((w' : World F) → w'.db ≡ w.db → LoadsAs P key w' (load w'))
      → ReadsAs s P key w (read_through s key load w)
  unfolding read_through cache_get time_now
  read_through-ReadsAs w h loads =
      let now = later w.clock w.ticks in
      let (kept, found) = Holds-get P (s.read w.caches) key h now in
      let (c, r) = Lru.get (s.read w.caches) now key in
      hit_or_miss-ReadsAs w (put_back s c (record w { clock = now; ticks = rest_of w.ticks })) c r
        refl refl refl kept found loads
