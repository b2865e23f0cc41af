-- ===== src/Examples/Caching.antt =====
-- A cache of two entries, filled.
use pvz_service.Base.{nat_eq, arith, ℕ, ◌≡◌, pos}
use pvz_service.Base.Text.{text_eq_instance}
use pvz_service.Cache.Lru
use pvz_service.Cache.Lru.{LruCache, new, delete_prefix, has_prefix}
use pvz_service.Cache.Lru.Cleanup.{Trims, cleanup_expired-Trims}
use pvz_service.Cache.Lru.Refine.{get-spec_get, set-spec_set}
use pvz_service.Cache.Lru.Spec.{spec_get, spec_set, view}
use pvz_service.Cache.Lru.Valid.{new-IsValid, set-IsValid, IsValid}

abbrev filled : LruCache ℕ ℕ
filled = Lru.set (Lru.set (new (record { max_size = pos 2; ttl = pos 60 })) 5 1 100) 6 2 200

filled-IsValid : IsValid filled
filled-IsValid =
    set-IsValid (Lru.set (new (record { max_size = pos 2; ttl = pos 60 })) 5 1 100) 2 6 200 (
      set-IsValid (new (record { max_size = pos 2; ttl = pos 60 })) 1 5 100
        (new-IsValid (record { max_size = pos 2; ttl = pos 60 })))

get-spec_get_example :
    (view (Lru.get filled 10 1).0, (Lru.get filled 10 1).1) ≡ spec_get filled.ttl 10 1 (view filled)
get-spec_get_example = get-spec_get filled 1 10 filled-IsValid

set-spec_set_example :
    view (Lru.set filled 10 3 300) ≡ spec_set filled.max_size 10 3 300 (view filled)
set-spec_set_example = set-spec_set filled 3 10 300 filled-IsValid

cleanup_expired-Trims_example :
    IsValid (Lru.cleanup_expired filled 100)
    × Trims filled.ttl 100 (view filled) (view (Lru.cleanup_expired filled 100))
unfolding Lru.set new
cleanup_expired-Trims_example = cleanup_expired-Trims filled 100 filled-IsValid (omega arith)
