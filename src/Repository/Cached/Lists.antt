-- ===== src/Repository/Cached/Lists.antt =====
-- The reading methods of internal/repository/postgres/cached_order_repo.go that return lists, together.
use pvz_service.Base.Text.{Text}
use pvz_service.Db.World.{World}
use pvz_service.Repository.Cached
use pvz_service.Repository.Cached.Coherent.{Coherent}
