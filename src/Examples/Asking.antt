-- ===== src/Examples/Asking.antt =====
-- Reads and pages on the shelf.
use pvz_service.Base.{
  ℕ, ◌+◌, ◌-◌, ◌*◌, ◌^◌, ◌<◌, ◌≡◌, refl, ◌≢◌, ◌↔◌, true, none, some, List, [], ◌∷◌, ◌==◌,
  if◌then◌else◌, length,
}
use pvz_service.Base.Text.{codes, text_eq}
use pvz_service.Domain.Order.{get_status_string}
use pvz_service.Db.Tables.{find_order}
use pvz_service.Db.World.{ok}
use pvz_service.Repository.Cached
use pvz_service.Repository.Cached.Faithful.{IsFaithful, get_by_id-IsFaithful}
use pvz_service.App.Paginate.{paginate, u64}
use pvz_service.App.Paginate.Wrap.{paginate-panics}
use pvz_service.Admin.{Request, Site, atoi, max_int, route_cleanup, route_clear, route_resize}
use pvz_service.Admin.Kept.{IsKept, serve_all, serve_all-IsKept}
use pvz_service.Cli.Ids.{parse_digits}
use pvz_service.Examples.{number_platform, cold-Coherent, opening, shelf}
use pvz_service.Metrics.{
  Values, count_status, count_statuses, refresh_order_status_metrics, set_gauge,
  update_order_status_metrics, value_of,
}
use pvz_service.Metrics.Gauge.{refresh-value_of, with_status}

get_by_id-IsFaithful_example :
    IsFaithful (λ o. find_order 1 shelf.orders ≡ some o) opening (Cached.get_by_id 1 opening)
get_by_id-IsFaithful_example = get_by_id-IsFaithful 1 opening (cold-Coherent shelf)

abbrev five : List ℕ
five = 10 ∷ 20 ∷ 30 ∷ 40 ∷ 50 ∷ []

paginate-panics_example : (paginate five 3 (2 ^ 63) ≡ none) ↔ (
    (2 ^ 63 ≢ 0)
    × (u64 (((if 3 == 0 then 1 else 3) - 1) * 2 ^ 63) < length five)
    × (u64 (u64 (((if 3 == 0 then 1 else 3) - 1) * 2 ^ 63) + 2 ^ 63)
        < u64 (((if 3 == 0 then 1 else 3) - 1) * 2 ^ 63)))
paginate-panics_example = paginate-panics five 3 (2 ^ 63)

-- The gauge from a time when two orders had been handed out.
abbrev old_gauge : Values
old_gauge = (codes "In Storage", 4) ∷ (codes "Given to client", 2) ∷ []

refresh-value_of_example :
    value_of (codes "In Storage") (refresh_order_status_metrics (ok shelf.orders) old_gauge) ≡ (
      if with_status (codes "In Storage") shelf.orders == 0
      then value_of (codes "In Storage") old_gauge
      else some (with_status (codes "In Storage") shelf.orders))
refresh-value_of_example = refresh-value_of (codes "In Storage") shelf.orders old_gauge

-- No order is handed out now, and the gauge shows two all the same.
stale_gauge :
    value_of (codes "Given to client") (refresh_order_status_metrics (ok shelf.orders) old_gauge)
    ≡ some 2
unfolding value_of refresh_order_status_metrics update_order_status_metrics count_statuses set_gauge
    count_status get_status_string text_eq
stale_gauge = refl

abbrev asked_of_admin : List Request
asked_of_admin =
    record { route = route_resize; method = codes "POST"; workers = codes "8" }
    ∷ record { route = route_cleanup; method = codes "POST"; workers = [] }
    ∷ record { route = route_clear; method = codes "GET"; workers = [] }
    ∷ []

abbrev opening_site : Site ℕ
opening_site = record { world = opening; resized = [] }

serve_all-IsKept_example : IsKept opening_site (serve_all true asked_of_admin opening_site)
serve_all-IsKept_example = serve_all-IsKept true asked_of_admin opening_site (cold-Coherent shelf)

-- A number that is too large is cut to the largest `int`.
too_many_workers : atoi (codes "99999999999999999999") ≡ max_int
unfolding atoi parse_digits
too_many_workers = refl
