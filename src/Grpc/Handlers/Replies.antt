-- ===== src/Grpc/Handlers/Replies.antt =====
-- What the reading handlers reply, in terms of the committed tables.
use mathlib.Core.List.{map, Perm}
use pvz_service.Base.{
  ◌-◌, ◌%◌, ◌^◌, ◌<◌, ◌≡◌, ap, Option, none, some, List, arith, ltb, if◌then◌else◌, length, take,
  drop,
}
use pvz_service.Base.Sort.{IsDescending}
use pvz_service.Domain.Order.{Order}
use pvz_service.Db.World.{World}
use pvz_service.Repository.Cached.Coherent.{Coherent}
use pvz_service.Repository.Cached.Faithful.{IsFaithful}
use pvz_service.Repository.Cached.Relabel.{map-IsFaithful}
use pvz_service.App.Paginate.Pages.{page_start, paginate-take-drop}
use pvz_service.App.Queries.Answers.{get_order_history-sorted}
use pvz_service.Grpc.Handlers.{
  Floats, ListOrdersMessage, OrdersList, Pagination, history_of_order, map_domain_order_to_proto,
  number_or_0, page_limit, page_number,
}
use pvz_service.Grpc.Handlers.Rpc.{get_history_call, history_listed, history_page}

-- The numbers of a pagination are below 2^32.
abbrev pub IsUint32 : Option Pagination → Type 0
IsUint32 none = Unit
IsUint32 (some p) = (p.page < 2 ^ 32) × (p.count_on_page < 2 ^ 32)

IsUint32-bounds :
    (p : Option Pagination) → IsUint32 p → (page_number p < 2 ^ 32) × (page_limit p < 2 ^ 32)
IsUint32-bounds none h = (omega arith, omega arith)
IsUint32-bounds (some p) h = h

-- The page that a request asks for; none of it without a pagination.
abbrev pub asked_page : {A : Type 0} → Option Pagination → List A → List A
asked_page pagination items =
    take (page_limit pagination)
      (drop (page_start (page_number pagination) (page_limit pagination)) items)

module _ {S F : Type 0} (floats : Floats S F) where
  -- What ListOrders replies: the last `last_n` of the requested orders, or the page of them.
  abbrev pub orders_reply : ListOrdersMessage → List (Order F) → OrdersList S
  orders_reply req all = record {
    orders = map (map_domain_order_to_proto floats) (
        if ltb 0 (number_or_0 req.last_n)
        then drop (length all - number_or_0 req.last_n) all
        else asked_page req.pagination all);
    total = length all % 2 ^ 32;
  }

module _ {F : Type 0} where
  -- On coherent caches and with a pagination of uint32 numbers, GetHistory does not panic: what it
  -- replies is the page of a list of all committed orders, each once, the last changed first. It
  -- changes no table and keeps the caches coherent.
  pub get_history_call-replies :
      (pagination : Option Pagination) (w : World F)
      → Coherent w.caches w.db
      → IsUint32 pagination
      → IsFaithful
          (λ reply.
            (l : List (Order F)) × (IsDescending (λ o. o.last_update_time) l × Perm l w.db.orders)
            × (reply ≡ some (map history_of_order (asked_page pagination l))))
          w
          (get_history_call pagination w)
  unfolding get_history_call history_page
  get_history_call-replies pagination w c small_page =
      let (page_fits, limit_fits) = IsUint32-bounds pagination small_page in
      map-IsFaithful _ _ (history_page pagination) w _
        (λ l sorted. (
          l,
          sorted,
          ap history_listed (
              paginate-take-drop l (page_number pagination) (page_limit pagination) page_fits
                limit_fits),
        ))
        (get_order_history-sorted w c)
