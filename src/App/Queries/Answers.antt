-- ===== src/App/Queries/Answers.antt =====
-- What the queries answer, in terms of the committed tables.
use mathlib.Core.Path.{subst}
use mathlib.Core.List.{Perm}
use mathlib.Core.List.Perm
use pvz_service.Base.{
  ℕ, ◌-◌, ◌^◌, ◌≤◌, ◌<◌, ◌≡◌, refl, sym, ap, ◌∙◌, inl, inr, Bool, true, not, ◌||◌, Option, some,
  List, [], ◌∷◌, arith, ltb, leb, ◌==◌, if◌then◌else◌, Bool-cases, length, take, drop, filterb,
  take_of_length-le, length-drop,
}
use pvz_service.Base.Sort.{IsDescending, sort_desc, sort_desc-IsDescending, sort_desc-perm}
use pvz_service.Base.Text.{codes}
use pvz_service.Domain.Order.{Order, ReceiverOrdersRequest, in_storage, same_status}
use pvz_service.Db.Tables.{Tables}
use pvz_service.Db.World.{World}
use pvz_service.Repository.Cached.Coherent.{Coherent}
use pvz_service.Repository.Cached.Faithful.{
  IsFaithful, get_all_orders-IsFaithful, get_by_receiver_id-IsFaithful,
}
use pvz_service.Repository.Cached.Relabel.{map-IsFaithful, relabel-IsFaithful}
use pvz_service.Repository.Orders.{select_all, select_receiver}
use pvz_service.App.Paginate.{slice}
use pvz_service.App.Paginate.Pages.{page_start, paginate-take-drop}
use pvz_service.App.Queries.{
  answer_receiver, filter_in_pvz, get_order_history, get_receiver_orders, last_orders, choose_page,
}

module _ {F : Type 0} where
  -- The orders of a receiver that the request asks for: all of them, or those in storage.
  abbrev pub requested : ReceiverOrdersRequest → Tables F → List (Order F)
  requested req db =
      filterb (λ o. not req.in_pvz || same_status o.status in_storage)
        (filterb (λ o. o.receiver_id == req.receiver_id) db.orders)

  filter_in_pvz-filterb :
      (in_pvz : Bool) (l : List (Order F))
      → filter_in_pvz in_pvz l ≡ filterb (λ o. not in_pvz || same_status o.status in_storage) l
  unfolding filter_in_pvz
  filter_in_pvz-filterb in_pvz [] = refl
  filter_in_pvz-filterb in_pvz (o ∷ l) = ground (arith, filter_in_pvz-filterb in_pvz l)

  last_orders-drop : (n : ℕ) (l : List (Order F)) → last_orders n l ≡ some (drop (length l - n) l)
  unfolding last_orders slice
  last_orders-drop n l = elim (Bool-cases (ltb n (length l))) [
    | inl more ↦
        let start = length l - n in
        let inside : leb start (length l) ≡ true = ground arith in
        let whole : leb (length l) (length l) ≡ true = ground arith in
        let all_of_it : length (drop start l) ≤ length l - start =
          omega (arith, length-drop start l) in
        rw (more, inside, whole, take_of_length-le (length l - start) (drop start l) all_of_it) refl
    | inr few ↦ let start : length l - n ≡ 0 = ground arith in rw (few, start) refl
  ]

  -- The last `last_n` of the requested orders if that is not 0, else the page of them, and their
  -- number.
  abbrev pub page_of : ReceiverOrdersRequest → List (Order F) → Option (List (Order F) × ℕ)
  page_of req all = some (
    (if ltb 0 req.last_n
        then drop (length all - req.last_n) all
        else take req.limit (drop (page_start req.page req.limit) all)),
    length all,
  )

  choose_page-page :
      (req : ReceiverOrdersRequest) (l : List (Order F))
      → req.page < 2 ^ 32
      → req.limit < 2 ^ 32
      → choose_page req l
        ≡ some (
            if ltb 0 req.last_n
            then drop (length l - req.last_n) l
            else take req.limit (drop (page_start req.page req.limit) l))
  unfolding choose_page
  choose_page-page req l hp hl = elim (Bool-cases (ltb 0 req.last_n)) [
    | inl last ↦ rw last (last_orders-drop req.last_n l)
    | inr paged ↦ rw paged (paginate-take-drop l req.page req.limit hp hl)
  ]

  answer_receiver-page :
      (req : ReceiverOrdersRequest) (l : List (Order F))
      → req.page < 2 ^ 32
      → req.limit < 2 ^ 32
      → answer_receiver req l
        ≡ page_of req (filterb (λ o. not req.in_pvz || same_status o.status in_storage) l)
  unfolding answer_receiver
  answer_receiver-page req l hp hl =
      rw
        (
          choose_page-page req (filter_in_pvz req.in_pvz l) hp hl,
          filter_in_pvz-filterb req.in_pvz l,
        )
        refl

  -- On coherent caches and with page and limit below 2^32, what GetReceiverOrders returns is the
  -- last last_n of the committed orders of the receiver that the request asks for, or the page of
  -- them if last_n is 0, with their number; it does not panic, changes no table and keeps the
  -- caches coherent.
  pub get_receiver_orders-answers :
      (req : ReceiverOrdersRequest) (w : World F)
      → Coherent w.caches w.db
      → req.page < 2 ^ 32
      → req.limit < 2 ^ 32
      → let all = requested req w.db in
        IsFaithful
          (λ answer.
            answer
            ≡ some (
              (if ltb 0 req.last_n
                  then drop (length all - req.last_n) all
                  else take req.limit (drop (page_start req.page req.limit) all)),
              length all,
            ))
          w
          (get_receiver_orders req w)
  unfolding get_receiver_orders answer_receiver select_receiver
  get_receiver_orders-answers req w c hp hl =
      map-IsFaithful _ _ (answer_receiver req) w _
        (λ v same. answer_receiver-page req v hp hl ∙ ap (page_of req) (ap (filterb _) same))
        (relabel-IsFaithful _ (codes "repo.GetByReceiverID") w _
          (get_by_receiver_id-IsFaithful req.receiver_id w c))

  -- On coherent caches, what GetOrderHistory returns is all committed orders, each once, with no
  -- order before one that changed later; it changes no table and keeps the caches coherent.
  pub get_order_history-sorted :
      (w : World F)
      → Coherent w.caches w.db
      → IsFaithful
          (λ l. IsDescending (λ o. o.last_update_time) l × Perm l w.db.orders)
          w
          (get_order_history w)
  unfolding get_order_history select_all
  get_order_history-sorted w c =
      let key = λ (o : Order F). o.last_update_time in
      map-IsFaithful _ (λ l. IsDescending key l × Perm l w.db.orders) (sort_desc key) w _
        (λ v same. (
          sort_desc-IsDescending key v,
          Perm.trans (sort_desc-perm key v)
              (subst (λ l. Perm l w.db.orders) (sym same) (sort_desc-perm key w.db.orders)),
        ))
        (relabel-IsFaithful _ (codes "repo.GetAllOrders") w _ (get_all_orders-IsFaithful w c))
