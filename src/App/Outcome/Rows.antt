-- ===== src/App/Outcome/Rows.antt =====
-- The primary key of the orders, and the history as the record of their statuses.
use pvz_service.Base.{
  ℕ, ◌≡◌, refl, ap, inl, inr, Option, none, some, List, [], ◌∷◌, ◌++◌, arith, ◌==◌, if◌then◌else◌,
  Bool-cases, All,
}
use pvz_service.Domain.Event.{OutboxMessage}
use pvz_service.Domain.Order.{Order, OrderHistory, OrderStatus, same_status}
use pvz_service.Cache.Lru.{new}
use pvz_service.Db.Tables.{
  Tables, find_order, replace_order, apply, apply_all, change_order, put_history, put_order,
  put_outbox,
}
use pvz_service.Repository.Orders.Rows.{find_order-append, find_order-replace}

-- The status of the last record of an order, in the order in which the records were written.
unfoldable pub last_status : ℕ → List OrderHistory → Option OrderStatus
last_status id [] = none
last_status id (h ∷ l) =
    let rest = last_status id l in
    elim rest [ some s ↦ some s | none ↦ if h.order_id == id then some h.status else none ]

last_status-append :
    (id : ℕ) (l : List OrderHistory) (r : OrderHistory)
    → last_status id (l ++ r ∷ []) ≡ (if r.order_id == id then some r.status else last_status id l)
unfolding last_status
last_status-append id [] r = ground arith
last_status-append id (h ∷ l) r = ground (arith, last_status-append id l r)

module _ {F : Type 0} where
  -- No two rows have one identifier.
  unfoldable pub UniqueIds : List (Order F) → Type 0
  UniqueIds [] = Unit
  UniqueIds (o ∷ l) = (find_order o.order_id l ≡ none) × UniqueIds l

  UniqueIds-append :
      (l : List (Order F)) (o : Order F)
      → UniqueIds l
      → find_order o.order_id l ≡ none
      → UniqueIds (l ++ o ∷ [])
  unfolding UniqueIds find_order
  UniqueIds-append [] o u h = (refl, tt)
  UniqueIds-append (x ∷ l) o u h =
      let apart : find_order x.order_id (l ++ o ∷ []) ≡ none =
        ground (arith, find_order-append x.order_id l o, u.0) in
      (apart, UniqueIds-append l o u.1 (ground arith))

  UniqueIds-replace :
      (l : List (Order F)) (o : Order F) → UniqueIds l → UniqueIds (replace_order o l)
  unfolding UniqueIds replace_order
  UniqueIds-replace [] o u = tt
  UniqueIds-replace (x ∷ l) o u =
      let rest = UniqueIds-replace l o u.1 in
      elim (Bool-cases (x.order_id == o.order_id)) [
        | inl e ↦
            let same : x.order_id ≡ o.order_id = ground arith in
            let none_left : find_order o.order_id l ≡ none = cc (u.0, same) in
            let apart : find_order o.order_id (replace_order o l) ≡ none =
              rw (find_order-replace o.order_id l o, none_left) refl in
            rw e (apart, rest)
        | inr e ↦
            let apart : find_order x.order_id (replace_order o l) ≡ none =
              rw (find_order-replace x.order_id l o, u.0) refl in
            rw e (apart, rest)
      ]

  absent_elsewhere :
      (id r : ℕ) (l : List (Order F))
      → find_order id l ≡ none
      → All (λ x. x.order_id ≡ id → x.receiver_id ≡ r) l
  unfolding find_order
  absent_elsewhere id r [] h = tt
  absent_elsewhere id r (x ∷ l) h = elim (Bool-cases (x.order_id == id)) [
    | inl e ↦ absurd (ground arith)
    | inr e ↦ (λ same. absurd (ground arith), absent_elsewhere id r l (ground arith))
  ]

  -- The one row of an identifier has its receiver.
  pub UniqueIds-KeepsReceiver :
      (id : ℕ) (l : List (Order F)) (o : Order F)
      → UniqueIds l
      → find_order id l ≡ some o
      → All (λ x. x.order_id ≡ id → x.receiver_id ≡ o.receiver_id) l
  unfolding UniqueIds find_order
  UniqueIds-KeepsReceiver id [] o u h = tt
  UniqueIds-KeepsReceiver id (x ∷ l) o u h = elim (Bool-cases (x.order_id == id)) [
    | inl e ↦
        let same : x.order_id ≡ id = ground arith in
        let found : some x ≡ some o = ground arith in
        let row : x ≡ o = cc in
        (
          λ _. ap (λ (y : Order F). y.receiver_id) row,
          absent_elsewhere id o.receiver_id l (cc (u.0, same)),
        )
    | inr e ↦ (λ same. absurd (ground arith), UniqueIds-KeepsReceiver id l o u.1 (ground arith))
  ]

  -- The tables are sound: the identifiers of the orders are unique, and the last history record of
  -- each order has the status of its row.
  pub record IsSound (db : Tables F) : Type 0 where
    pub unique : UniqueIds db.orders
    pub logged :
        (id : ℕ) (o : Order F)
        → find_order id db.orders ≡ some o
        → last_status id db.history ≡ some o.status

  -- Both changes of an order keep the tables sound.
  pub inserted-IsSound :
      (o : Order F) (h : OrderHistory) (m : OutboxMessage) (db : Tables F)
      → IsSound db
      → find_order o.order_id db.orders ≡ none
      → h.order_id ≡ o.order_id
      → h.status ≡ o.status
      → IsSound (apply_all (put_order o ∷ put_history h ∷ put_outbox m ∷ []) db)
  unfolding apply_all apply
  inserted-IsSound o h m db sound new same_id same_status = record {
    unique = UniqueIds-append db.orders o sound.unique new;
    logged = λ id x found. ground (
      arith,
      last_status-append id db.history h,
      find_order-append id db.orders o,
      sound.logged id x,
    );
  }

  pub updated-IsSound :
      (o : Order F) (h : OrderHistory) (m : OutboxMessage) (db : Tables F)
      → IsSound db
      → h.order_id ≡ o.order_id
      → h.status ≡ o.status
      → IsSound (apply_all (change_order o ∷ put_history h ∷ put_outbox m ∷ []) db)
  unfolding apply_all apply
  updated-IsSound o h m db sound same_id same_status = record {
    unique = UniqueIds-replace db.orders o sound.unique;
    logged = λ id x found. ground (
      arith,
      last_status-append id db.history h,
      find_order-replace id db.orders o,
      sound.logged id x,
    );
  }
