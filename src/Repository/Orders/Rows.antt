-- ===== src/Repository/Orders/Rows.antt =====
-- What an insert or an update of one order leaves as it was in the other selections.
use pvz_service.Base.{
  ℕ, ◌≡◌, refl, ap, ◌≢◌, Bool, false, none, some, List, [], ◌∷◌, ◌++◌, arith, ◌==◌, if◌then◌else◌,
  filterb, All,
}
use pvz_service.Domain.Order.{Order, OrderHistory}
use pvz_service.Base.Sort.{sort_desc}
use pvz_service.Base.Text.{Text}
use pvz_service.Db.Tables.{
  Tables, put_order, change_order, put_history, find_order, replace_order, apply,
}
use pvz_service.Repository.Orders.{select_receiver, select_history, select_rules}

filter-append_history :
    (id : ℕ) (l : List OrderHistory) (r : OrderHistory)
    → id ≢ r.order_id
    → filterb (λ h. h.order_id == id) (l ++ r ∷ []) ≡ filterb (λ h. h.order_id == id) l
filter-append_history id [] r h = ground arith
filter-append_history id (x ∷ l) r h = rw (filter-append_history id l r h)

module _ {F : Type 0} where
  pub find_order-append :
      (id : ℕ) (l : List (Order F)) (o : Order F)
      → find_order id (l ++ o ∷ []) ≡ elim (find_order id l) [
        | some x ↦ some x
        | none ↦ if o.order_id == id then some o else none
      ]
  unfolding find_order
  find_order-append id [] o = refl
  find_order-append id (x ∷ l) o = ground (arith, find_order-append id l o)

  pub find_order-replace :
      (id : ℕ) (l : List (Order F)) (o : Order F)
      → find_order id (replace_order o l) ≡ elim (find_order id l) [
        | none ↦ none
        | some x ↦ if o.order_id == id then some o else some x
      ]
  unfolding find_order replace_order
  find_order-replace id [] o = refl
  find_order-replace id (x ∷ l) o = ground (arith, find_order-replace id l o)

  pub find_order-id :
      (id : ℕ) (l : List (Order F)) (o : Order F) → find_order id l ≡ some o → o.order_id ≡ id
  unfolding find_order
  find_order-id id [] o h = cc
  find_order-id id (x ∷ l) o h = ground (arith, find_order-id id l o)

  filter-append_other :
      (p : Order F → Bool) (l : List (Order F)) (o : Order F)
      → p o ≡ false
      → filterb p (l ++ o ∷ []) ≡ filterb p l
  filter-append_other p [] o h = rw h
  filter-append_other p (x ∷ l) o h = rw (filter-append_other p l o h)

  -- Every row of this identifier has the receiver of `o`.
  abbrev pub KeepsReceiver : Order F → List (Order F) → Type 0
  KeepsReceiver o l = All (λ x. x.order_id ≡ o.order_id → x.receiver_id ≡ o.receiver_id) l

  filter-replace_other :
      (r : ℕ) (l : List (Order F)) (o : Order F)
      → KeepsReceiver o l
      → r ≢ o.receiver_id
      → filterb (λ x. x.receiver_id == r) (replace_order o l) ≡ filterb (λ x. x.receiver_id == r) l
  unfolding replace_order
  filter-replace_other r [] o k h = refl
  filter-replace_other r (x ∷ l) o k h = ground (arith, filter-replace_other r l o k.1 h, k.0)

  -- The tables agree on all that the caches hold but the lists over all orders, the order and the
  -- history of one identifier, and the list of one receiver.
  pub record AgreeBut (id receiver : ℕ) (db db' : Tables F) : Type 0 where
    pub orders : (j : ℕ) → j ≢ id → find_order j db'.orders ≡ find_order j db.orders
    pub receivers : (r : ℕ) → r ≢ receiver → select_receiver r db' ≡ select_receiver r db
    pub history : (j : ℕ) → j ≢ id → select_history j db' ≡ select_history j db
    pub package_rules : (code : Text) → select_rules code db' ≡ select_rules code db

  pub AgreeBut-refl : (id r : ℕ) (db : Tables F) → AgreeBut id r db db
  AgreeBut-refl id r db = record {
    orders = λ j h. refl;
    receivers = λ q h. refl;
    history = λ j h. refl;
    package_rules = λ code. refl;
  }

  pub put_order-AgreeBut :
      (o : Order F) (db : Tables F) → AgreeBut o.order_id o.receiver_id db (apply (put_order o) db)
  unfolding apply select_receiver select_history select_rules
  put_order-AgreeBut o db = record {
    orders = λ j h. ground (arith, find_order-append j db.orders o);
    receivers = λ r h. filter-append_other (λ x. x.receiver_id == r) db.orders o (ground arith);
    history = λ j h. refl;
    package_rules = λ code. refl;
  }

  pub change_order-AgreeBut :
      (o : Order F) (db : Tables F)
      → KeepsReceiver o db.orders
      → AgreeBut o.order_id o.receiver_id db (apply (change_order o) db)
  unfolding apply select_receiver select_history select_rules
  change_order-AgreeBut o db keeps = record {
    orders = λ j h. ground (arith, find_order-replace j db.orders o);
    receivers = λ r h. filter-replace_other r db.orders o keeps h;
    history = λ j h. refl;
    package_rules = λ code. refl;
  }

  -- A history record changes the history of its own order only.
  pub put_history-others :
      (r : OrderHistory) (db : Tables F) (id : ℕ)
      → id ≢ r.order_id
      → select_history id (apply (put_history r) db) ≡ select_history id db
  unfolding apply select_history
  put_history-others r db id h =
      ap (sort_desc (λ (x : OrderHistory). x.changed_at)) (filter-append_history id db.history r h)
