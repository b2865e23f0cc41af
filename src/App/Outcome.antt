-- ===== src/App/Outcome.antt =====
-- How an operation of the service on one order ends, and what a change of an order is: the order
-- row, its history record and the event of the outbox, all three or none.
pub mod Rows
use mathlib.Core.Path.{subst}
use pvz_service.Base.{ℕ, ◌≡◌, refl, sym, ◌⊎◌, inl, inr, some, [], ◌∷◌, All}
use pvz_service.Domain.Error.{Error}
use pvz_service.Domain.Event.{Actor, EventType, OrderInfo, new_event}
use pvz_service.Domain.Order.{OrderHistory, Order}
use pvz_service.Db.Client.{with_transaction}
use pvz_service.Db.Client.Transaction.{begun}
use pvz_service.Db.Tables.{
  Tables, Write, apply_all, put_history, put_outbox, change_order, find_order,
}
use pvz_service.Db.World.{Result, World, err, ok, Exec}
use pvz_service.Repository.Cached.Coherent.{Coherent}
use pvz_service.Repository.Cached.Steps.{TxStep}
use pvz_service.Repository.Orders.Rows.{KeepsReceiver}
use pvz_service.App.Outcome.Rows.{IsSound, UniqueIds-KeepsReceiver}
use pvz_service.App.Record.{
  Stored, new_message, Updated, update_in_tx-TxStep, with_transaction-Stored,
}
use pvz_service.App.Service.{update_in_tx}

module _ {F : Type 0} where
  -- The three writes of a change took the tables from `db` to `db'`.
  pub record Changed (x : Write F) (h : OrderHistory) (type : EventType) (actor : Actor)
      (info : OrderInfo) (db db' : Tables F) : Type 0 where
    pub uuid : ℕ
    pub stamped_at : ℕ
    pub message_id : ℕ
    pub saved_at : ℕ
    pub rows :
        let event = new_event uuid stamped_at type actor info in
        db'
        ≡ apply_all (x ∷ put_history h ∷ put_outbox (new_message message_id event saved_at) ∷ []) db

  -- An operation that ran on the tables `db`: the caches fit the tables that it left, and it
  -- reported an error and changed no table, or returned a value and `Success` holds of it.
  pub record OperationEnds {A : Type 0} (Success : A → Tables F → Type 0) (db : Tables F)
      (out : Result A × World F) : Type 0 where
    pub coherent : Coherent out.1.caches out.1.db
    pub ended :
        (((e : Error) × (out.0 ≡ err e)) × (out.1.db ≡ db))
        ⊎ ((a : A) × ((out.0 ≡ ok a) × Success a out.1.db))

  pub OperationEnds-error :
      {A : Type 0} (Success : A → Tables F → Type 0) (db : Tables F) (e : Error) (w : World F)
      → Coherent w.caches db
      → w.db ≡ db
      → OperationEnds Success db (err e, w)
  OperationEnds-error Success db e w c same = record {
    coherent = subst (λ (d : Tables F). Coherent w.caches d) (sym same) c;
    ended = inl ((e, refl), same);
  }

  -- A transaction that recorded a change.
  pub Stored-Changed :
      {Fits : Type 0} (x : Write F) (h : OrderHistory) (uuid at : ℕ) (type : EventType)
      (actor : Actor) (info : OrderInfo) (w : World F) (out : Result (Unit {0}) × World F)
      → Stored x h (new_event uuid at type actor info) Fits w out
      → OperationEnds (λ _ db'. Fits × Changed x h type actor info w.db db') w.db out
  Stored-Changed x h uuid at type actor info w out stored = record {
    coherent = stored.coherent;
    ended = elim stored.ended [
      | inl same ↦ inl same
      | inr (fine, (fits, (id, (now, rows)))) ↦ inr (
        tt,
        (
          fine,
          (
            fits,
            record { uuid = uuid; stamped_at = at; message_id = id; saved_at = now; rows = rows },
          ),
        ),
      )
    ];
  }

  pub OperationEnds-map :
      {A : Type 0} (P Q : A → Tables F → Type 0) (db : Tables F) (out : Result A × World F)
      → ((a : A) (d : Tables F) → P a d → Q a d)
      → OperationEnds P db out
      → OperationEnds Q db out
  OperationEnds-map P Q db out f ends = record {
    coherent = ends.coherent;
    ended = elim ends.ended [ inl same ↦ inl same | inr (a, (fine, p)) ↦ inr (a, (fine, f a _ p)) ];
  }

  -- A transaction around `update_in_tx`, with more steps in it perhaps, after reads that changed no
  -- table: the order `o` takes the place of a row with its identifier and receiver.
  pub update-ends :
      (id : ℕ) (o old : Order F) (h : OrderHistory) (uuid at : ℕ) (type : EventType) (actor : Actor)
      (info : OrderInfo) (fn : Exec F (Unit {0})) (db : Tables F) (w : World F)
      → w.db ≡ db
      → Coherent w.caches db
      → IsSound db
      → find_order id db.orders ≡ some old
      → o.order_id ≡ id
      → old.receiver_id ≡ o.receiver_id
      → (TxStep
            (Updated o h (new_event uuid at type actor info) w)
            (begun w)
            (update_in_tx o h (new_event uuid at type actor info) (begun w))
          → TxStep (Updated o h (new_event uuid at type actor info) w) (begun w) (fn (begun w)))
      → OperationEnds
          (λ _ db'. Changed (change_order o) h type actor info db db')
          db
          (with_transaction fn w)
  update-ends id o old h uuid at type actor info fn db w same c sound found same_id receiver more =
      let event = new_event uuid at type actor info in
      let keeps : KeepsReceiver o w.db.orders = rw same (
        subst (λ r. All (λ x. x.order_id ≡ o.order_id → x.receiver_id ≡ r) db.orders) receiver
          (subst (λ i. All (λ x. x.order_id ≡ i → x.receiver_id ≡ old.receiver_id) db.orders)
            (sym same_id) (UniqueIds-KeepsReceiver id db.orders old sound.unique found))) in
      let coherent : Coherent w.caches w.db = rw same c in
      let stored =
        with_transaction-Stored (change_order o) h event fn w coherent
          (more (update_in_tx-TxStep o h event w coherent keeps)) in
      let ends = Stored-Changed (change_order o) h uuid at type actor info w _ stored in
      subst
        (λ (d : Tables F).
          OperationEnds (λ _ db'. Changed (change_order o) h type actor info d db') d
            (with_transaction fn w))
        same
        (OperationEnds-map _ (λ _ db'. Changed (change_order o) h type actor info w.db db') w.db _
          (λ u d r. r.1) ends)
