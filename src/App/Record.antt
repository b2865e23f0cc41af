-- ===== src/App/Record.antt =====
-- The functions that the service hands to `WithTransaction`, and the transactions around them: what
-- they write, and that the caches stay coherent.
use pvz_service.Base.{ℕ, ◌≡◌, refl, sym, ◌≢◌, ◌⊎◌, inl, inr, true, none, List, [], ◌∷◌, ◌++◌}
use mathlib.Core.Path.{subst}
use pvz_service.Base.Text.{Text, codes}
use pvz_service.Domain.Error.{wrap, Error}
use pvz_service.Domain.Event.{Event, OutboxMessage, created}
use pvz_service.Domain.Order.{OrderHistory, Order}
use pvz_service.Db.Client.{exec, perform, visible, write, rollback, with_transaction}
use pvz_service.Db.Client.Transaction.{begun, with_transaction_cases}
use pvz_service.Db.Tables.{
  Tables, Write, apply, put_outbox, apply_all, apply_all-append, put_history, change_order,
  find_order, has_package, put_order,
}
use pvz_service.Db.World.{
  Caches, Result-cases, World, new_uuid, next_fault, round_trip, time_now, Exec, wrap_error, ◌>>◌,
  Result, err, ok,
}
use pvz_service.Repository.Cached
use pvz_service.Repository.Cached.{update}
use pvz_service.Repository.Cached.Coherent.{Coherent}
use pvz_service.Repository.Cached.Steps.{
  TxCoherent, TxStep, TxStep-bind, TxStep-map, TxStep-wrap, TxWrites,
}
use pvz_service.Repository.Cached.Writes.{
  save_history_in_tx-TxWrites, save_order_in_tx-TxWrites, update_order_in_tx-TxWrites,
}
use pvz_service.Repository.Orders.{
  select_all, select_history, select_receiver, select_returned, select_rules,
}
use pvz_service.Repository.Orders.Rows.{KeepsReceiver}
use pvz_service.Repository.Outbox
use pvz_service.App.Service.{insert_in_tx, update_in_tx}

-- The row that `Save` of the outbox inserts.
abbrev pub new_message : ℕ → Event → ℕ → OutboxMessage
new_message id event now = record {
  id = id;
  payload = event;
  status = created;
  error = none;
  attempts = 0;
  created_at = now;
  sent_at = none;
  last_attempt_at = none;
}

module _ {F : Type 0} where
  -- A write of the outbox leaves all that the caches hold.
  put_outbox-Coherent :
      (m : OutboxMessage) (c : Caches F) (db : Tables F)
      → Coherent c db
      → Coherent c (apply (put_outbox m) db)
  unfolding apply select_receiver select_returned select_all select_history select_rules
  put_outbox-Coherent m c db h = record {
    orders = h.orders;
    receivers = h.receivers;
    history = h.history;
    package_rules = h.package_rules;
  }

  -- The world in which the insert of the outbox runs.
  abbrev stamped : World F → World F
  stamped w = (time_now (new_uuid w).1).1

  abbrev stamped_message : Event → World F → OutboxMessage
  stamped_message event w = new_message w.next_id event (stamped w).clock

  stamped-TxCoherent : (w : World F) → TxCoherent w → TxCoherent (stamped w)
  unfolding visible time_now new_uuid
  stamped-TxCoherent w c = record { committed = c.committed; seen = c.seen }

  -- The messages that a list of writes adds to the outbox for the event.
  abbrev pub WithMessage : Event → List (Write F) → List (Write F) → Type 0
  WithMessage event ws writes =
      (id : ℕ) × ((now : ℕ) × (writes ≡ ws ++ put_outbox (new_message id event now) ∷ []))

  saved-TxStep :
      (event : Event) (w : World F)
      → TxCoherent w
      → TxStep (WithMessage event w.pending) w (Outbox.save event w)
  unfolding Outbox.save exec round_trip perform time_now new_uuid visible write apply_all
  saved-TxStep event w c = elim (Result-cases (next_fault w.faults)) [
    | inr (e, fault) ↦ rw fault (record {
      same_db = refl;
      coherent = record { committed = c.committed; seen = c.seen };
      ended = inr (wrap (codes "save outbox message") (wrap (codes "exec query") e), refl);
    })
    | inl (u, fine) ↦ rw fine (record {
      same_db = refl;
      coherent = record {
        committed = c.committed;
        seen =
            let m = stamped_message event w in
            subst (λ (d : Tables F). Coherent w.caches d)
              (sym (apply_all-append w.pending (put_outbox m ∷ []) w.db))
              (put_outbox-Coherent m w.caches (apply_all w.pending w.db) c.seen);
      };
      ended = inl (refl, (w.next_id, ((stamped w).clock, refl)));
    })
  ]

  -- The three writes of a change of an order: the order, its history record, the event. `Fits` is
  -- what the write of the order relies on.
  abbrev pub Recorded : Write F → OrderHistory → Event → Type 0 → List (Write F) → Type 0
  Recorded x h event Fits writes = Fits × WithMessage event (x ∷ put_history h ∷ []) writes

  Recorded-TxStep :
      {Fits : Type 0} (x : Write F) (h : OrderHistory) (event : Event) (label : Text)
      (m : Exec F (Unit {0})) (w : World F)
      → w.pending ≡ []
      → TxWrites (x ∷ []) Fits w (m w)
      → TxStep (Recorded x h event Fits) w (
          (do
            wrap_error label m
            wrap_error (codes "save history") (Cached.save_history_in_tx h)
            wrap_error (codes "save event") (Outbox.save event))
            w)
  Recorded-TxStep {Fits} x h event label m w fresh first =
      let One = λ (writes : List (Write F)). Fits × (writes ≡ w.pending ++ x ∷ []) in
      let Two = λ (writes : List (Write F)). Fits × (writes ≡ x ∷ put_history h ∷ []) in
      let save_event : Exec F (Unit {0}) = wrap_error (codes "save event") (Outbox.save event) in
      let save_rest : Exec F (Unit {0}) =
        wrap_error (codes "save history") (Cached.save_history_in_tx h) >> save_event in
      TxStep-bind One (Recorded x h event Fits) save_rest w _ (TxStep-wrap One label w (m w) first)
        (λ w1 c same q.
          TxStep-bind Two (Recorded x h event Fits) save_event w1 _
            (TxStep-wrap Two (codes "save history") w1 _ (
              TxStep-map _ Two w1 _ (λ ws (fk, e). (q.0, rw (e, q.1, fresh)))
                (save_history_in_tx-TxWrites h w1 c)))
            (λ w2 c2 same2 q2. TxStep-wrap (Recorded x h event Fits) (codes "save event") w2 _ (
              TxStep-map _ (Recorded x h event Fits) w2 _
                (λ ws (id, (now, e)). (q2.0, (id, (now, rw (e, q2.1)))))
                (saved-TxStep event w2 c2))))

  -- A transaction as it ended: with an error and the tables as they were, or with the three writes,
  -- and `Fits` held of the tables before. The caches fit the tables either way.
  pub record Stored (x : Write F) (h : OrderHistory) (event : Event) (Fits : Type 0) (w : World F)
      (out : Result (Unit {0}) × World F) : Type 0 where
    pub coherent : Coherent out.1.caches out.1.db
    pub ended :
        (((e : Error) × (out.0 ≡ err e)) × (out.1.db ≡ w.db))
        ⊎ ((out.0 ≡ ok tt)
            × (Fits
                × ((id : ℕ) × ((now : ℕ) × (out.1.db
                        ≡ apply_all
                            (x ∷ put_history h ∷ put_outbox (new_message id event now) ∷ [])
                            w.db)))))

  -- Of any function that records a change in its transaction.
  pub with_transaction-Stored :
      {Fits : Type 0} (x : Write F) (h : OrderHistory) (event : Event) (fn : Exec F (Unit {0}))
      (w : World F)
      → Coherent w.caches w.db
      → TxStep (Recorded x h event Fits) (begun w) (fn (begun w))
      → Stored x h event Fits w (with_transaction fn w)
  unfolding rollback visible
  with_transaction-Stored x h event fn w c step =
      let same : (fn (begun w)).1.db ≡ w.db = step.same_db in
      elim (with_transaction_cases fn w) [
        | inl (e, out) ↦ rw out (record { coherent = c; ended = inl ((e, refl), refl) })
        | inr (inl (e, stopped, out)) ↦
            rw out (record { coherent = step.coherent.committed; ended = inl ((e, refl), same) })
        | inr (inr (inl (done, (e, out)))) ↦
            rw out (record { coherent = step.coherent.committed; ended = inl ((e, refl), same) })
        | inr (inr (inr (done, out))) ↦ elim step.ended [
          | inr (e, stopped) ↦ absurd (cc)
          | inl (fine, (fits, (id, (now, writes)))) ↦ rw out (record {
            coherent = step.coherent.seen;
            ended = inr (refl, (fits, (id, (now, rw (writes, same)))));
          })
        ]
      ]

  begun-TxCoherent : (w : World F) → Coherent w.caches w.db → TxCoherent (begun w)
  unfolding visible apply_all
  begun-TxCoherent w c = record { committed = c; seen = c }

  -- The transaction of `AcceptOrder`: the order was new, and its package type is known.
  pub insert_in_tx-Stored :
      (o : Order F) (h : OrderHistory) (event : Event) (w : World F)
      → Coherent w.caches w.db
      → Stored
          (put_order o)
          h
          event
          ((find_order o.order_id w.db.orders ≡ none)
            × (has_package o.package_type w.db.package_types ≡ true))
          w
          (with_transaction (insert_in_tx o h event) w)
  unfolding insert_in_tx visible apply_all
  insert_in_tx-Stored o h event w c =
      with_transaction-Stored (put_order o) h event (insert_in_tx o h event) w c (
        Recorded-TxStep (put_order o) h event (codes "save order") (Cached.save_order_in_tx o)
          (begun w) refl (save_order_in_tx-TxWrites o (begun w) (begun-TxCoherent w c)))

  -- The transaction of the other operations, with an order that keeps its receiver.
  abbrev pub Updated : Order F → OrderHistory → Event → World F → List (Write F) → Type 0
  Updated o h event w = Recorded (change_order o) h event (
      (find_order o.order_id w.db.orders ≢ none)
      × (has_package o.package_type w.db.package_types ≡ true))

  pub update_in_tx-TxStep :
      (o : Order F) (h : OrderHistory) (event : Event) (w : World F)
      → Coherent w.caches w.db
      → KeepsReceiver o w.db.orders
      → TxStep (Updated o h event w) (begun w) (update_in_tx o h event (begun w))
  unfolding update_in_tx visible apply_all
  update_in_tx-TxStep o h event w c keeps =
      Recorded-TxStep (change_order o) h event (codes "update order") (Cached.update_order_in_tx o)
        (begun w) refl (update_order_in_tx-TxWrites o (begun w) (begun-TxCoherent w c) keeps)
