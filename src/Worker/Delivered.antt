-- ===== src/Worker/Delivered.antt =====
-- Which outbox rows may be COMPLETED, followed through a tick of cmd/outbox/main.go.
pub mod Rows
use mathlib.Core.Path.{subst}
use mathlib.Core.List.{Mem, mem-cons_self, mem-cons_of_mem, map, reverse}
use pvz_service.Base.{
  ℕ, ◌+◌, ◌≡◌, refl, sym, ap, ◌∙◌, ◌⊎◌, inl, inr, Bool, Option, List, [], ◌∷◌, arith, leb, ◌==◌,
  Bool-cases, filterb, All, All-mono, All-take, All-reverse_aux, All-filterb,
}
use pvz_service.Base.Sort.{All-sort_desc, sort_desc}
use pvz_service.Base.Text.{Text, codes}
use pvz_service.Domain.Error.{Error}
use pvz_service.Domain.Event.{
  Event, OutboxMessage, can_retry, completed, max_retry_attempts, should_fail, created,
}
use pvz_service.Db.Client.{exec, perform, query, visible, write}
use pvz_service.Db.Client.Cases.{tripped}
use pvz_service.Db.Tables.{Tables, apply, apply_all, complete, count_attempt, fail, mark_processing}
use pvz_service.Db.World.{Result, Result-cases, err, next_fault, ok, round_trip, time_now}
use pvz_service.Repository.Dlq.{due}
use pvz_service.Repository.Outbox
use pvz_service.Worker.Statements.{All-update, moved_outbox, update_ends}
use pvz_service.Worker.{
  Broker, Delivery, WorkerState, acknowledged, after_send, done, in_world, mark_batch, move_to_dlq,
  not_sent, phase_one, phase_two, process_all, process_message, process_outbox_messages, refused,
  send, send_message, unconfirmed,
}
use pvz_service.Worker.Delivered.Rows.{
  Fair, FairRows, selected_own, attempted_fair, failed_fair, marked_fair, completed_fair,
  received_fair,
}

pub Deliveries-cases :
    (l : List Delivery) → (l ≡ []) ⊎ ((d : Delivery) × ((rest : List Delivery) × (l ≡ d ∷ rest)))
Deliveries-cases [] = inl refl
Deliveries-cases (d ∷ rest) = inr (d, (rest, refl))

module _ (payload_of : ℕ → Event) where
  module _ {F : Type 0} where
    abbrev pub FairState : WorkerState F → Type 0
    FairState s = FairRows payload_of s.broker.received s.world.db

    moved_fair :
        (msg : OutboxMessage) (s : WorkerState F) → FairState s → FairState (move_to_dlq msg s)
    unfolding move_to_dlq apply
    moved_fair msg s h =
        let received = s.broker.received in
        elim (moved_outbox msg s.world) [
          | inl same ↦ subst (λ l. All (Fair payload_of received) l) (sym same) h
          | inr (reason, made) ↦
              subst (λ l. All (Fair payload_of received) l) (sym made)
                (failed_fair payload_of msg.id reason received s.world.db h)
        ]

    completed_state :
        (msg : OutboxMessage) (s : WorkerState F)
        → msg.payload ≡ payload_of msg.id
        → Mem msg.payload s.broker.received
        → FairState s
        → FairState (after_send msg (ok tt) s)
    unfolding Outbox.update_status time_now
    completed_state msg s own sent h =
        let w = (time_now s.world).1 in
        let (kept, ends) = update_ends (codes "update status") msg.id (complete msg.id w.clock) w in
        elim ends [
          | inl (failure, same) ↦ subst (FairRows payload_of s.broker.received) (sym same) h
          | inr (fine, made) ↦ subst (FairRows payload_of s.broker.received) (sym made) (
              completed_fair payload_of msg.id w.clock s.broker.received s.world.db
                (subst (λ e. Mem e s.broker.received) own sent) h)
        ]

    refused_state :
        (msg : OutboxMessage) (e : Error) (s : WorkerState F)
        → FairState s
        → FairState (after_send msg (err e) s)
    refused_state msg e s h = elim (Bool-cases (leb max_retry_attempts (msg.attempts + 1))) [
      | inl last ↦ rw last (moved_fair msg s h)
      | inr more ↦ rw more h
    ]

    sent_state :
        (msg : OutboxMessage) (s : WorkerState F)
        → msg.payload ≡ payload_of msg.id
        → FairState s
        → FairState (send_message msg (ok tt) s)
    unfolding send
    sent_state msg s own h =
        let more = received_fair payload_of msg.payload s.broker.received s.world.db h in
        elim (Deliveries-cases s.broker.deliveries) [
          | inl nothing ↦
              let b : Broker = record {
                received = msg.payload ∷ s.broker.received;
                deliveries = [];
              } in
              rw nothing (completed_state msg (record s { broker = b }) own mem-cons_self more)
          | inr (acknowledged, (rest, following)) ↦
              let b : Broker = record {
                received = msg.payload ∷ s.broker.received;
                deliveries = rest;
              } in
              rw following (completed_state msg (record s { broker = b }) own mem-cons_self more)
          | inr (refused message, (rest, following)) ↦
              let b : Broker = record { received = s.broker.received; deliveries = rest } in
              rw following (refused_state msg (not_sent message) (record s { broker = b }) h)
          | inr (unconfirmed message, (rest, following)) ↦
              let b : Broker = record {
                received = msg.payload ∷ s.broker.received;
                deliveries = rest;
              } in
              rw following (refused_state msg (not_sent message) (record s { broker = b }) more)
        ]

    processed_fair :
        (now : ℕ) (msg : OutboxMessage) (s : WorkerState F)
        → msg.payload ≡ payload_of msg.id
        → FairState s
        → FairState (process_message now msg s)
    unfolding process_message Outbox.update_attempt
    processed_fair now msg s own h = elim (Bool-cases (can_retry msg now)) [
      | inr early ↦ rw early h
      | inl due ↦ elim (Bool-cases (should_fail msg)) [
        | inl spent ↦ rw (due, spent) (moved_fair msg s h)
        | inr left ↦
            let (kept, ends) =
              update_ends (codes "update attempt") msg.id (count_attempt msg.id now) s.world in
            elim ends [
              | inl ((e, failure), same) ↦
                  rw (due, left, failure)
                    (subst (FairRows payload_of s.broker.received) (sym same) h)
              | inr (fine, made) ↦
                  let w1 = (Outbox.update_attempt msg.id now s.world).1 in
                  rw (due, left, fine)
                    (sent_state msg (record s { world = w1 }) own
                      (subst (FairRows payload_of s.broker.received) (sym made)
                        (attempted_fair payload_of msg.id now s.broker.received s.world.db h)))
            ]
      ]
    ]

    all_fair :
        (now : ℕ) (messages : List OutboxMessage) (s : WorkerState F)
        → All (λ m. m.payload ≡ payload_of m.id) messages
        → FairState s
        → FairState (process_all now messages s)
    unfolding process_all
    all_fair now [] s own h = h
    all_fair now (msg ∷ messages) s own h =
        all_fair now messages (process_message now msg s) own.1 (processed_fair now msg s own.0 h)

    second_fair :
        (batch_size now : ℕ) (s : WorkerState F)
        → FairState s
        → FairState (phase_two batch_size now s)
    unfolding phase_two Outbox.get_processing_messages query round_trip
    second_fair batch_size now s h = elim (Result-cases (next_fault s.world.faults)) [
      | inr (e, fault) ↦ rw fault h
      | inl (u, fine) ↦
          let messages =
            Outbox.oldest_first batch_size (filterb (Outbox.retryable now) s.world.db.outbox) in
          rw fine (
            all_fair now messages (record s { world = tripped s.world })
              (selected_own payload_of s.broker.received (Outbox.retryable now) batch_size
                s.world.db.outbox h)
              h)
    ]

    marked_state :
        (ids : List ℕ) (s : WorkerState F)
        → FairState s
        → FairState (in_world (Outbox.set_processing ids) done s)
    unfolding Outbox.set_processing exec round_trip perform write visible apply_all
    marked_state [] s h = h
    marked_state (id ∷ ids) s h = elim (Result-cases (next_fault s.world.faults)) [
      | inr (e, fault) ↦ rw fault h
      | inl (u, fine) ↦ rw fine (marked_fair payload_of (id ∷ ids) s.broker.received s.world.db h)
    ]

    batch_fair :
        (r : Result (List OutboxMessage)) (s : WorkerState F)
        → FairState s
        → FairState (mark_batch r s)
    batch_fair (err e) s h = h
    batch_fair (ok []) s h = h
    batch_fair (ok (msg ∷ messages)) s h =
        marked_state (map (λ (m : OutboxMessage). m.id) (msg ∷ messages)) s h

    first_fair :
        (batch_size : ℕ) (s : WorkerState F) → FairState s → FairState (phase_one batch_size s)
    unfolding phase_one Outbox.get_pending_messages query round_trip
    first_fair batch_size s h = elim (Result-cases (next_fault s.world.faults)) [
      | inr (e, fault) ↦ rw fault h
      | inl (u, fine) ↦
          let messages =
            Outbox.oldest_first batch_size
              (filterb (λ m. Outbox.same_outbox_status m.status created) s.world.db.outbox) in
          rw fine (batch_fair (ok messages) (record s { world = tripped s.world }) h)
    ]

    -- If each outbox row has the event of its identifier and is COMPLETED only if the broker
    -- received that event, then so it is after a tick of the outbox worker, whichever statements
    -- and deliveries fail in it.
    pub process_outbox_messages-FairState :
        (batch_size : ℕ) (s : WorkerState F)
        → FairState s
        → FairState (process_outbox_messages batch_size s)
    unfolding process_outbox_messages time_now
    process_outbox_messages-FairState batch_size s h =
        let ticked = record s { world = (time_now s.world).1 } in
        second_fair batch_size _ (phase_one batch_size ticked) (first_fair batch_size ticked h)
