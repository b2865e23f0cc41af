-- ===== src/Worker/Letters.antt =====
-- The dead letters, followed through a round of cmd/outbox/dlq_worker.go.
use mathlib.Core.Path.{subst}
use mathlib.Core.List.{Mem, mem-cons_self, mem-cons_of_mem, reverse}
use pvz_service.Base.{
  ℕ, ◌≡◌, refl, sym, ap, ◌∙◌, ◌≢◌, ◌⊎◌, inl, inr, Bool, true, false, List, [], ◌∷◌, arith, ◌==◌,
  if◌then◌else◌, Bool-cases, take, filterb, All, All-take, All-reverse_aux, All-filterb,
}
use pvz_service.Base.Sort.{All-sort_desc, sort_desc}
use pvz_service.Domain.Error.{Error}
use pvz_service.Domain.Event.{DlqMessage, Event, increment_retry}
use pvz_service.Db.Client.{exec, perform, visible, write, query}
use pvz_service.Db.Client.Cases.{tripped}
use pvz_service.Db.Tables.{
  Tables, Write, apply, apply_all, delete_dlq, drop_dlq, reschedule, update_dlq,
}
use pvz_service.Db.World.{Result-cases, World, next_fault, round_trip, err, later, ok, time_now}
use pvz_service.Repository.Dlq
use pvz_service.Worker.Delivered.{Deliveries-cases}
use pvz_service.Worker.{
  WorkerState, Broker, acknowledged, after_resend, not_sent, process_dlq, process_dlq_message,
  process_letters, refused, send, unconfirmed,
}

unfoldable pub has_letter : ℕ → List DlqMessage → Bool
has_letter id [] = false
has_letter id (m ∷ l) = if m.id == id then true else has_letter id l

has_letter-delete :
    (j id : ℕ) (l : List DlqMessage)
    → j ≢ id
    → has_letter j l ≡ true
    → has_letter j (delete_dlq id l) ≡ true
unfolding has_letter delete_dlq
has_letter-delete j id [] ne h = h
has_letter-delete j id (m ∷ l) ne h = ground (arith, has_letter-delete j id l ne)

has_letter-update :
    (j id count at : ℕ) (l : List DlqMessage)
    → has_letter j (update_dlq id count at l) ≡ has_letter j l
unfolding has_letter update_dlq
has_letter-update j id count at [] = refl
has_letter-update j id count at (m ∷ l) = ground (arith, has_letter-update j id count at l)

module _ {F : Type 0} where
  -- A statement of the letters' worker as it ends: with an error and no change, or made.
  LetterStatement : Write F → World F → World F → Type 0
  LetterStatement x w w1 = (w1.db ≡ w.db) ⊎ (w1.db ≡ apply x w.db)

  delete_ends : (id : ℕ) (w : World F) → LetterStatement (drop_dlq id) w (Dlq.delete id w).1
  unfolding Dlq.delete exec round_trip perform visible write apply_all LetterStatement
  delete_ends id w = elim (Result-cases (next_fault w.faults)) [
    | inr (e, fault) ↦ inl (rw fault refl)
    | inl (u, fine) ↦ inr (rw fine refl)
  ]

  retry_ends :
      (id count at : ℕ) (w : World F)
      → LetterStatement (reschedule id count at) w (Dlq.update_retry id count at w).1
  unfolding Dlq.update_retry exec round_trip perform visible write apply_all LetterStatement
  retry_ends id count at w = elim (Result-cases (next_fault w.faults)) [
    | inr (e, fault) ↦ inl (rw fault refl)
    | inl (u, fine) ↦ inr (rw fine refl)
  ]

-- The event that the letter of an identifier carries.
module _ (payload_of : ℕ → Event) where
  -- The letter is in the table, or the broker received its event.
  abbrev pub Accounted : List Event → List DlqMessage → ℕ → Type 0
  Accounted received letters id = (has_letter id letters ≡ true) ⊎ Mem (payload_of id) received

  module _ {F : Type 0} (j : ℕ) where
    abbrev AccountedIn : WorkerState F → Type 0
    AccountedIn s = Accounted s.broker.received s.world.db.dlq j

    retried_keeps :
        (id count at : ℕ) (s : WorkerState F) (w : World F)
        → LetterStatement (reschedule id count at) s.world w
        → AccountedIn s
        → Accounted s.broker.received w.db.dlq j
    unfolding apply LetterStatement
    retried_keeps id count at s w (inl same) h =
        subst (λ (d : Tables F). Accounted s.broker.received d.dlq j) (sym same) h
    retried_keeps id count at s w (inr made) (inr sent) = inr sent
    retried_keeps id count at s w (inr made) (inl there) = inl (
        ap (λ (d : Tables F). has_letter j d.dlq) made
        ∙ has_letter-update j id count at s.world.db.dlq
        ∙ there)

    deleted_keeps :
        (id : ℕ) (s : WorkerState F) (w : World F)
        → LetterStatement (drop_dlq id) s.world w
        → Mem (payload_of id) s.broker.received
        → AccountedIn s
        → Accounted s.broker.received w.db.dlq j
    unfolding apply LetterStatement
    deleted_keeps id s w (inl same) sent h =
        subst (λ (d : Tables F). Accounted s.broker.received d.dlq j) (sym same) h
    deleted_keeps id s w (inr made) sent (inr received) = inr received
    deleted_keeps id s w (inr made) sent (inl there) = elim (Bool-cases (j == id)) [
      | inl same ↦
          let same_id : id ≡ j = ground arith in
          inr (subst (λ i. Mem (payload_of i) s.broker.received) same_id sent)
      | inr other ↦ inl (
          ap (λ (d : Tables F). has_letter j d.dlq) made
          ∙ has_letter-delete j id s.world.db.dlq (ground arith) there)
    ]

    resent_keeps :
        (msg : DlqMessage) (s : WorkerState F)
        → msg.payload ≡ payload_of msg.id
        → Mem msg.payload s.broker.received
        → AccountedIn s
        → AccountedIn (after_resend msg (ok tt) s)
    resent_keeps msg s own sent h =
        deleted_keeps msg.id s (Dlq.delete msg.id s.world).1 (delete_ends msg.id s.world)
          (subst (λ e. Mem e s.broker.received) own sent) h

    postponed_keeps :
        (msg : DlqMessage) (e : Error) (s : WorkerState F)
        → AccountedIn s
        → AccountedIn (after_resend msg (err e) s)
    unfolding time_now
    postponed_keeps msg e s h =
        let ticked : WorkerState F = record s { world = (time_now s.world).1 } in
        let retried = increment_retry msg ticked.world.clock in
        retried_keeps retried.id retried.process_count retried.retry_after ticked _
          (retry_ends retried.id retried.process_count retried.retry_after ticked.world) h

    more_received :
        (event : Event) (s : WorkerState F)
        → AccountedIn s
        → Accounted (event ∷ s.broker.received) s.world.db.dlq j
    more_received event s (inl there) = inl there
    more_received event s (inr sent) = inr (mem-cons_of_mem event sent)

    letter_keeps :
        (msg : DlqMessage) (s : WorkerState F)
        → msg.payload ≡ payload_of msg.id
        → AccountedIn s
        → AccountedIn (process_dlq_message msg s)
    unfolding process_dlq_message send
    letter_keeps msg s own h =
        let more = more_received msg.payload s h in
        elim (Deliveries-cases s.broker.deliveries) [
          | inl nothing ↦
              let b : Broker = record {
                received = msg.payload ∷ s.broker.received;
                deliveries = [];
              } in
              rw nothing (resent_keeps msg (record s { broker = b }) own mem-cons_self more)
          | inr (acknowledged, (rest, following)) ↦
              let b : Broker = record {
                received = msg.payload ∷ s.broker.received;
                deliveries = rest;
              } in
              rw following (resent_keeps msg (record s { broker = b }) own mem-cons_self more)
          | inr (refused message, (rest, following)) ↦
              let b : Broker = record { received = s.broker.received; deliveries = rest } in
              rw following (postponed_keeps msg (not_sent message) (record s { broker = b }) h)
          | inr (unconfirmed message, (rest, following)) ↦
              let b : Broker = record {
                received = msg.payload ∷ s.broker.received;
                deliveries = rest;
              } in
              rw following (postponed_keeps msg (not_sent message) (record s { broker = b }) more)
        ]

    letters_keep :
        (messages : List DlqMessage) (s : WorkerState F)
        → All (λ m. m.payload ≡ payload_of m.id) messages
        → AccountedIn s
        → AccountedIn (process_letters messages s)
    unfolding process_letters
    letters_keep [] s own h = h
    letters_keep (msg ∷ messages) s own h =
        letters_keep messages (process_dlq_message msg s) own.1 (letter_keeps msg s own.0 h)

    -- If every row of the dead letters has the event of its identifier, then after a round of
    -- their worker a letter that was in the table is still in it or the broker received its event,
    -- whichever statements and deliveries fail.
    pub process_dlq-accounts :
        (s : WorkerState F)
        → All (λ m. m.payload ≡ payload_of m.id) s.world.db.dlq
        → has_letter j s.world.db.dlq ≡ true
        → Accounted (process_dlq s).broker.received (process_dlq s).world.db.dlq j
    unfolding process_dlq Dlq.get_retryable query round_trip time_now
    process_dlq-accounts s own there = elim (Result-cases (next_fault s.world.faults)) [
      | inr (e, fault) ↦ rw fault (inl there)
      | inl (u, fine) ↦
          let now = later s.world.clock s.world.ticks in
          let Own = λ (m : DlqMessage). m.payload ≡ payload_of m.id in
          let key = λ (m : DlqMessage). m.retry_after in
          let kept = filterb (Dlq.due now) s.world.db.dlq in
          let turned =
            All-reverse_aux Own kept [] (All-filterb Own (Dlq.due now) s.world.db.dlq own) tt in
          let sorted = All-sort_desc key Own (reverse kept) turned in
          let messages = take 10 (reverse (sort_desc key (reverse kept))) in
          rw fine (
            letters_keep messages (record s { world = tripped (time_now s.world).1 })
              (All-take Own 10 _ (All-reverse_aux Own (sort_desc key (reverse kept)) [] sorted tt))
              (inl there))
    ]
