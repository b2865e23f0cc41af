-- ===== src/Worker.antt =====
-- cmd/outbox: the two phases of the outbox worker, and the worker of the dead letters. Errors are
-- logged only, so that each function returns the next state.
pub mod Statements
pub mod Delivered
pub mod Letters
use mathlib.Core.List.{map}
use pvz_service.Base.{ℕ, ◌+◌, not, none, some, List, [], ◌∷◌, leb, if◌then◌else◌}
use pvz_service.Base.Text.{Text, codes}
use pvz_service.Domain.Error.{plain, wrap, Error}
use pvz_service.Domain.Event.{
  DlqMessage, Event, OutboxMessage, can_retry, completed, dlq_max_retries, dlq_retry_delay, failed,
  increment_retry, max_retry_attempts, should_fail,
}
use pvz_service.Db.Client.{with_transaction}
use pvz_service.Db.World.{Exec, Result, World, err, ok, time_now, ◌>>=◌, ◌>>◌, continue, relabel}
use pvz_service.Repository.Dlq
use pvz_service.Repository.Outbox

-- What the broker does with a message: it takes it and says so, it refuses, or it takes the message
-- and the acknowledgement is lost.
pub data Delivery : Type 0 where
  acknowledged : Delivery
  refused unconfirmed : Text → Delivery

pub record Broker : Type 0 where
  pub received : List Event
  pub deliveries : List Delivery

pub record WorkerState (F : Type 0) : Type 0 where
  pub world : World F
  pub broker : Broker

abbrev pub not_sent : Text → Error
not_sent message = wrap (codes "send message to kafka") (plain message)

abbrev delivered : Delivery → Event → Broker → Result (Unit {0}) × Broker
delivered acknowledged event b = (ok tt, record b { received = event ∷ b.received })
delivered (refused message) event b = (err (not_sent message), b)
delivered (unconfirmed message) event b =
    (err (not_sent message), record b { received = event ∷ b.received })

-- `KafkaProducer.Send`; when nothing is said of a delivery it is acknowledged.
unfoldable pub send : Event → Broker → Result (Unit {0}) × Broker
send event b = elim b.deliveries [
  | [] ↦ delivered acknowledged event b
  | d ∷ rest ↦ delivered d event (record b { deliveries = rest })
]

-- The row of a message that is given up, before the database adds its defaults.
unfoldable pub dead_letter : OutboxMessage → ℕ → ℕ → DlqMessage
dead_letter msg failed_at retry_from = record {
  id = 0;
  original_id = msg.id;
  payload = msg.payload;
  error = codes "Max retries exceeded";
  attempts = msg.attempts;
  created_at = 0;
  failed_at = failed_at;
  retry_after = retry_from + dlq_retry_delay;
  process_count = 0;
  max_retries = dlq_max_retries;
}

module _ {F : Type 0} where
  -- An action on the database inside the worker, and a continuation by how it ended.
  abbrev pub in_world :
      {A : Type 0}
      → Exec F A
      → (Result A → WorkerState F → WorkerState F)
      → WorkerState F
      → WorkerState F
  in_world m k s = let (r, w) = m s.world in k r (record s { world = w })

  -- The end of a function that logs its error, if any.
  abbrev pub done : {A : Type 0} → Result A → WorkerState F → WorkerState F
  done r s = s

  -- The function that `moveToDLQ` hands to `WithTransaction`: the status is written by the client,
  -- outside the transaction.
  unfoldable pub dead_letter_in_tx : OutboxMessage → Exec F (Unit {0})
  unfolding dead_letter
  dead_letter_in_tx msg = do
    failed_at ← time_now
    retry_from ← time_now
    Dlq.save (dead_letter msg failed_at retry_from)
    Outbox.update_status msg.id failed (some (codes "Max retries exceeded"))

  unfoldable pub move_to_dlq : OutboxMessage → WorkerState F → WorkerState F
  unfolding dead_letter_in_tx
  move_to_dlq msg = in_world (with_transaction (dead_letter_in_tx msg)) done

  abbrev pub after_send : OutboxMessage → Result (Unit {0}) → WorkerState F → WorkerState F
  after_send msg (ok _) s = in_world (Outbox.update_status msg.id completed none) done s
  after_send msg (err _) s =
      if leb max_retry_attempts (msg.attempts + 1) then move_to_dlq msg s else s

  abbrev pub send_message : OutboxMessage → Result (Unit {0}) → WorkerState F → WorkerState F
  send_message msg (err _) s = s
  send_message msg (ok _) s =
      let (r, b) = send msg.payload s.broker in after_send msg r (record s { broker = b })

  unfoldable pub process_message : ℕ → OutboxMessage → WorkerState F → WorkerState F
  process_message now msg s =
      if not (can_retry msg now)
      then s
      else if should_fail msg
      then move_to_dlq msg s
      else in_world (Outbox.update_attempt msg.id now) (send_message msg) s

  unfoldable pub process_all : ℕ → List OutboxMessage → WorkerState F → WorkerState F
  unfolding process_message
  process_all now [] s = s
  process_all now (msg ∷ messages) s = process_all now messages (process_message now msg s)

  abbrev pub mark_batch : Result (List OutboxMessage) → WorkerState F → WorkerState F
  mark_batch (err _) s = s
  mark_batch (ok []) s = s
  mark_batch (ok (msg ∷ messages)) s =
      in_world (Outbox.set_processing (map (λ m. m.id) (msg ∷ messages))) done s

  unfoldable pub phase_one : ℕ → WorkerState F → WorkerState F
  phase_one batch_size = in_world (Outbox.get_pending_messages batch_size) mark_batch

  abbrev process_batch : ℕ → Result (List OutboxMessage) → WorkerState F → WorkerState F
  process_batch now (err _) s = s
  process_batch now (ok messages) s = process_all now messages s

  unfoldable pub phase_two : ℕ → ℕ → WorkerState F → WorkerState F
  unfolding process_all
  phase_two batch_size now =
      in_world (Outbox.get_processing_messages batch_size now) (process_batch now)

  abbrev both_phases : ℕ → Result ℕ → WorkerState F → WorkerState F
  both_phases batch_size (ok now) s = phase_two batch_size now (phase_one batch_size s)
  both_phases batch_size (err _) s = s

  unfoldable pub process_outbox_messages : ℕ → WorkerState F → WorkerState F
  unfolding phase_one phase_two
  process_outbox_messages batch_size = in_world time_now (both_phases batch_size)

  -- The worker of the dead letters. `IncrementRetry` reads the clock.
  abbrev pub reschedule_letter : DlqMessage → Result ℕ → WorkerState F → WorkerState F
  reschedule_letter msg (err _) s = s
  reschedule_letter msg (ok now) s =
      let retried = increment_retry msg now in
      in_world (Dlq.update_retry retried.id retried.process_count retried.retry_after) done s

  abbrev pub after_resend : DlqMessage → Result (Unit {0}) → WorkerState F → WorkerState F
  after_resend msg (ok _) s = in_world (Dlq.delete msg.id) done s
  after_resend msg (err _) s = in_world time_now (reschedule_letter msg) s

  unfoldable pub process_dlq_message : DlqMessage → WorkerState F → WorkerState F
  process_dlq_message msg s =
      let (r, b) = send msg.payload s.broker in after_resend msg r (record s { broker = b })

  unfoldable pub process_letters : List DlqMessage → WorkerState F → WorkerState F
  unfolding process_dlq_message
  process_letters [] s = s
  process_letters (msg ∷ messages) s = process_letters messages (process_dlq_message msg s)

  abbrev pub resend_batch : Result (List DlqMessage) → WorkerState F → WorkerState F
  resend_batch (err _) s = s
  resend_batch (ok messages) s = process_letters messages s

  unfoldable pub process_dlq : WorkerState F → WorkerState F
  unfolding process_letters
  process_dlq = in_world (Dlq.get_retryable 10) resend_batch
