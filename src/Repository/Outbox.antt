-- ===== src/Repository/Outbox.antt =====
-- internal/repository/postgres/outbox.go. Row locks are not modelled: one worker runs at a time.
use pvz_service.Base.{
  ℕ, ◌+◌, Bool, true, false, ◌&&◌, Option, none, some, List, [], ◌∷◌, ltb, leb, ◌==◌, if◌then◌else◌,
  take, filterb,
}
use pvz_service.Base.Text.{Text, codes}
use pvz_service.Base.Sort.{sort_desc}
use mathlib.Core.List.{reverse}
use pvz_service.Domain.Error.{plain}
use pvz_service.Domain.Event.{
  Event, OutboxMessage, OutboxStatus, created, processing, completed, failed, retry_delay,
  max_retry_attempts,
}
use pvz_service.Db.Tables.{
  Tables, Write, put_outbox, mark_processing, count_attempt, complete, fail, find_message,
}
use pvz_service.Db.World.{Exec, pure, throw, ◌>>=◌, ◌>>◌, wrap_error, time_now, new_uuid}
use pvz_service.Db.Client.{client, tx, Outcome, affected, exec, query}

abbrev pub same_outbox_status : OutboxStatus → OutboxStatus → Bool
same_outbox_status created created = true
same_outbox_status processing processing = true
same_outbox_status completed completed = true
same_outbox_status failed failed = true
same_outbox_status _ _ = false

-- `ORDER BY created_at ASC LIMIT $n`
unfoldable pub oldest_first : ℕ → List OutboxMessage → List OutboxMessage
oldest_first limit l = take limit (reverse (sort_desc (λ m. m.created_at) (reverse l)))

-- `last_attempt_at IS NULL OR last_attempt_at <= now - RetryDelay`
abbrev attempt_before : ℕ → Option ℕ → Bool
attempt_before now none = true
attempt_before now (some last) = leb (last + retry_delay) now

abbrev pub retryable : ℕ → OutboxMessage → Bool
retryable now m =
    same_outbox_status m.status processing
    && (attempt_before now m.last_attempt_at && ltb m.attempts max_retry_attempts)

module _ {F : Type 0} where
  -- `Save`: the event goes out as its JSON text, which is kept as the event.
  unfoldable pub save : Event → Exec F (Unit {0})
  save event = do
    id ← new_uuid
    now ← time_now
    wrap_error (codes "save outbox message") (
        exec tx λ db. affected 1 (
          put_outbox (record {
            id = id;
            payload = event;
            status = created;
            error = none;
            attempts = 0;
            created_at = now;
            sent_at = none;
            last_attempt_at = none;
          })
          ∷ []))
    pure tt

  unfoldable pub get_pending_messages : ℕ → Exec F (List OutboxMessage)
  get_pending_messages limit = wrap_error (codes "query pending messages") (
      query λ db. oldest_first limit (filterb (λ m. same_outbox_status m.status created) db.outbox))

  unfoldable pub get_processing_messages : ℕ → ℕ → Exec F (List OutboxMessage)
  get_processing_messages limit now =
      wrap_error (codes "query processing messages")
        (query λ db. oldest_first limit (filterb (retryable now) db.outbox))

  unfoldable pub set_processing : List ℕ → Exec F (Unit {0})
  set_processing [] = pure tt
  set_processing (id ∷ ids) = do
    wrap_error (codes "set processing status")
        (exec client λ db. affected 1 (mark_processing (id ∷ ids) ∷ []))
    pure tt

  -- `UPDATE outbox … WHERE id = $1`: no row is affected where no message has the identifier.
  abbrev pub on_message : ℕ → Write F → Tables F → Outcome F
  on_message id w db = elim (find_message id db.outbox) [
    | none ↦ affected 0 []
    | some _ ↦ affected 1 (w ∷ [])
  ]

  abbrev pub check_found : ℕ → Exec F (Unit {0})
  check_found rows = if rows == 0 then throw (plain (codes "message not found")) else pure tt

  unfoldable pub update_attempt : ℕ → ℕ → Exec F (Unit {0})
  update_attempt id now = do
    rows ← wrap_error (codes "update attempt") (exec client (on_message id (count_attempt id now)))
    check_found rows

  -- The `UPDATE` that `UpdateStatus` picks by the status, by the client and not in a transaction.
  unfoldable pub update_status : ℕ → OutboxStatus → Option Text → Exec F (Unit {0})
  update_status id completed error = do
    now ← time_now
    rows ← wrap_error (codes "update status") (exec client (on_message id (complete id now)))
    check_found rows
  update_status id failed error = do
    rows ← wrap_error (codes "update status") (exec client (on_message id (fail id error)))
    check_found rows
  update_status id created error = throw (plain (codes "invalid status for UpdateStatus: CREATED"))
  update_status id processing error =
      throw (plain (codes "invalid status for UpdateStatus: PROCESSING"))

  unfoldable pub fail_message : ℕ → Text → Exec F (Unit {0})
  unfolding update_status
  fail_message id reason = update_status id failed (some reason)
