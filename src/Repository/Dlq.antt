-- ===== src/Repository/Dlq.antt =====
-- internal/repository/postgres/dlq.go
use pvz_service.Base.{ℕ, Bool, ◌&&◌, List, [], ◌∷◌, ltb, leb, take, filterb}
use mathlib.Core.List.{reverse}
use pvz_service.Base.Sort.{sort_desc}
use pvz_service.Base.Text.{codes}
use pvz_service.Domain.Event.{DlqMessage}
use pvz_service.Db.Tables.{put_dlq, reschedule, drop_dlq}
use pvz_service.Db.World.{Exec, pure, ◌>>=◌, ◌>>◌, wrap_error, time_now, new_uuid}
use pvz_service.Db.Client.{client, tx, affected, exec, query}

-- `process_count < max_retries AND retry_after <= NOW()`
abbrev pub due : ℕ → DlqMessage → Bool
due now m = ltb m.process_count m.max_retries && leb m.retry_after now

module _ {F : Type 0} where
  -- `Save`: the identifier, the creation time and the process count are the table's defaults.
  unfoldable pub save : DlqMessage → Exec F (Unit {0})
  save msg = do
    id ← new_uuid
    now ← time_now
    wrap_error (codes "save dlq message") (
        exec tx λ db.
          affected 1 (put_dlq (record msg { id = id; created_at = now; process_count = 0 }) ∷ []))
    pure tt

  unfoldable pub get_retryable : ℕ → Exec F (List DlqMessage)
  get_retryable limit = do
    now ← time_now
    wrap_error (codes "query retryable dlq messages") (
        query λ db.
          take limit
            (reverse (sort_desc (λ m. m.retry_after) (reverse (filterb (due now) db.dlq)))))

  unfoldable pub update_retry : ℕ → ℕ → ℕ → Exec F (Unit {0})
  update_retry id process_count retry_after = do
    wrap_error (codes "update dlq retry")
        (exec client λ db. affected 1 (reschedule id process_count retry_after ∷ []))
    pure tt

  unfoldable pub delete : ℕ → Exec F (Unit {0})
  delete id = do
    wrap_error (codes "delete dlq message") (exec client λ db. affected 1 (drop_dlq id ∷ []))
    pure tt
