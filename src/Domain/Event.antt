-- ===== src/Domain/Event.antt =====
-- internal/domain/event.go and internal/domain/dlq.go
use pvz_service.Base.{
  ℕ, ◌+◌, ◌-◌, ◌*◌, Bool, true, false, ◌&&◌, Option, none, some, leb, ltb, if◌then◌else◌,
}
use pvz_service.Base.Text.{Text, codes}
use pvz_service.Domain.Platform.{second, minute}

pub data EventType : Type 0 where
  order_accepted order_returned_to_courier order_issued order_returned_by_client : EventType

pub data ActorType : Type 0 where
  courier client system : ActorType

pub record Actor : Type 0 where
  pub type : ActorType
  pub id : ℕ

pub record OrderInfo : Type 0 where
  pub id : ℕ
  pub user_id : ℕ
  pub status : Text

pub record Event : Type 0 where
  pub event_id : ℕ
  pub event_type : EventType
  pub timestamp : ℕ
  pub actor : Actor
  pub order : OrderInfo
  pub source : Text

-- The fresh identifier and the clock reading are arguments.
unfoldable pub new_event : ℕ → ℕ → EventType → Actor → OrderInfo → Event
new_event uuid now event_type actor order = record {
  event_id = uuid;
  event_type = event_type;
  timestamp = now;
  actor = actor;
  order = order;
  source = codes "pvz-api";
}

pub data OutboxStatus : Type 0 where
  created processing completed failed : OutboxStatus

abbrev pub max_retry_attempts : ℕ
max_retry_attempts = 3

abbrev pub retry_delay : ℕ
retry_delay = 2 * second

pub record OutboxMessage : Type 0 where
  pub id : ℕ
  pub payload : Event
  pub status : OutboxStatus
  pub error : Option Text
  pub attempts : ℕ
  pub created_at : ℕ
  pub sent_at : Option ℕ
  pub last_attempt_at : Option ℕ

-- The pointer test of `CanRetry`. `now.Sub(t)` is negative for a later `t`, and then below the
-- positive delay, as 0 is.
abbrev waited : ℕ → Option ℕ → Bool
waited now none = true
waited now (some last) = leb retry_delay (now - last)

unfoldable pub can_retry : OutboxMessage → ℕ → Bool
can_retry m now = if leb max_retry_attempts m.attempts then false else waited now m.last_attempt_at

unfoldable pub should_fail : OutboxMessage → Bool
should_fail m = leb max_retry_attempts m.attempts

unfoldable pub increment_attempts : OutboxMessage → ℕ → OutboxMessage
increment_attempts m now = record m { attempts = m.attempts + 1; last_attempt_at = some now }

pub record DlqMessage : Type 0 where
  pub id : ℕ
  pub original_id : ℕ
  pub payload : Event
  pub error : Text
  pub attempts : ℕ
  pub created_at : ℕ
  pub failed_at : ℕ
  pub retry_after : ℕ
  pub process_count : ℕ
  pub max_retries : ℕ

abbrev pub dlq_max_retries : ℕ
dlq_max_retries = 3

abbrev pub dlq_retry_delay : ℕ
dlq_retry_delay = 30 * minute

unfoldable pub dlq_can_retry : DlqMessage → ℕ → Bool
dlq_can_retry m now = ltb m.process_count m.max_retries && ltb m.retry_after now

unfoldable pub increment_retry : DlqMessage → ℕ → DlqMessage
increment_retry m now = record m {
  process_count = m.process_count + 1;
  retry_after = now + dlq_retry_delay * (m.process_count + 1);
}
