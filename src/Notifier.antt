-- ===== src/Notifier.antt =====
-- cmd/notifier/event_handler.go, and the loop of internal/infra/kafka/kafka_consumer.go that calls it.
-- The event is decoded by `json.Unmarshal`, a parameter. The handler only logs what Telegram answers, so the
-- calls of it are recorded and no answer is kept.
pub mod Counts
pub mod Telegram
use pvz_service.Base.{
  ℕ, ◌+◌, ◌-◌, ◌*◌, ◌%◌, ◌^◌, Bool, ◌||◌, Option, none, some, List, [], ◌∷◌, ◌++◌, ltb, ◌==◌,
  if◌then◌else◌,
}
use pvz_service.Base.Text.{Text, codes, text_eq}
use pvz_service.Domain.Error.{error_text}
use pvz_service.Domain.Platform.{minute}
use pvz_service.Db.World.{Result, err, ok}

-- `domain.Event` as it comes from JSON: any texts and numbers, and zero values for what is missing.
pub record Incoming : Type 0 where
  pub event_id : Text
  pub event_type : Text
  pub timestamp : ℕ
  pub actor_type : Text
  pub actor_id : ℕ
  pub order_id : ℕ
  pub user_id : ℕ
  pub order_status : Text
  pub source : Text

-- The calls of the Telegram notifier and of the metrics, in order.
pub data Sent : Type 0 where
  notify_error : Text → Text → Sent
  notify_event : Incoming → Sent
  notify_statistics : ℕ → Text → Sent
  kafka_message_processed : Text → Sent

-- `processedCount` is a uint64.
pub record EventHandler : Type 0 where
  pub processed_count : ℕ
  pub last_statistic_time : ℕ

-- A message, with the clock when the time since the last statistics is taken, and when they have
-- been sent.
pub record Message : Type 0 where
  pub offset : ℕ
  pub value : Text
  pub checked_at : ℕ
  pub sent_at : ℕ

-- A turn of `ConsumeClaim`: a message, the nil of the closed channel, or the end of the session's
-- context.
pub data Arrival : Type 0 where
  arrived : Message → Arrival
  channel_closed session_done : Arrival

-- The checks of `validateEvent`, and its message for what is missing. An old event is only logged.
unfoldable pub validate_event : Incoming → Option Text
validate_event event =
    if text_eq event.event_id []
    then some (codes "missing event_id")
    else if text_eq event.event_type []
    then some (codes "missing event_type")
    else if text_eq event.source []
    then some (codes "missing source")
    else if event.order_id == 0
    then some (codes "missing order.id")
    else if event.user_id == 0
    then some (codes "missing order.user_id")
    else none

-- `h.processedCount%50 == 0 || time.Since(h.lastStatisticTime) > 10*time.Minute`
unfoldable pub statistics_due : ℕ → ℕ → ℕ → Bool
statistics_due processed last now = (processed % 50 == 0) || ltb (10 * minute) (now - last)

-- The rest of `HandleMessage` for a valid event.
unfoldable pub handle_event : Message → Incoming → EventHandler → List Sent × EventHandler
unfolding statistics_due
handle_event message event h =
    let processed = (h.processed_count + 1) % 2 ^ 64 in
    if statistics_due processed h.last_statistic_time message.checked_at
    then (
      notify_event event
          ∷ kafka_message_processed (codes "success")
          ∷ notify_statistics processed event.event_type
          ∷ [],
      record { processed_count = processed; last_statistic_time = message.sent_at },
    )
    else (
      notify_event event ∷ kafka_message_processed (codes "success") ∷ [],
      record h { processed_count = processed },
    )

-- The return with an error.
abbrev pub rejected : Text → Text → EventHandler → Option Text × (List Sent × EventHandler)
rejected message event_id h = (
  some message,
  (kafka_message_processed (codes "error") ∷ notify_error message event_id ∷ [], h),
)

abbrev validated_event :
    Message → Incoming → EventHandler → Option Text → Option Text × (List Sent × EventHandler)
validated_event message event h (some missing) =
    rejected (codes "invalid event: " ++ missing) event.event_id h
validated_event message event h none = (none, handle_event message event h)

-- What a consumer has done: the state of the handler, its calls, and the offsets it has marked.
pub record Consumer : Type 0 where
  pub handler : EventHandler
  pub sent : List Sent
  pub marked : List ℕ

-- `session.MarkMessage` for a message without an error.
abbrev pub mark : Option Text → ℕ → List ℕ → List ℕ
mark none offset marked = marked ++ offset ∷ []
mark (some e) offset marked = marked

module _ (decode : Text → Result Incoming) where
  abbrev pub decoded :
      Message → EventHandler → Result Incoming → Option Text × (List Sent × EventHandler)
  decoded message h (err e) =
      rejected (codes "failed to unmarshal event: " ++ error_text e) (codes "unknown") h
  decoded message h (ok event) = validated_event message event h (validate_event event)

  unfoldable pub handle_message : Message → EventHandler → Option Text × (List Sent × EventHandler)
  unfolding validate_event handle_event
  handle_message message h = decoded message h (decode message.value)

  -- `ConsumeClaim` on what its `select` meets, in order.
  unfoldable pub consume_claim : List Arrival → Consumer → Consumer
  unfolding handle_message
  consume_claim [] c = c
  consume_claim (channel_closed ∷ arrivals) c = c
  consume_claim (session_done ∷ arrivals) c = c
  consume_claim (arrived message ∷ arrivals) c =
      let (failure, (sent, handler)) = handle_message message c.handler in
      consume_claim arrivals (record {
        handler = handler;
        sent = c.sent ++ sent;
        marked = mark failure message.offset c.marked;
      })
