-- ===== src/Examples/Notifying.antt =====
-- A claim of two messages, one of them without an event, and the sending of a message.
use pvz_service.Base.{
  ◌+◌, ◌-◌, ◌*◌, ◌≤◌, ◌≡◌, refl, ◌↔◌, true, none, List, [], ◌∷◌, arith, ◌==◌, if◌then◌else◌, length,
  total, pos,
}
use pvz_service.Base.Text.{Text, codes, text_eq}
use pvz_service.Domain.Error.{plain}
use pvz_service.Domain.Platform.{second}
use pvz_service.Db.World.{Result, err, ok}
use pvz_service.Notifier.{
  Arrival, arrived, session_done, Consumer, Incoming, consume_claim, validate_event,
}
use pvz_service.Notifier.Counts.{
  claimed, consume_claim-marks, consume_claim-statistics, is_statistics, valid_messages,
}
use pvz_service.Notifier.Telegram.{
  attempted, waits, send_message, Network, TelegramConfig, send_attempts, send_message_attempt,
  to_send, waits,
}
use pvz_service.Notifier.Telegram.Attempts.{SucceedsFrom, send_message-SucceedsFrom}

abbrev order_event : Incoming
order_event = record {
  event_id = codes "e1";
  event_type = codes "order_issued";
  timestamp = 5;
  actor_type = codes "client";
  actor_id = 7;
  order_id = 1;
  user_id = 7;
  order_status = codes "issued";
  source = codes "pvz-api";
}

abbrev read_event : Text → Result Incoming
read_event [] = err (plain (codes "unexpected end of JSON input"))
read_event (c ∷ text) = ok order_event

-- The session ends before a third message is seen.
abbrev short_claim : List Arrival
short_claim =
    arrived (record { offset = 8; value = []; checked_at = 10; sent_at = 11 })
    ∷ arrived (record { offset = 9; value = codes "{}"; checked_at = 12; sent_at = 13 })
    ∷ session_done
    ∷ arrived (record { offset = 10; value = codes "{}"; checked_at = 14; sent_at = 15 })
    ∷ []

abbrev fresh_consumer : Consumer
fresh_consumer = record {
  handler = record { processed_count = 0; last_statistic_time = 4 };
  sent = [];
  marked = [];
}

consume_claim-marks_example :
    ((consume_claim read_event short_claim fresh_consumer).marked ≡ 9 ∷ [])
    × ((consume_claim read_event short_claim fresh_consumer).handler.processed_count ≡ 1)
unfolding validate_event text_eq
consume_claim-marks_example =
    consume_claim-marks read_event short_claim fresh_consumer (omega arith)

consume_claim-statistics_example :
    length (valid_messages read_event (claimed short_claim))
    ≤ 50 * (total is_statistics (consume_claim read_event short_claim fresh_consumer).sent - 0) + 49
unfolding validate_event text_eq
consume_claim-statistics_example =
    consume_claim-statistics read_event short_claim fresh_consumer (omega arith)

-- A network on which the first attempt fails.
abbrev slow_network : Network Text Text
slow_network = record {
  marshal = λ n message. ok message.text;
  new_request = λ n url body. ok body;
  do_request = λ n req. if n == 1 then err (plain (codes "timeout")) else ok req;
  read_all = λ n resp. ok resp;
  unmarshal = λ n body. ok (record { is_ok = true; description = []; error_code = pos 0 });
  interrupted = λ n. none;
  int_text = λ k. codes "3";
}

abbrev three_attempts : TelegramConfig
three_attempts = record {
  bot_token = codes "token";
  chat_id = pos 5;
  enabled = true;
  retry_attempts = pos 3;
}

send_message-SucceedsFrom_example :
    ((send_message slow_network three_attempts (codes "text")).0 ≡ none)
    ↔ SucceedsFrom slow_network three_attempts
        (to_send slow_network three_attempts (codes "text"))
        1
        3
send_message-SucceedsFrom_example =
    send_message-SucceedsFrom slow_network three_attempts (codes "text")

-- The second attempt succeeds, after a wait of a second.
sent_at_second_attempt :
    send_message slow_network three_attempts (codes "text")
    ≡ (none, attempted 1 ∷ waits second ∷ attempted 2 ∷ [])
unfolding send_message send_attempts send_message_attempt
sent_at_second_attempt = refl
