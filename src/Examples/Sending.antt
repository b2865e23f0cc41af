-- ===== src/Examples/Sending.antt =====
-- One tick of the outbox worker with a message that waits, at a broker that refuses it once.
use pvz_service.Base.{ℕ, ◌≡◌, refl, true, none, [], ◌∷◌}
use pvz_service.Base.Text.{codes}
use pvz_service.Domain.Event.{Event, client, created, new_event, order_issued}
use pvz_service.Worker.Delivered.{FairState, process_outbox_messages-FairState}
use pvz_service.Worker.Letters.{Accounted, has_letter, process_dlq-accounts}
use pvz_service.Examples.{opening, shelf}
use pvz_service.Worker.{WorkerState, process_outbox_messages, refused, process_dlq}

abbrev event_of : ℕ → Event
event_of id =
    new_event id 5 order_issued (record { type = client; id = 7 })
      (record { id = 1; user_id = 7; status = codes "issued" })

abbrev waiting : WorkerState ℕ
waiting = record {
  world = record opening {
    db = record shelf {
      outbox =
          record {
            id = 40;
            payload = event_of 40;
            status = created;
            error = none;
            attempts = 0;
            created_at = 5;
            sent_at = none;
            last_attempt_at = none;
          }
          ∷ [];
    };
  };
  broker = record { received = []; deliveries = refused (codes "no leader") ∷ [] };
}

process_outbox_messages-FairState_example : FairState event_of (process_outbox_messages 10 waiting)
process_outbox_messages-FairState_example =
    process_outbox_messages-FairState event_of 10 waiting ((refl, λ e. absurd (cc)), tt)

abbrev dead : WorkerState ℕ
dead = record waiting {
  world = record opening {
    db = record shelf {
      dlq =
          record {
            id = 60;
            original_id = 41;
            payload = event_of 60;
            error = codes "Max retries exceeded";
            attempts = 2;
            created_at = 4;
            failed_at = 4;
            retry_after = 8;
            process_count = 0;
            max_retries = 3;
          }
          ∷ [];
    };
  };
}

letter_there : has_letter 60 dead.world.db.dlq ≡ true
unfolding has_letter
letter_there = refl

process_dlq-accounts_example :
    Accounted event_of (process_dlq dead).broker.received (process_dlq dead).world.db.dlq 60
process_dlq-accounts_example = process_dlq-accounts event_of 60 dead (refl, tt) letter_there
