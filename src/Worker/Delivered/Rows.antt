-- ===== src/Worker/Delivered/Rows.antt =====
-- What each statement of cmd/outbox/main.go does to rows that are fair.
use mathlib.Core.Path.{subst}
use mathlib.Core.List.{Mem, mem-cons_of_mem, reverse}
use pvz_service.Base.{
  ℕ, ◌≡◌, sym, ap, ◌∙◌, Bool, Option, List, [], ◌∷◌, arith, ◌==◌, filterb, All, All-mono, All-take,
  All-reverse_aux, All-filterb,
}
use pvz_service.Base.Sort.{All-sort_desc, sort_desc}
use pvz_service.Base.Text.{Text}
use pvz_service.Domain.Event.{Event, OutboxMessage, completed}
use pvz_service.Db.Tables.{Tables, apply, complete, count_attempt, fail, mark_processing}
use pvz_service.Repository.Outbox
use pvz_service.Worker.Statements.{All-update}

-- The event that the message of an identifier carries.
module _ (payload_of : ℕ → Event) where
  -- A row has its identifier's event, and is COMPLETED only if the event is among those received.
  abbrev pub Fair : List Event → OutboxMessage → Type 0
  Fair received m = (m.payload ≡ payload_of m.id) × (m.status ≡ completed → Mem m.payload received)

  -- The messages that a query selects are rows.
  pub selected_own :
      (received : List Event) (chosen : OutboxMessage → Bool) (limit : ℕ) (l : List OutboxMessage)
      → All (Fair received) l
      → All (λ m. m.payload ≡ payload_of m.id) (Outbox.oldest_first limit (filterb chosen l))
  unfolding Outbox.oldest_first
  selected_own received chosen limit l h =
      let Own = λ (m : OutboxMessage). m.payload ≡ payload_of m.id in
      let key = λ (m : OutboxMessage). m.created_at in
      let kept = All-filterb Own chosen l (All-mono (Fair received) Own (λ m f. f.0) l h) in
      let turned = All-reverse_aux Own (filterb chosen l) [] kept tt in
      let sorted = All-sort_desc key Own (reverse (filterb chosen l)) turned in
      All-take Own limit _
        (All-reverse_aux Own (sort_desc key (reverse (filterb chosen l))) [] sorted tt)

  module _ {F : Type 0} where
    abbrev pub FairRows : List Event → Tables F → Type 0
    FairRows received db = All (Fair received) db.outbox

    pub attempted_fair :
        (id now : ℕ) (received : List Event) (db : Tables F)
        → FairRows received db
        → FairRows received (apply (count_attempt id now) db)
    unfolding apply
    attempted_fair id now received db h =
        All-update (Fair received) (Fair received) _ _ db.outbox (λ m taken f. f) (λ m f. f) h

    pub failed_fair :
        (id : ℕ) (reason : Option Text) (received : List Event) (db : Tables F)
        → FairRows received db
        → FairRows received (apply (fail id reason) db)
    unfolding apply
    failed_fair id reason received db h =
        All-update (Fair received) (Fair received) _ _ db.outbox
          (λ m taken f. (f.0, λ s. absurd (cc))) (λ m f. f) h

    pub marked_fair :
        (ids : List ℕ) (received : List Event) (db : Tables F)
        → FairRows received db
        → FairRows received (apply (mark_processing ids) db)
    unfolding apply
    marked_fair ids received db h =
        All-update (Fair received) (Fair received) _ _ db.outbox
          (λ m taken f. (f.0, λ s. absurd (cc))) (λ m f. f) h

    pub completed_fair :
        (id now : ℕ) (received : List Event) (db : Tables F)
        → Mem (payload_of id) received
        → FairRows received db
        → FairRows received (apply (complete id now) db)
    unfolding apply
    completed_fair id now received db sent h =
        All-update (Fair received) (Fair received) (λ i. i == id) _ db.outbox
          (λ m taken f.
            let same : m.id ≡ id = ground arith in
            (f.0, λ s. subst (λ e. Mem e received) (sym (f.0 ∙ ap payload_of same)) sent))
          (λ m f. f) h

    -- More received events keep it.
    pub received_fair :
        (event : Event) (received : List Event) (db : Tables F)
        → FairRows received db
        → FairRows (event ∷ received) db
    received_fair event received db h =
        All-mono (Fair received) (Fair (event ∷ received))
          (λ m f. (f.0, λ s. mem-cons_of_mem event (f.1 s))) db.outbox h
