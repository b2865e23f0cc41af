-- ===== src/Db/Tables.antt =====
-- The tables of migrations/*.sql as lists of rows in the order of insertion, and the writes that
-- the statements of the program make. Identifiers of rows that the database generates are numbers.
use pvz_service.Base.{
  ℕ, ◌+◌, ◌≡◌, refl, Bool, true, false, Option, none, some, List, [], ◌∷◌, ◌++◌, ◌==◌,
  if◌then◌else◌,
}
use pvz_service.Base.Text.{Text, text_eq}
use pvz_service.Domain.Order.{Order, OrderHistory, PackageRules}
use pvz_service.Domain.Event.{OutboxMessage, processing, completed, failed, DlqMessage}

pub record Tables (F : Type 0) : Type 0 where
  pub package_types : List (Text × PackageRules F)
  pub orders : List (Order F)
  pub history : List OrderHistory
  pub outbox : List OutboxMessage
  pub dlq : List DlqMessage

-- One row inserted, or the update of the rows that a `WHERE` clause selects.
pub data Write (F : Type 0) : Type 0 where
  put_order change_order : Order F → Write F
  put_history : OrderHistory → Write F
  put_outbox : OutboxMessage → Write F
  mark_processing : List ℕ → Write F
  count_attempt : ℕ → ℕ → Write F
  complete : ℕ → ℕ → Write F
  fail : ℕ → Option Text → Write F
  put_dlq : DlqMessage → Write F
  reschedule : ℕ → ℕ → ℕ → Write F
  drop_dlq : ℕ → Write F

module _ {F : Type 0} where
  unfoldable pub find_order : ℕ → List (Order F) → Option (Order F)
  find_order id [] = none
  find_order id (o ∷ l) = if o.order_id == id then some o else find_order id l

  -- `UPDATE orders SET … WHERE id = $1`
  unfoldable pub replace_order : Order F → List (Order F) → List (Order F)
  replace_order o [] = []
  replace_order o (x ∷ l) =
      let rest = replace_order o l in if x.order_id == o.order_id then o ∷ rest else x ∷ rest

  unfoldable pub has_package : Text → List (Text × PackageRules F) → Bool
  has_package code [] = false
  has_package code ((c, r) ∷ l) = if text_eq c code then true else has_package code l

unfoldable pub find_message : ℕ → List OutboxMessage → Option OutboxMessage
find_message id [] = none
find_message id (m ∷ l) = if m.id == id then some m else find_message id l

-- `UPDATE outbox SET … WHERE id = …`
unfoldable pub update_messages :
    (ℕ → Bool) → (OutboxMessage → OutboxMessage) → List OutboxMessage → List OutboxMessage
update_messages chosen f [] = []
update_messages chosen f (m ∷ l) =
    let rest = update_messages chosen f l in if chosen m.id then f m ∷ rest else m ∷ rest

unfoldable pub mem_id : ℕ → List ℕ → Bool
mem_id id [] = false
mem_id id (x ∷ l) = if x == id then true else mem_id id l

unfoldable pub update_dlq : ℕ → ℕ → ℕ → List DlqMessage → List DlqMessage
update_dlq id count after [] = []
update_dlq id count after (m ∷ l) =
    let rest = update_dlq id count after l in
    if m.id == id then record m { process_count = count; retry_after = after } ∷ rest else m ∷ rest

unfoldable pub delete_dlq : ℕ → List DlqMessage → List DlqMessage
delete_dlq id [] = []
delete_dlq id (m ∷ l) = let rest = delete_dlq id l in if m.id == id then rest else m ∷ rest

-- `attempts` of a message goes up, whatever it is.
abbrev attempt_at : ℕ → OutboxMessage → OutboxMessage
attempt_at now m = record m { attempts = m.attempts + 1; last_attempt_at = some now }

module _ {F : Type 0} where
  unfoldable pub apply : Write F → Tables F → Tables F
  unfolding update_messages mem_id update_dlq delete_dlq
  apply (put_order o) db = record db { orders = db.orders ++ o ∷ [] }
  apply (change_order o) db = record db { orders = replace_order o db.orders }
  apply (put_history h) db = record db { history = db.history ++ h ∷ [] }
  apply (put_outbox m) db = record db { outbox = db.outbox ++ m ∷ [] }
  apply (mark_processing ids) db = record db {
    outbox = update_messages (λ i. mem_id i ids) (λ m. record m { status = processing }) db.outbox;
  }
  apply (count_attempt id now) db = record db {
    outbox = update_messages (λ i. i == id) (attempt_at now) db.outbox;
  }
  apply (complete id now) db = record db {
    outbox =
        update_messages (λ i. i == id) (λ m. record m { status = completed; sent_at = some now })
          db.outbox;
  }
  apply (fail id reason) db = record db {
    outbox =
        update_messages (λ i. i == id) (λ m. record m { status = failed; error = reason })
          db.outbox;
  }
  apply (put_dlq m) db = record db { dlq = db.dlq ++ m ∷ [] }
  apply (reschedule id count after) db = record db { dlq = update_dlq id count after db.dlq }
  apply (drop_dlq id) db = record db { dlq = delete_dlq id db.dlq }

  unfoldable pub apply_all : List (Write F) → Tables F → Tables F
  apply_all [] db = db
  apply_all (w ∷ ws) db = apply_all ws (apply w db)

  pub apply_all-append :
      (ws vs : List (Write F)) (db : Tables F)
      → apply_all (ws ++ vs) db ≡ apply_all vs (apply_all ws db)
  unfolding apply_all
  apply_all-append [] vs db = refl
  apply_all-append (w ∷ ws) vs db = apply_all-append ws vs (apply w db)
