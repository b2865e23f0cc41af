-- ===== src/Worker/Statements.antt =====
-- How the statements of the outbox worker end, and what they do to the outbox.
use pvz_service.Base.{
  ℕ, ◌≡◌, refl, ap, ◌∙◌, ◌⊎◌, inl, inr, Bool, true, Option, List, [], ◌∷◌, ◌++◌, arith, Bool-cases,
  All,
}
use pvz_service.Base.Text.{codes, Text}
use pvz_service.Domain.Error.{Error, wrap, plain}
use pvz_service.Domain.Event.{OutboxMessage, client, DlqMessage, failed}
use pvz_service.Db.Client.{
  client, visible, write, exec, affected, perform, rollback, with_transaction,
}
use pvz_service.Db.Client.Cases.{exec_cases}
use pvz_service.Db.Client.Transaction.{begun, with_transaction_cases}
use pvz_service.Db.Tables.{apply, apply_all, update_messages, Write, Tables, fail, put_dlq}
use pvz_service.Db.World.{
  World, err, ok, Result, wrap_error, ◌>>=◌, Result-cases, new_uuid, next_fault, round_trip,
  time_now,
}
use pvz_service.Repository.Dlq
use pvz_service.Repository.Dlq.{due}
use pvz_service.Repository.Outbox
use pvz_service.Worker.{dead_letter_in_tx}

pub All-update :
    (P Q : OutboxMessage → Type 0) (chosen : ℕ → Bool) (f : OutboxMessage → OutboxMessage)
    (l : List OutboxMessage)
    → ((m : OutboxMessage) → chosen m.id ≡ true → P m → Q (f m))
    → ((m : OutboxMessage) → P m → Q m)
    → All P l
    → All Q (update_messages chosen f l)
unfolding update_messages
All-update P Q chosen f [] f_keeps kept h = tt
All-update P Q chosen f (m ∷ l) f_keeps kept h =
    let rest = All-update P Q chosen f l f_keeps kept h.1 in
    elim (Bool-cases (chosen m.id)) [
      | inl taken ↦ rw taken (f_keeps m taken h.0, rest)
      | inr left ↦ rw left (kept m h.0, rest)
    ]

module _ {F : Type 0} where
  on_message_made :
      (id : ℕ) (x : Write F) (db : Tables F) (n : ℕ) (ws : List (Write F))
      → Outbox.on_message id x db ≡ affected n ws
      → ((n ≡ 0) × (ws ≡ [])) ⊎ ((n ≡ 1) × (ws ≡ x ∷ []))
  on_message_made id x db n ws h = ground arith

  -- An update of one message as it ends: with an error and no change, or made.
  abbrev pub UpdateEnds : Write F → World F → Result (Unit {0}) × World F → Type 0
  UpdateEnds x w out =
      (out.1.pending ≡ w.pending)
      × ((((e : Error) × (out.0 ≡ err e)) × (out.1.db ≡ w.db))
          ⊎ ((out.0 ≡ ok tt) × (out.1.db ≡ apply x w.db)))

  pub update_ends :
      (label : Text) (id : ℕ) (x : Write F) (w : World F)
      → UpdateEnds x w (
          (do
            rows ← wrap_error label (exec client (Outbox.on_message id x))
            Outbox.check_found rows)
            w)
  unfolding visible write apply_all
  update_ends label id x w = elim (exec_cases client (Outbox.on_message id x) w) [
    | inr (e, out) ↦ rw out (refl, inl ((wrap label e, refl), refl))
    | inl (n, ws, made, out) ↦ elim (on_message_made id x (visible client w) n ws made) [
      | inl (none_found, nothing) ↦
          rw (out, none_found, nothing)
            (refl, inl ((plain (codes "message not found"), refl), refl))
      | inr (one_found, wrote) ↦ rw (out, one_found, wrote) (refl, inr (refl, refl))
    ]
  ]

  -- The function of the transaction of `moveToDLQ`, as it ends.
  record LetterEnds (id : ℕ) (w : World F) (out : Result (Unit {0}) × World F) : Type 0 where
    tables : (out.1.db ≡ w.db) ⊎ ((reason : Option Text) × (out.1.db ≡ apply (fail id reason) w.db))
    writes : (out.1.pending ≡ []) ⊎ ((d : DlqMessage) × (out.1.pending ≡ put_dlq d ∷ []))

  status_letter :
      (id : ℕ) (reason : Option Text) (d : DlqMessage) (w w1 : World F)
      → w1.db ≡ w.db
      → w.pending ≡ []
      → w1.pending ≡ w.pending ++ put_dlq d ∷ []
      → LetterEnds id w (Outbox.update_status id failed reason w1)
  unfolding Outbox.update_status
  status_letter id reason d w w1 same fresh pending =
      let (kept, ends) = update_ends (codes "update status") id (fail id reason) w1 in
      record {
        tables = elim ends [
          | inl (failure, db) ↦ inl (db ∙ same)
          | inr (fine, db) ↦ inr (reason, db ∙ ap (apply (fail id reason)) same)
        ];
        writes = inr (d, rw (kept, pending, fresh) refl);
      }

  letter_ends :
      (msg : OutboxMessage) (w : World F)
      → w.pending ≡ []
      → LetterEnds msg.id w (dead_letter_in_tx msg w)
  unfolding dead_letter_in_tx Dlq.save exec round_trip perform time_now new_uuid visible write
  letter_ends msg w fresh = elim (Result-cases (next_fault w.faults)) [
    | inr (e, fault) ↦ rw fault (record { tables = inl refl; writes = inl fresh })
    | inl (u, fine) ↦ rw fine (status_letter msg.id _ _ w _ refl fresh refl)
  ]

  -- What `moveToDLQ` does to the outbox: nothing, or the update of its message to FAILED.
  pub moved_outbox :
      (msg : OutboxMessage) (w : World F)
      → let out = (with_transaction (dead_letter_in_tx msg) w).1.db.outbox in
        (out ≡ w.db.outbox)
        ⊎ ((reason : Option Text) × (out ≡ (apply (fail msg.id reason) w.db).outbox))
  unfolding rollback apply_all apply
  moved_outbox msg w =
      let ends = letter_ends msg (begun w) refl in
      let outbox = λ (db : Tables F). db.outbox in
      let touched : ((dead_letter_in_tx msg (begun w)).1.db.outbox ≡ w.db.outbox)
          ⊎ ((reason : Option Text) × ((dead_letter_in_tx msg (begun w)).1.db.outbox
                ≡ (apply (fail msg.id reason) w.db).outbox)) =
        elim ends.tables [
          | inl same ↦ inl (ap outbox same)
          | inr (reason, made) ↦ inr (reason, ap outbox made)
        ] in
      elim (with_transaction_cases (dead_letter_in_tx msg) w) [
        | inl (e, out) ↦ inl (rw out refl)
        | inr (inl (e, stopped, out)) ↦ rw out touched
        | inr (inr (inl (fine, (e, out)))) ↦ rw out touched
        | inr (inr (inr (fine, out))) ↦ elim ends.writes [
          | inl none_made ↦ rw (out, none_made) touched
          | inr (d, one_made) ↦ rw (out, one_made) touched
        ]
      ]
